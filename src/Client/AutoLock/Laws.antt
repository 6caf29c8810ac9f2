-- ===== src/Client/AutoLock/Laws.antt =====
-- A tab without activity locks, and the countdown shows when.
use safe_pass.Base.{
  ℕ, ◌+◌, ◌*◌, ◌≤◌, ◌≡◌, refl, sym, ◌∙◌, true, false, some, List, inl, inr, any, leb, ltb,
  Bool-cases, arith,
}
use mathlib.Core.Path.{subst}
use mathlib.Core.Option.{some-injective}
use safe_pass.Client.Keyring.{is_unlocked}
use safe_pass.Client.Keyring.Laws.{is_unlocked-lock}
use safe_pass.Client.AutoLock.{
  Tab, Timer, max_minutes, clear_timer, reset, start_auto_lock, get_lock_at, reach,
}
use safe_pass.Client.AutoLock.Events.{Event, run, last_reset, fresh}
use safe_pass.Client.AutoLock.Watched.{IsWatched, IsKept, run-IsKept}

module _ {CryptoKey : Type 0} where
  fresh-IsWatched : (now : ℕ) → IsWatched now (start_auto_lock now (fresh {CryptoKey = CryptoKey}))
  unfolding start_auto_lock reset is_unlocked clear_timer
  fresh-IsWatched now = record { started = refl; minutes = omega arith; timers = inr (refl, refl) }

  -- When the clock reaches a time, a watched tab locks if its timer is due.
  reach-unlocked :
      (last now : ℕ) (tab : Tab CryptoKey) {d : ℕ}
      → IsWatched last tab
      → get_lock_at tab ≡ some d
      → (is_unlocked (reach now tab).ring ≡ ltb now d) × (d ≤ last + max_minutes * 60000)
  unfolding reach any get_lock_at
  reach-unlocked last now tab {d} w shown = elim w.timers [
    | inl a ↦
        let is_open : is_unlocked tab.ring ≡ true = ground arith in
        let same : a.due ≡ d =
          some-injective _ _ (sym a.shown ∙ rw (is_open, get_lock_at) at shown) in
        elim (Bool-cases (leb a.due now)) [
          | inl due ↦
              let test : any (λ (t : Timer). leb t.due now) tab.pending ≡ true =
                rw (a.only, due) refl in
              let after : false ≡ ltb now d = ground arith in
              (rw test (is_unlocked-lock tab.ring ∙ after), rw (← same) a.in_time)
          | inr early ↦
              let test : any (λ (t : Timer). leb t.due now) tab.pending ≡ false =
                rw (a.only, early) refl in
              let before : true ≡ ltb now d = ground arith in
              (rw test (is_open ∙ before), rw (← same) a.in_time)
        ]
    | inr (e, shut) ↦ ground arith
  ]

  run-IsWatched :
      (es : List (Event CryptoKey)) (start : ℕ) {t : ℕ}
      → last_reset (some start) es ≡ some t
      → IsWatched t (run es (start_auto_lock start fresh))
  run-IsWatched es start last =
      subst (λ o. IsKept o (run es (start_auto_lock start fresh))) last
        (run-IsKept es (some start) (start_auto_lock start fresh) (fresh-IsWatched start))

  -- After any sequence of the events of a started tab in which the countdown has been restarted since
  -- the last stop and since the last unlock that did not restart it: when the clock reaches a time
  -- that is 15 minutes or more after the last restart, the vault is locked.
  pub run-locks :
      (es : List (Event CryptoKey)) (start now : ℕ) {t : ℕ}
      → last_reset (some start) es ≡ some t
      → t + 15 * 60000 ≤ now
      → is_unlocked (reach now (run es (start_auto_lock start fresh))).ring ≡ false
  unfolding reach any
  run-locks es start now {t} last idle =
      let tab = run es (start_auto_lock start fresh) in
      let w = run-IsWatched es start {t = t} last in
      elim w.timers [
        | inl a ↦
            let test : any (λ (t : Timer). leb t.due now) tab.pending ≡ true =
              rw (a.only) (ground (arith, a.in_time)) in
            rw test (is_unlocked-lock tab.ring)
        | inr (e, shut) ↦
            let test : any (λ (t : Timer). leb t.due now) tab.pending ≡ false = rw e refl in
            rw test shut
      ]

  -- After any sequence of the events of a started tab in which the countdown has been restarted since
  -- the last stop and since the last unlock that did not restart it: the moment that the countdown
  -- shows is the moment at which the vault locks. At an earlier time it is still unlocked, from then
  -- on it is not; and the moment is at most 15 minutes after the last restart.
  pub run-get_lock_at :
      (es : List (Event CryptoKey)) (start now : ℕ) {t d : ℕ}
      → last_reset (some start) es ≡ some t
      → get_lock_at (run es (start_auto_lock start fresh)) ≡ some d
      → (is_unlocked (reach now (run es (start_auto_lock start fresh))).ring ≡ ltb now d)
        × (d ≤ t + 15 * 60000)
  run-get_lock_at es start now {t} last =
      reach-unlocked t now (run es (start_auto_lock start fresh)) (run-IsWatched es start last)
