-- ===== src/Client/AutoLock/Watched.antt =====
-- The invariant of a started tab: one timer at most is pending, and it is the one that is shown.
use safe_pass.Base.{
  ℕ, ◌+◌, ◌*◌, ◌≤◌, ◌≡◌, refl, sym, ap, ◌∙◌, true, false, Option, none, some, List, [], ◌∷◌, ◌⊎◌,
  inl, inr, any, delete, filter, leb, if◌then◌else◌, Bool-cases, Option-cases, ==_refl, arith,
}
use mathlib.Core.Path.{subst}
use safe_pass.Client.Keyring.{Keyring, is_unlocked, install, receive_key, lock}
use safe_pass.Client.Keyring.Laws.{is_unlocked-lock, is_unlocked-receive_key}
use safe_pass.Client.AutoLock.{
  Tab, Timer, max_minutes, clear_timer, reset, configure_auto_lock, start_auto_lock, on_activity,
  stop_auto_lock, reach, sign_in,
}
use safe_pass.Client.AutoLock.Events.{
  Event, signs_in, unlocks, key_arrives, activity, configures, restarts, starts, reaches, locks,
  stops, step, run, last_reset,
}

-- The one timer that is pending is the module's, it fires when the module says, and that is no later
-- than the limit.
pub record IsArmed (limit : ℕ) (timer lock_at : Option ℕ) (pending : List Timer) : Type 0 where
  pub id : ℕ
  pub due : ℕ
  pub only : pending ≡ record { id = id; due = due } ∷ []
  pub ours : timer ≡ some id
  pub shown : lock_at ≡ some due
  pub in_time : due ≤ limit

module _ {CryptoKey : Type 0} where
  pub record IsWatched (last : ℕ) (tab : Tab CryptoKey) : Type 0 where
    pub started : tab.started ≡ true
    pub minutes : tab.minutes ≤ max_minutes
    pub timers :
        IsArmed (last + max_minutes * 60000) tab.timer tab.lock_at tab.pending
        ⊎ ((tab.pending ≡ []) × (is_unlocked tab.ring ≡ false))

  clear_timer-none :
      (limit : ℕ) (tab : Tab CryptoKey)
      → IsArmed limit tab.timer tab.lock_at tab.pending ⊎ (tab.pending ≡ [])
      → clear_timer tab.timer tab.pending ≡ []
  unfolding clear_timer delete filter
  clear_timer-none limit tab (inl a) = rw (a.only, a.ours) ground (arith, ==_refl a.id)
  clear_timer-none limit tab (inr e) = elim (Option-cases tab.timer) [
    | inl unset ↦ rw (e, unset) refl
    | inr (i, set) ↦ rw (e, set) refl
  ]

  -- At most one timer is pending, and it is the module's.
  abbrev pub IsTidy : Tab CryptoKey → Type 0
  IsTidy tab = (limit : ℕ) × (IsArmed limit tab.timer tab.lock_at tab.pending ⊎ (tab.pending ≡ []))

  IsWatched-IsTidy : (last : ℕ) (tab : Tab CryptoKey) → IsWatched last tab → IsTidy tab
  IsWatched-IsTidy last tab w = elim w.timers [
    | inl a ↦ (last + max_minutes * 60000, inl a)
    | inr (e, _) ↦ (0, inr e)
  ]

  -- A started tab, whether or not the countdown runs.
  pub record IsStarted (tab : Tab CryptoKey) : Type 0 where
    pub started : tab.started ≡ true
    pub minutes : tab.minutes ≤ max_minutes
    pub tidy : IsTidy tab

  -- What holds of a tab, by the time of the last restart of its countdown, if there is one.
  abbrev pub IsKept : Option ℕ → Tab CryptoKey → Type 0
  IsKept none tab = IsStarted tab
  IsKept (some last) tab = IsWatched last tab

  IsKept-IsStarted : (last : Option ℕ) (tab : Tab CryptoKey) → IsKept last tab → IsStarted tab
  IsKept-IsStarted none tab w = w
  IsKept-IsStarted (some last) tab w = record {
    started = w.started;
    minutes = w.minutes;
    tidy = IsWatched-IsTidy last tab w;
  }

  reset-IsWatched : (now : ℕ) (tab : Tab CryptoKey) → IsStarted tab → IsWatched now (reset now tab)
  unfolding reset
  reset-IsWatched now tab w = elim (Bool-cases (is_unlocked tab.ring)) [
    | inl is_open ↦
        rw (is_open, reset, clear_timer-none w.tidy.0 tab w.tidy.1)
          (record {
            started = w.started;
            minutes = w.minutes;
            timers = inl (record {
              id = tab.next_handle;
              due = now + tab.minutes * 60000;
              only = refl;
              ours = refl;
              shown = refl;
              in_time = omega arith;
            });
          })
    | inr shut ↦
        rw (shut, reset, clear_timer-none w.tidy.0 tab w.tidy.1)
          (record { started = w.started; minutes = w.minutes; timers = inr (refl, shut) })
  ]

  reach-IsWatched :
      (last now : ℕ) (tab : Tab CryptoKey) → IsWatched last tab → IsWatched last (reach now tab)
  unfolding reach any delete filter
  reach-IsWatched last now tab w = elim w.timers [
    | inl a ↦ elim (Bool-cases (leb a.due now)) [
      | inl due ↦
          rw (a.only, reach, due)
            (record {
              started = w.started;
              minutes = w.minutes;
              timers = inr (refl, is_unlocked-lock tab.ring);
            })
      | inr early ↦
          let test : any (λ (t : Timer). leb t.due now) tab.pending ≡ false =
            rw (a.only, early) refl in
          rw test w
    ]
    | inr (e, shut) ↦
        let test : any (λ (t : Timer). leb t.due now) tab.pending ≡ false = rw e refl in rw test w
  ]

  reach-IsStarted : (now : ℕ) (tab : Tab CryptoKey) → IsStarted tab → IsStarted (reach now tab)
  unfolding reach any delete filter
  reach-IsStarted now tab w = elim w.tidy.1 [
    | inl a ↦ elim (Bool-cases (leb a.due now)) [
      | inl due ↦
          rw (a.only, reach, due)
            (record { started = w.started; minutes = w.minutes; tidy = (0, inr refl) })
      | inr early ↦
          let test : any (λ (t : Timer). leb t.due now) tab.pending ≡ false =
            rw (a.only, early) refl in
          rw test w
    ]
    | inr e ↦
        let test : any (λ (t : Timer). leb t.due now) tab.pending ≡ false = rw e refl in rw test w
  ]

  reach-IsKept :
      (last : Option ℕ) (now : ℕ) (tab : Tab CryptoKey)
      → IsKept last tab
      → IsKept last (reach now tab)
  reach-IsKept none now tab w = reach-IsStarted now tab w
  reach-IsKept (some last) now tab w = reach-IsWatched last now tab w

  ring-IsStarted :
      (tab : Tab CryptoKey) (ring : Keyring CryptoKey)
      → IsStarted tab
      → IsStarted (record tab { ring = ring })
  ring-IsStarted tab ring w = record {
    started = w.started;
    minutes = w.minutes;
    tidy = (w.tidy.0, elim w.tidy.1 [ inl a ↦ inl a | inr e ↦ inr e ]);
  }

  -- The keyring of a tab may change, if that does not unlock it.
  ring-IsKept :
      (last : Option ℕ) (tab : Tab CryptoKey) (ring : Keyring CryptoKey)
      → (is_unlocked tab.ring ≡ false → is_unlocked ring ≡ false)
      → IsKept last tab
      → IsKept last (record tab { ring = ring })
  ring-IsKept none tab ring shuts w = ring-IsStarted tab ring w
  ring-IsKept (some last) tab ring shuts w = record {
    started = w.started;
    minutes = w.minutes;
    timers = elim w.timers [ inl a ↦ inl a | inr (e, shut) ↦ inr (e, shuts shut) ];
  }

  stop_auto_lock-IsStarted : (tab : Tab CryptoKey) → IsStarted tab → IsStarted (stop_auto_lock tab)
  unfolding stop_auto_lock
  stop_auto_lock-IsStarted tab w = record {
    started = w.started;
    minutes = w.minutes;
    tidy = (0, inr (clear_timer-none w.tidy.0 tab w.tidy.1));
  }

  step-IsKept :
      (e : Event CryptoKey) (last : Option ℕ) (tab : Tab CryptoKey)
      → IsKept last tab
      → IsKept (last_reset last (e ∷ [])) (step e tab)
  unfolding last_reset step sign_in on_activity configure_auto_lock start_auto_lock
  step-IsKept (signs_in u p now) last tab w =
      reset-IsWatched now (record tab { ring = install u p tab.ring })
        (ring-IsStarted tab (install u p tab.ring) (IsKept-IsStarted last tab w))
  step-IsKept (unlocks u p) last tab w =
      ring-IsStarted tab (install u p tab.ring) (IsKept-IsStarted last tab w)
  step-IsKept (key_arrives i v n k) last tab w =
      ring-IsKept last tab (receive_key i v n k tab.ring)
        (λ shut. is_unlocked-receive_key i v n k tab.ring ∙ shut) w
  step-IsKept (activity now) last tab w =
      let on = IsKept-IsStarted last tab w in
      subst (IsWatched now) (ap (λ b. if b then reset now tab else tab) (sym on.started))
        (reset-IsWatched now tab on)
  step-IsKept (configures r now) last tab w =
      let on = IsKept-IsStarted last tab w in
      reset-IsWatched now _ (record { started = on.started; minutes = omega arith; tidy = on.tidy })
  step-IsKept (restarts now) last tab w = reset-IsWatched now tab (IsKept-IsStarted last tab w)
  step-IsKept (starts now) last tab w =
      let on = IsKept-IsStarted last tab w in
      subst (IsKept last)
        (ap (λ b. if b then tab else reset now (record tab { started = true })) (sym on.started)) w
  step-IsKept (reaches now) last tab w = reach-IsKept last now tab w
  step-IsKept locks last tab w =
      ring-IsKept last tab (lock tab.ring) (λ _. is_unlocked-lock tab.ring) w
  step-IsKept stops last tab w = stop_auto_lock-IsStarted tab (IsKept-IsStarted last tab w)

  last_reset-cons :
      (e : Event CryptoKey) (es : List (Event CryptoKey)) (last : Option ℕ)
      → last_reset last (e ∷ es) ≡ last_reset (last_reset last (e ∷ [])) es
  unfolding last_reset
  last_reset-cons (signs_in u p now) es last = refl
  last_reset-cons (unlocks u p) es last = refl
  last_reset-cons (key_arrives i v n k) es last = refl
  last_reset-cons (activity now) es last = refl
  last_reset-cons (configures r now) es last = refl
  last_reset-cons (restarts now) es last = refl
  last_reset-cons (starts now) es last = refl
  last_reset-cons (reaches now) es last = refl
  last_reset-cons locks es last = refl
  last_reset-cons stops es last = refl

  pub run-IsKept :
      (es : List (Event CryptoKey)) (last : Option ℕ) (tab : Tab CryptoKey)
      → IsKept last tab
      → IsKept (last_reset last es) (run es tab)
  unfolding run
  run-IsKept [] last tab w = unfold last_reset in w
  run-IsKept (e ∷ es) last tab w =
      subst (λ t. IsKept t (run es (step e tab))) (sym (last_reset-cons e es last))
        (run-IsKept es (last_reset last (e ∷ [])) (step e tab) (step-IsKept e last tab w))
