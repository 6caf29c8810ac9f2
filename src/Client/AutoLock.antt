-- ===== src/Client/AutoLock.antt =====
-- frontend/src/vault/auto-lock.ts: the timer that locks the keyring of a tab without activity. The
-- pending timers of the runtime are part of the state; times are in milliseconds.
pub mod Events
pub mod Watched
pub mod Laws
use safe_pass.Base.{
  ℕ, suc, ◌+◌, ◌*◌, Bool, true, false, not, Option, none, some, List, [], ◌∷◌, ◌==◌, any, delete,
  min, max, leb, if◌then◌else◌,
}
use safe_pass.Envelope.Base64.{Bytes}
use safe_pass.Client.Keyring.{Keyring, is_unlocked, install, lock}

abbrev pub max_minutes : ℕ
max_minutes = 15

abbrev pub default_minutes : ℕ
default_minutes = 15

-- A pending timer of the runtime, and when it fires.
pub record Timer : Type 0 where
  pub id : ℕ
  pub due : ℕ

-- The variables of the module, the keyring, and the pending timers with the next handle.
pub record Tab (CryptoKey : Type 0) : Type 0 where
  pub ring : Keyring CryptoKey
  pub timer : Option ℕ
  pub minutes : ℕ
  pub started : Bool
  pub lock_at : Option ℕ
  pub pending : List Timer
  pub next_handle : ℕ

-- `if (timer) clearTimeout(timer)`: a handle that is no longer pending is ignored.
unfoldable pub clear_timer : Option ℕ → List Timer → List Timer
clear_timer none pending = pending
clear_timer (some id) pending = delete (λ t. t.id == id) pending

module _ {CryptoKey : Type 0} where
  unfoldable pub reset : ℕ → Tab CryptoKey → Tab CryptoKey
  unfolding clear_timer
  reset now tab =
      let cleared = clear_timer tab.timer tab.pending in
      let due = now + tab.minutes * 60000 in
      if not (is_unlocked tab.ring)
      then (record tab { pending = cleared; lock_at = none })
      else (record tab {
        lock_at = some due;
        pending = record { id = tab.next_handle; due = due } ∷ cleared;
        timer = some tab.next_handle;
        next_handle = suc tab.next_handle;
      })

  -- `configureAutoLock`, of the integer part of the request; none for a negative one.
  unfoldable pub configure_auto_lock : Option ℕ → ℕ → Tab CryptoKey → Tab CryptoKey
  unfolding reset
  configure_auto_lock requested now tab =
      let wanted : ℕ = elim requested [ none ↦ 1 | some n ↦ max 1 n ] in
      reset now (record tab { minutes = min wanted max_minutes })

  unfoldable pub start_auto_lock : ℕ → Tab CryptoKey → Tab CryptoKey
  unfolding reset
  start_auto_lock now tab = if tab.started then tab else reset now (record tab { started = true })

  -- One of the events that the started module listens to: activity, or the page being hidden.
  unfoldable pub on_activity : ℕ → Tab CryptoKey → Tab CryptoKey
  unfolding reset
  on_activity now tab = if tab.started then reset now tab else tab

  unfoldable pub stop_auto_lock : Tab CryptoKey → Tab CryptoKey
  unfolding clear_timer
  stop_auto_lock tab = record tab {
    pending = clear_timer tab.timer tab.pending;
    timer = none;
    lock_at = none;
  }

  unfoldable pub get_lock_at : Tab CryptoKey → Option ℕ
  get_lock_at tab = if is_unlocked tab.ring then tab.lock_at else none

  -- The clock reaches a time: the timers that are due fire, and each calls `lock`.
  unfoldable pub reach : ℕ → Tab CryptoKey → Tab CryptoKey
  reach now tab =
      if any (λ t. leb t.due now) tab.pending
      then (record tab { ring = lock tab.ring; pending = delete (λ t. leb t.due now) tab.pending })
      else tab

  -- `unlockFromKeyring` of the session: the keys are installed, and the countdown is restarted.
  unfoldable pub sign_in : Bytes → CryptoKey → ℕ → Tab CryptoKey → Tab CryptoKey
  unfolding reset
  sign_in user_key private_key now tab =
      reset now (record tab { ring = install user_key private_key tab.ring })
