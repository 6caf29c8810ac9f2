-- ===== src/Client/AutoLock/Events.antt =====
-- What happens in a tab of frontend/src/vault/auto-lock.ts, and what the tab makes of it.
use safe_pass.Base.{ℕ, false, Option, none, some, List, [], ◌∷◌}
use safe_pass.Envelope.Base64.{Bytes}
use safe_pass.Client.Keyring.{install, receive_key, lock}
use safe_pass.Client.AutoLock.{
  Tab, default_minutes, reset, configure_auto_lock, start_auto_lock, on_activity, stop_auto_lock,
  reach, sign_in,
}

-- What happens in a tab. `unlocks` is an unlock alone, as the first step of the unlock from the
-- offline copy, whose last step is `restarts`; in between, keys arrive, and it may fail. `locks`
-- stands for the lock button, a sign-out, or a refused session.
pub data Event (CryptoKey : Type 0) : Type 0 where
  signs_in : (user_key : Bytes) (private_key : CryptoKey) (now : ℕ) → Event CryptoKey
  unlocks : (user_key : Bytes) (private_key : CryptoKey) → Event CryptoKey
  key_arrives : (identity vault_id key_version : ℕ) (key : Bytes) → Event CryptoKey
  activity : (now : ℕ) → Event CryptoKey
  configures : (requested : Option ℕ) (now : ℕ) → Event CryptoKey
  restarts : (now : ℕ) → Event CryptoKey
  starts : (now : ℕ) → Event CryptoKey
  reaches : (now : ℕ) → Event CryptoKey
  locks : Event CryptoKey
  stops : Event CryptoKey

module _ {CryptoKey : Type 0} where
  unfoldable pub step : Event CryptoKey → Tab CryptoKey → Tab CryptoKey
  step (signs_in user_key private_key now) tab = sign_in user_key private_key now tab
  step (key_arrives identity v n key) tab = record tab {
    ring = receive_key identity v n key tab.ring;
  }
  step (unlocks user_key private_key) tab = record tab {
    ring = install user_key private_key tab.ring;
  }
  step (activity now) tab = on_activity now tab
  step (configures requested now) tab = configure_auto_lock requested now tab
  step (restarts now) tab = reset now tab
  step (starts now) tab = start_auto_lock now tab
  step (reaches now) tab = reach now tab
  step locks tab = record tab { ring = lock tab.ring }
  step stops tab = stop_auto_lock tab

  unfoldable pub run : List (Event CryptoKey) → Tab CryptoKey → Tab CryptoKey
  unfolding step
  run [] tab = tab
  run (e ∷ es) tab = run es (step e tab)

  -- The time of the last event that restarts the countdown, with a time for the start: none if a stop
  -- or an unlock alone has come after it.
  unfoldable pub last_reset : Option ℕ → List (Event CryptoKey) → Option ℕ
  last_reset t [] = t
  last_reset t (signs_in u p now ∷ es) = last_reset (some now) es
  last_reset t (unlocks u p ∷ es) = last_reset none es
  last_reset t (key_arrives i v n k ∷ es) = last_reset t es
  last_reset t (activity now ∷ es) = last_reset (some now) es
  last_reset t (configures r now ∷ es) = last_reset (some now) es
  last_reset t (restarts now ∷ es) = last_reset (some now) es
  last_reset t (starts now ∷ es) = last_reset t es
  last_reset t (reaches now ∷ es) = last_reset t es
  last_reset t (locks ∷ es) = last_reset t es
  last_reset t (stops ∷ es) = last_reset none es

  -- A tab as the page loads.
  abbrev pub fresh : Tab CryptoKey
  fresh = record {
    ring = record { buffers = []; state = none; unlocks = 0; notices = [] };
    timer = none;
    minutes = default_minutes;
    started = false;
    lock_at = none;
    pending = [];
    next_handle = 1;
  }
