-- ===== src/Tests/Client.antt =====
-- Runs of the client.
use safe_pass.Base.{
  ℕ, ◌+◌, ◌*◌, ◌≤◌, ◌≡◌, refl, true, false, none, some, List, [], ◌∷◌, inr, ltb, length, replicate,
  map_get, map_set, max_key, delete, arith,
}
use safe_pass.Errors.{ok}
use safe_pass.Envelope.{str, is_well_formed_envelope, is_well_formed_key_wrap}
use safe_pass.Envelope.Base64.{Text, Bytes}
use safe_pass.Client.Keyring.{
  read, lock, vault_key_for, write_key_for, install, receive_key, notify, is_unlocked, same_state,
  add_key, versions_of, address, zero_buffer, zero_versions, zero_vaults, require_state,
}
use safe_pass.Client.Keyring.Laws.{lock-zeroed, write_key_for-highest}
use safe_pass.Client.Keyring.Refinement.{
  Event, unlocks, arrives, empty, nothing, run, abstract_run, held_key, step, abstract_step,
  run-held_key,
}
use safe_pass.Client.AutoLock.{
  start_auto_lock, stop_auto_lock, reset, on_activity, reach, get_lock_at, sign_in, clear_timer,
}
use safe_pass.Client.AutoLock.Events
use safe_pass.Client.AutoLock.Laws.{run-locks, run-get_lock_at}
use safe_pass.Client.Crypto.{
  encrypt_bytes, decrypt_bytes, hkdf_expand, wrap_vault_key_for_member, unwrap_vault_key_for_member,
}
use safe_pass.Client.Crypto.Laws.{decrypt_bytes-encrypt_bytes, unwrap-wrap_vault_key_for_member}
use safe_pass.Client.Crypto.Stretch.{length-hkdf_expand}
use safe_pass.Tests.Platform.{toy, toy-IsCipher}

-- Unlock, two generations of a vault's key, and a key that arrives for an earlier unlock.
abbrev events : List (Event (Unit {0}))
events =
    unlocks (1 ∷ []) tt
    ∷ arrives 0 5 1 (7 ∷ 8 ∷ [])
    ∷ arrives 0 5 2 (9 ∷ [])
    ∷ arrives 3 5 4 (6 ∷ [])
    ∷ []

client : Unit {0}
unfolding run step install notify is_unlocked receive_key same_state add_key versions_of map_get
    map_set abstract_run abstract_step held_key vault_key_for require_state address read lock
    zero_buffer zero_versions zero_vaults write_key_for max_key
client = tt

run-held_key_example : held_key (run events empty) 5 2 ≡ (abstract_run events nothing).keys 5 2
run-held_key_example = run-held_key events 5 2

held_test : held_key (run events empty) 5 2 ≡ some (9 ∷ [])
unfolding client
held_test = refl

late_test : held_key (run events empty) 5 4 ≡ none
unfolding client
late_test = refl

lock-zeroed_example : read (lock (run events empty)) 1 ≡ some (0 ∷ 0 ∷ [])
unfolding client
lock-zeroed_example = lock-zeroed (run events empty) 5 1 {a = 1} {key = 7 ∷ 8 ∷ []} refl refl

write_key_for-highest_example :
    (n a : ℕ) × (write_key_for (run events empty) 5 ≡ inr (some a, n))
    × (vault_key_for (run events empty) 5 n ≡ inr a)
    × (1 ≤ n)
unfolding client
write_key_for-highest_example = write_key_for-highest (run events empty) 5 1 {k = 1} refl

abbrev day : List (Events.Event (Unit {0}))
day =
    Events.stops
    ∷ Events.unlocks (1 ∷ []) tt
    ∷ Events.restarts 1000
    ∷ Events.activity 5000
    ∷ Events.key_arrives 0 5 1 (7 ∷ [])
    ∷ []

run-locks_example :
    is_unlocked (reach 905000 (Events.run day (start_auto_lock 0 Events.fresh))).ring ≡ false
unfolding Events.last_reset
run-locks_example = run-locks day 0 905000 {t = 5000} refl (omega arith)

run-get_lock_at_example :
    (is_unlocked (reach 4000 (Events.run day (start_auto_lock 0 Events.fresh))).ring
      ≡ ltb 4000 905000)
    × (905000 ≤ 5000 + 15 * 60000)
unfolding client Events.run Events.step Events.last_reset sign_in on_activity start_auto_lock
    stop_auto_lock reset clear_timer get_lock_at delete
run-get_lock_at_example = run-get_lock_at day 0 4000 {t = 5000} {d = 905000} refl refl

abbrev nonce : Bytes
nonce = replicate 12 4

abbrev key : Bytes
key = replicate 32 5

decrypt_bytes-encrypt_bytes_example :
    (t : Text) × (encrypt_bytes toy nonce key (1 ∷ 2 ∷ []) ≡ ok t)
    × (decrypt_bytes toy key t ≡ ok (1 ∷ 2 ∷ []))
    × (is_well_formed_envelope (str t) ≡ true)
    × (is_well_formed_key_wrap (str t) ≡ true)
decrypt_bytes-encrypt_bytes_example =
    decrypt_bytes-encrypt_bytes toy nonce key (1 ∷ 2 ∷ []) toy-IsCipher refl refl (omega arith)
      (omega arith)

unwrap-wrap_vault_key_for_member_example :
    (unwrap_vault_key_for_member toy tt (wrap_vault_key_for_member toy [] tt key) ≡ ok key)
    × (is_well_formed_key_wrap (str (wrap_vault_key_for_member toy [] tt key)) ≡ true)
unwrap-wrap_vault_key_for_member_example =
    unwrap-wrap_vault_key_for_member toy [] key tt tt refl (omega arith) (omega arith)

length-hkdf_expand_example : length (hkdf_expand toy key (1 ∷ []) 70) ≡ 70
length-hkdf_expand_example = length-hkdf_expand toy key (1 ∷ []) 70 (λ message. omega arith)
