-- ===== src/Client/Keyring/Refinement.antt =====
-- The keyring against its abstract specification: a function from vaults and generations to keys,
-- with no heap, no addresses and no maps.
use safe_pass.Base.{
  ℕ, suc, ◌<◌, ◌≡◌, refl, sym, ap, ◌∙◌, Bool, false, ◌&&◌, Option, none, some, List, [], ◌∷◌, ◌++◌,
  ◌==◌, inl, inr, map_set, map_get-map_set, length, get-append_old, get-append_new,
  length-append_one, get_elem?, if◌then◌else◌, Option-cases, Bool-cases, arith,
}
use safe_pass.Envelope.Base64.{Bytes}
use safe_pass.Client.Keyring.{
  Keyring, KeyringState, versions_of, address, add_key, read, install, receive_key, same_state,
  require_state, vault_key_for, notify, lock,
}

-- What can happen to a keyring. A key arrives at the end of an addition that began with the given
-- state object, at any time after.
pub data Event (CryptoKey : Type 0) : Type 0 where
  unlocks : (user_key : Bytes) (private_key : CryptoKey) → Event CryptoKey
  arrives : (identity vault_id key_version : ℕ) (key : Bytes) → Event CryptoKey
  locks : Event CryptoKey

-- The keys that can be read, and for which unlock.
pub record Abstract : Type 0 where
  pub session : Option ℕ
  pub unlock_count : ℕ
  pub keys : ℕ → ℕ → Option Bytes

abbrev no_keys_held : ℕ → ℕ → Option Bytes
no_keys_held v n = none

abbrev pub nothing : Abstract
nothing = record { session = none; unlock_count = 0; keys = no_keys_held }

abbrev pub is_session : ℕ → Option ℕ → Bool
is_session identity none = false
is_session identity (some i) = i == identity

-- The key at an address.
unfoldable pub contents : List Bytes → Option ℕ → Option Bytes
contents bs none = none
contents bs (some a) = get_elem? bs a

unfoldable pub with_key : ℕ → ℕ → Bytes → (ℕ → ℕ → Option Bytes) → ℕ → ℕ → Option Bytes
with_key vault_id key_version key keys v n =
    if vault_id == v && key_version == n then some key else keys v n

module _ {CryptoKey : Type 0} where
  unfoldable pub step : Event CryptoKey → Keyring CryptoKey → Keyring CryptoKey
  unfolding install receive_key lock
  step (unlocks user_key private_key) ring = install user_key private_key ring
  step (arrives identity v n key) ring = receive_key identity v n key ring
  step locks ring = lock ring

  unfoldable pub run : List (Event CryptoKey) → Keyring CryptoKey → Keyring CryptoKey
  unfolding step
  run [] ring = ring
  run (e ∷ es) ring = run es (step e ring)

  unfoldable pub abstract_step : Event CryptoKey → Abstract → Abstract
  unfolding with_key
  abstract_step (unlocks user_key private_key) a = record {
    session = some a.unlock_count;
    unlock_count = suc a.unlock_count;
    keys = no_keys_held;
  }
  abstract_step (arrives identity v n key) a =
      if is_session identity a.session then (record a { keys = with_key v n key a.keys }) else a
  abstract_step locks a = record a { session = none; keys = no_keys_held }

  unfoldable pub abstract_run : List (Event CryptoKey) → Abstract → Abstract
  unfolding abstract_step
  abstract_run [] a = a
  abstract_run (e ∷ es) a = abstract_run es (abstract_step e a)

  abbrev pub empty : Keyring CryptoKey
  empty = record { buffers = []; state = none; unlocks = 0; notices = [] }

  -- The address of a generation of a vault's key.
  unfoldable pub held_at : Option (KeyringState CryptoKey) → ℕ → ℕ → Option ℕ
  unfolding address
  held_at none v n = none
  held_at (some s) v n = address v n s.vault_keys

  -- The bytes of the key that `vaultKeyFor` returns, if it returns one.
  unfoldable pub held_key : Keyring CryptoKey → ℕ → ℕ → Option Bytes
  unfolding contents vault_key_for read
  held_key ring v n = elim (vault_key_for ring v n) [ inl e ↦ none | inr a ↦ read ring a ]

  abbrev session_of : Option (KeyringState CryptoKey) → Option ℕ
  session_of none = none
  session_of (some s) = some s.identity

  record Represents (ring : Keyring CryptoKey) (a : Abstract) : Type 0 where
    session : session_of ring.state ≡ a.session
    count : ring.unlocks ≡ a.unlock_count
    bounded : (v n i : ℕ) → held_at ring.state v n ≡ some i → i < length ring.buffers
    keys : (v n : ℕ) → contents ring.buffers (held_at ring.state v n) ≡ a.keys v n

address-add_key :
    (v' n' v n k : ℕ) (keys : List (ℕ × List (ℕ × ℕ)))
    → address v' n' (add_key v n k keys)
      ≡ (if v == v' && n == n' then some k else address v' n' keys)
unfolding address add_key versions_of
address-add_key v' n' v n k keys = elim (Bool-cases (v == v')) [
  | inl hit ↦ ground (
    arith,
    map_get-map_set v' v (map_set n k (versions_of v keys)) keys,
    map_get-map_set n' n k (versions_of v keys),
  )
  | inr miss ↦ ground (arith, map_get-map_set v' v (map_set n k (versions_of v keys)) keys)
]

contents-append :
    (bs : List Bytes) (b : Bytes) (o : Option ℕ)
    → ((i : ℕ) → o ≡ some i → i < length bs)
    → contents (bs ++ b ∷ []) o ≡ contents bs o
unfolding contents
contents-append bs b none h = refl
contents-append bs b (some i) h = get-append_old bs b i (h i refl)

module _ {CryptoKey : Type 0} where
  Represents-append :
      (ring : Keyring CryptoKey) (a : Abstract) (b : Bytes)
      → Represents ring a
      → Represents (record ring { buffers = ring.buffers ++ b ∷ [] }) a
  Represents-append ring a b r = record {
    session = r.session;
    count = r.count;
    bounded = λ v n i e. ground (arith, length-append_one ring.buffers b, r.bounded v n i e);
    keys =
        λ v n. contents-append ring.buffers b (held_at ring.state v n) (r.bounded v n) ∙ r.keys v n;
  }

  Represents-add :
      (ring : Keyring CryptoKey) (s : KeyringState CryptoKey) (a : Abstract) (v n : ℕ) (key : Bytes)
      → ring.state ≡ some s
      → Represents ring a
      → Represents
          (record ring {
            buffers = ring.buffers ++ key ∷ [];
            state = some (record s { vault_keys = add_key v n (length ring.buffers) s.vault_keys });
          })
          (record a { keys = with_key v n key a.keys })
  unfolding held_at with_key contents
  Represents-add ring s a v n key is_open r =
      let bounded' : (v' n' i : ℕ) → address v' n' s.vault_keys ≡ some i → i < length ring.buffers =
        λ v' n' i e. r.bounded v' n' i (rw (is_open, held_at) e) in
      record {
        session = ap session_of (sym is_open) ∙ r.session;
        count = r.count;
        bounded = λ v' n' i e. ground (
          arith,
          length-append_one ring.buffers key,
          address-add_key v' n' v n (length ring.buffers) s.vault_keys,
          bounded' v' n' i,
        );
        keys = λ v' n'. elim (Bool-cases (v == v' && n == n')) [
          | inl hit ↦
              rw (address-add_key v' n' v n (length ring.buffers) s.vault_keys, hit, with_key)
                (get-append_new ring.buffers key)
          | inr miss ↦
              rw (address-add_key v' n' v n (length ring.buffers) s.vault_keys, miss, with_key)
                (contents-append ring.buffers key (address v' n' s.vault_keys) (bounded' v' n')
                  ∙ rw (is_open, held_at) at (r.keys v' n'))
        ];
      }

  Represents-step :
      (e : Event CryptoKey) (ring : Keyring CryptoKey) (a : Abstract)
      → Represents ring a
      → Represents (step e ring) (abstract_step e a)
  unfolding step abstract_step install receive_key same_state lock notify held_at contents
  Represents-step (unlocks user_key private_key) ring a r = record {
    session = ap some r.count;
    count = ap suc r.count;
    bounded = λ v n i e. cc;
    keys = λ v n. refl;
  }
  Represents-step (arrives identity v n key) ring a r = elim (Option-cases ring.state) [
    | inl shut ↦
        let ended : a.session ≡ none = sym r.session ∙ ap session_of shut in
        let test : is_session identity a.session ≡ false = ap (is_session identity) ended in
        rw (shut, receive_key, test) (Represents-append ring a key r)
    | inr (s, is_open) ↦
        let here : a.session ≡ some s.identity = sym r.session ∙ ap session_of is_open in
        let test : is_session identity a.session ≡ (s.identity == identity) =
          ap (is_session identity) here in
        elim (Bool-cases (s.identity == identity)) [
          | inl ours ↦
              rw (is_open, receive_key, test, ours) (Represents-add ring s a v n key is_open r)
          | inr other ↦ rw (is_open, receive_key, test, other) (Represents-append ring a key r)
        ]
  ]
  Represents-step locks ring a r = elim (Option-cases ring.state) [
    | inl shut ↦
        rw (shut, lock)
          (record {
            session = rw shut refl;
            count = r.count;
            bounded = r.bounded;
            keys = λ v n. rw shut refl;
          })
    | inr (s, is_open) ↦
        rw (is_open, lock)
          (record { session = refl; count = r.count; bounded = λ v n i e. cc; keys = λ v n. refl })
  ]

  Represents-run :
      (es : List (Event CryptoKey)) (ring : Keyring CryptoKey) (a : Abstract)
      → Represents ring a
      → Represents (run es ring) (abstract_run es a)
  unfolding run abstract_run
  Represents-run [] ring a r = r
  Represents-run (e ∷ es) ring a r =
      Represents-run es (step e ring) (abstract_step e a) (Represents-step e ring a r)

  held_key-contents :
      (ring : Keyring CryptoKey) (v n : ℕ)
      → held_key ring v n ≡ contents ring.buffers (held_at ring.state v n)
  unfolding held_key vault_key_for require_state held_at contents read
  held_key-contents ring v n = elim (Option-cases ring.state) [
    | inl shut ↦ rw (shut, held_key) refl
    | inr (s, is_open) ↦ elim (Option-cases (address v n s.vault_keys)) [
      | inl absent ↦ rw (is_open, held_key, absent) refl
      | inr (i, found) ↦ rw (is_open, held_key, found) refl
    ]
  ]

  -- Whatever happens to a keyring, in whatever order keys arrive, it holds for each generation of
  -- each vault the key that its abstract specification does: the one that last arrived for the
  -- unlock that the keys are held for, and none after a lock.
  pub run-held_key :
      (es : List (Event CryptoKey)) (v n : ℕ)
      → held_key (run es empty) v n ≡ (abstract_run es nothing).keys v n
  unfolding held_at contents
  run-held_key es v n =
      let start : Represents empty nothing = record {
        session = refl;
        count = refl;
        bounded = λ v n i e. cc;
        keys = λ v n. refl;
      } in
      held_key-contents (run es empty) v n ∙ (Represents-run es empty nothing start).keys v n
