-- ===== src/Client/Keyring.antt =====
-- frontend/src/vault/keyring.ts: the unwrapped keys that a tab holds. A key is an array of bytes that
-- is shared by reference, so the keyring holds addresses into a heap of arrays, and locking
-- overwrites the arrays. The unwrapping of keys, of the client's cryptography, is an argument.
pub mod Laws
pub mod Refinement
use safe_pass.Base.{
  ℕ, zero, suc, Bool, true, false, Option, none, some, List, [], ◌∷◌, ◌++◌, ◌⊎◌, inl, inr, ◌==◌,
  map, length, get_elem?, replicate, map_get, map_set, max_key, if◌then◌else◌, leb,
}
use safe_pass.Errors.{Result, ok, err}
use safe_pass.Envelope.Base64.{Text, Bytes}

-- What the functions throw.
pub data KeyringError : Type 0 where
  locked unwrap_failed : KeyringError
  no_key : (vault_id key_version : ℕ) → KeyringError
  no_keys : (vault_id : ℕ) → KeyringError

-- The state while unlocked, with addresses for keys. An object has an identity: which unlock made it.
pub record KeyringState (CryptoKey : Type 0) : Type 0 where
  pub identity : ℕ
  pub user_key : ℕ
  pub private_key : CryptoKey
  pub vault_keys : List (ℕ × List (ℕ × ℕ))

-- The heap of key arrays, the module's variable `state`, the number of unlocks so far, and what the
-- listeners have been told, the latest first.
pub record Keyring (CryptoKey : Type 0) : Type 0 where
  pub buffers : List Bytes
  pub state : Option (KeyringState CryptoKey)
  pub unlocks : ℕ
  pub notices : List Bool

-- `key.fill(0)` on the array at an address.
unfoldable pub zero_buffer : ℕ → List Bytes → List Bytes
zero_buffer i [] = []
zero_buffer zero (b ∷ bs) = replicate (length b) 0 ∷ bs
zero_buffer (suc i) (b ∷ bs) = b ∷ zero_buffer i bs

-- The inner and the outer loop of `lock`.
unfoldable pub zero_versions : List (ℕ × ℕ) → List Bytes → List Bytes
unfolding zero_buffer
zero_versions [] bs = bs
zero_versions ((n, a) ∷ rest) bs = zero_versions rest (zero_buffer a bs)

unfoldable pub zero_vaults : List (ℕ × List (ℕ × ℕ)) → List Bytes → List Bytes
unfolding zero_versions
zero_vaults [] bs = bs
zero_vaults ((v, by_version) ∷ rest) bs = zero_vaults rest (zero_versions by_version bs)

-- `s.vaultKeys.get(vaultId) ?? new Map()`
unfoldable pub versions_of : ℕ → List (ℕ × List (ℕ × ℕ)) → List (ℕ × ℕ)
unfolding map_get
versions_of vault_id keys = elim (map_get vault_id keys) [ none ↦ [] | some m ↦ m ]

-- The address that a state has for a generation of a vault's key.
unfoldable pub address : ℕ → ℕ → List (ℕ × List (ℕ × ℕ)) → Option ℕ
unfolding map_get versions_of
address vault_id key_version keys = map_get key_version (versions_of vault_id keys)

-- `addKey`, on the map of a state.
unfoldable pub add_key : ℕ → ℕ → ℕ → List (ℕ × List (ℕ × ℕ)) → List (ℕ × List (ℕ × ℕ))
unfolding map_set versions_of
add_key vault_id key_version key keys =
    map_set vault_id (map_set key_version key (versions_of vault_id keys)) keys

abbrev pub sort_insert : ℕ → List ℕ → List ℕ
sort_insert n [] = n ∷ []
sort_insert n (m ∷ ms) = let rest = sort_insert n ms in if leb n m then n ∷ m ∷ ms else m ∷ rest

unfoldable pub sort_versions : List ℕ → List ℕ
sort_versions [] = []
sort_versions (n ∷ ns) = sort_insert n (sort_versions ns)

module _ {CryptoKey : Type 0} where
  -- `isUnlocked`
  unfoldable pub is_unlocked : Keyring CryptoKey → Bool
  is_unlocked ring = elim ring.state [ none ↦ false | some s ↦ true ]

  unfoldable pub notify : Keyring CryptoKey → Keyring CryptoKey
  unfolding is_unlocked
  notify ring = record ring { notices = is_unlocked ring ∷ ring.notices }

  -- The bytes at an address.
  unfoldable pub read : Keyring CryptoKey → ℕ → Option Bytes
  read ring a = get_elem? ring.buffers a

  -- `unlock`, after the two keys have been unwrapped.
  unfoldable pub install : Bytes → CryptoKey → Keyring CryptoKey → Keyring CryptoKey
  unfolding notify
  install user_key private_key ring = notify (record ring {
    buffers = ring.buffers ++ user_key ∷ [];
    state = some (record {
      identity = ring.unlocks;
      user_key = length ring.buffers;
      private_key = private_key;
      vault_keys = [];
    });
    unlocks = suc ring.unlocks;
  })

  -- `unlock`
  unfoldable pub unlock :
      (Bytes → Text → Result Bytes)
      → (Bytes → Text → Result CryptoKey)
      → Bytes
      → Text
      → Text
      → Keyring CryptoKey
      → KeyringError ⊎ Keyring CryptoKey
  unlock unwrap_user_key unwrap_private_key stretched wrapped_user wrapped_private ring =
      elim (unwrap_user_key stretched wrapped_user) [
        | err e ↦ inl unwrap_failed
        | ok user_key ↦ elim (unwrap_private_key user_key wrapped_private) [
          | err e ↦ inl unwrap_failed
          | ok private_key ↦ inr (install user_key private_key ring)
        ]
      ]

  unfoldable pub require_state : Keyring CryptoKey → KeyringError ⊎ KeyringState CryptoKey
  require_state ring = elim ring.state [ none ↦ inl locked | some s ↦ inr s ]

  -- The state object, if it is still the one of the given identity.
  unfoldable pub same_state : ℕ → Option (KeyringState CryptoKey) → Option (KeyringState CryptoKey)
  same_state identity none = none
  same_state identity (some s) = if s.identity == identity then some s else none

  -- The rest of an addition, once the unwrapped key is there. It writes to the state object that the
  -- addition began with, which a lock or another unlock in between has made unreachable.
  unfoldable pub receive_key : ℕ → ℕ → ℕ → Bytes → Keyring CryptoKey → Keyring CryptoKey
  unfolding same_state add_key
  receive_key identity vault_id key_version key ring =
      let ring1 = record ring { buffers = ring.buffers ++ key ∷ [] } in
      elim (same_state identity ring.state) [
        | none ↦ ring1
        | some s ↦ record ring1 {
          state = some (record s {
            vault_keys = add_key vault_id key_version (length ring.buffers) s.vault_keys;
          });
        }
      ]

  -- `addSymmetricVaultKey`, when nothing happens during the unwrapping.
  unfoldable pub add_symmetric_vault_key :
      (Bytes → Text → Result Bytes)
      → ℕ
      → ℕ
      → Text
      → Keyring CryptoKey
      → KeyringError ⊎ Keyring CryptoKey
  unfolding require_state read receive_key
  add_symmetric_vault_key unwrap vault_id key_version wrapped ring = elim (require_state ring) [
    | inl e ↦ inl e
    | inr s ↦ elim (read ring s.user_key) [
      | none ↦ inl unwrap_failed
      | some user_key ↦ elim (unwrap user_key wrapped) [
        | err e ↦ inl unwrap_failed
        | ok key ↦ inr (receive_key s.identity vault_id key_version key ring)
      ]
    ]
  ]

  -- `addMemberVaultKey`, when nothing happens during the unwrapping.
  unfoldable pub add_member_vault_key :
      (CryptoKey → Text → Result Bytes)
      → ℕ
      → ℕ
      → Text
      → Keyring CryptoKey
      → KeyringError ⊎ Keyring CryptoKey
  unfolding require_state receive_key
  add_member_vault_key unwrap vault_id key_version wrapped ring = elim (require_state ring) [
    | inl e ↦ inl e
    | inr s ↦ elim (unwrap s.private_key wrapped) [
      | err e ↦ inl unwrap_failed
      | ok key ↦ inr (receive_key s.identity vault_id key_version key ring)
    ]
  ]

  -- `vaultKeyFor`
  unfoldable pub vault_key_for : Keyring CryptoKey → ℕ → ℕ → KeyringError ⊎ ℕ
  unfolding require_state address
  vault_key_for ring vault_id key_version = elim (require_state ring) [
    | inl e ↦ inl e
    | inr s ↦ elim (address vault_id key_version s.vault_keys) [
      | none ↦ inl (no_key vault_id key_version)
      | some key ↦ inr key
    ]
  ]

  -- `writeKeyFor`: the key, undefined if the map has none, and its generation.
  unfoldable pub write_key_for : Keyring CryptoKey → ℕ → KeyringError ⊎ (Option ℕ × ℕ)
  unfolding require_state versions_of max_key map_get
  write_key_for ring vault_id = elim (require_state ring) [
    | inl e ↦ inl e
    | inr s ↦ elim (versions_of vault_id s.vault_keys) [
      | [] ↦ inl (no_keys vault_id)
      | entry ∷ rest ↦ inr (map_get (max_key (entry ∷ rest)) (entry ∷ rest), max_key (entry ∷ rest))
    ]
  ]

  -- `userKeyForTotp`
  unfoldable pub user_key_for_totp : Keyring CryptoKey → Option ℕ
  user_key_for_totp ring = elim ring.state [ none ↦ none | some s ↦ some s.user_key ]

  -- `heldVersions`
  unfoldable pub held_versions : Keyring CryptoKey → ℕ → List ℕ
  unfolding versions_of sort_versions
  held_versions ring vault_id = elim ring.state [
    | none ↦ []
    | some s ↦ sort_versions (map (λ e. e.0) (versions_of vault_id s.vault_keys))
  ]

  -- `lock`
  unfoldable pub lock : Keyring CryptoKey → Keyring CryptoKey
  unfolding zero_vaults zero_buffer notify
  lock ring = elim ring.state [
    | none ↦ ring
    | some s ↦ notify (record ring {
      buffers = zero_vaults s.vault_keys (zero_buffer s.user_key ring.buffers);
      state = none;
    })
  ]
