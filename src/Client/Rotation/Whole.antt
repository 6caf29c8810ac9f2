-- ===== src/Client/Rotation/Whole.antt =====
-- frontend/src/vault/rotation-worker.ts: opening a rotation, the whole sequence, and resuming.
use safe_pass.Base.{
  ℕ, ◌+◌, Bool, ◌&&◌, Option, none, some, List, [], ◌∷◌, ◌⊎◌, inl, inr, ◌==◌, filter, map_get,
  if◌then◌else◌,
}
use safe_pass.Errors.{Result, ok, err, internal, ◌>>=◌, required}
use safe_pass.Envelope.{str}
use safe_pass.Envelope.Base64.{Text, Bytes}
use safe_pass.Json.{natural}
use safe_pass.Store.{Db, VaultMembership, owner, is_live}
use safe_pass.Vaults.Authz.{require_membership}
use safe_pass.Vaults.Rotation.{MemberKey, open_rotation}
use safe_pass.Client.Crypto.{
  WebCrypto, wrap_vault_key_for_member, unwrap_vault_key_for_member, unwrap_vault_key_symmetric,
  import_public_key,
}
use safe_pass.Client.Keyring.{
  KeyringError, Keyring, add_symmetric_vault_key, add_member_vault_key, vault_key_for, read,
}
use safe_pass.Vaults.Reads.{get_rotation}
use safe_pass.Client.Rotation.{Place, vault_view, run_rotation}

-- What the keyring throws, as a failure of the worker.
abbrev of_keyring {ℓ} : {A : Type ℓ} → KeyringError ⊎ A → Result A
of_keyring (inl e) = err internal
of_keyring (inr a) = ok a

module _ {PublicKey PrivateKey : Type 0} (c : WebCrypto PublicKey PrivateKey)
    (public_key_of : ℕ → Result Text) (seed : ℕ → Bytes) (draw : Place → Bytes)
    (new_key : Bytes) where
  -- The loop of `openRotation` over the members; `GET /users/public-key` is an argument.
  unfoldable pub wrap_for_members : List VaultMembership → Result (List MemberKey)
  wrap_for_members [] = ok []
  wrap_for_members (m ∷ members) = do
    spki ← public_key_of m.user_id
    public_key ← import_public_key c spki
    rest ← wrap_for_members members
    ok (
        record {
          user_id = m.user_id;
          wrapped_vault_key = str (wrap_vault_key_for_member c (seed m.user_id) public_key new_key);
        }
        ∷ rest)

  -- `openRotation`
  unfoldable pub start_rotation : Db → ℕ → ℕ → ℕ → ℕ → Result Db
  unfolding wrap_for_members
  start_rotation db rotation_id actor vault_id to_version = do
    _ ← require_membership db vault_id actor owner
    member_keys ←
        wrap_for_members (filter (λ m. m.vault_id == vault_id && is_live m.status) db.memberships)
    open_rotation db rotation_id actor vault_id
        (record { to_version = natural to_version; member_keys = some member_keys })

  -- The new generation, held beside the old one; the keyring as it is if there is no wrap.
  unfoldable pub hold_wrap :
      ℕ → ℕ → Bool → Option Text → Keyring PrivateKey → Result (Keyring PrivateKey)
  hold_wrap vault_id key_version personal none ring = ok ring
  hold_wrap vault_id key_version personal (some wrapped) ring = of_keyring (
      if personal
      then add_symmetric_vault_key (unwrap_vault_key_symmetric c) vault_id key_version wrapped ring
      else add_member_vault_key (unwrap_vault_key_for_member c) vault_id key_version wrapped ring)

  -- The wrap of a generation that the server shows the caller.
  unfoldable pub wrap_of : Db → ℕ → ℕ → ℕ → Option Text
  wrap_of db actor vault_id key_version = elim (vault_view db actor vault_id) [
    | none ↦ none
    | some v ↦ map_get key_version v.key_wraps
  ]

  -- The key of a generation, for `runRotation`.
  unfoldable pub held : Keyring PrivateKey → ℕ → ℕ → Result Bytes
  held ring vault_id key_version = do
    address ← of_keyring (vault_key_for ring vault_id key_version)
    required (read ring address) internal

  -- `rotateVault`
  unfoldable pub rotate_vault :
      Db → ℕ → ℕ → ℕ → ℕ → ℕ → Bool → Keyring PrivateKey → Result (Db × Keyring PrivateKey)
  unfolding start_rotation wrap_of hold_wrap held
  rotate_vault db rotation_id now actor vault_id current_version personal ring = do
    db1 ← start_rotation db rotation_id actor vault_id (current_version + 1)
    ring1 ←
        hold_wrap vault_id (current_version + 1) personal
          (wrap_of db1 actor vault_id (current_version + 1)) ring
    old_key ← held ring1 vault_id current_version
    db2 ←
        run_rotation c draw old_key new_key db1 now actor vault_id current_version
          (current_version + 1)
    ok (db2, ring1)

  -- `resumeRotationIfOpen`, with the wrap's key in place of a new one; none if there is nothing to do.
  unfoldable pub resume_rotation_if_open :
      Db → ℕ → ℕ → ℕ → Bool → Keyring PrivateKey → Result (Option (Db × Keyring PrivateKey))
  unfolding wrap_of hold_wrap held get_rotation
  resume_rotation_if_open db now actor vault_id personal ring =
      elim (get_rotation db actor vault_id) [
        | err e ↦ ok none
        | ok rotation ↦ elim (wrap_of db actor vault_id rotation.to_version) [
          | none ↦ ok none
          | some wrapped ↦ do
            ring1 ← hold_wrap vault_id rotation.to_version personal (some wrapped) ring
            resumed_key ← held ring1 vault_id rotation.to_version
            old_key ← held ring1 vault_id rotation.from_version
            db1 ←
                run_rotation c draw old_key resumed_key db now actor vault_id rotation.from_version
                  rotation.to_version
            ok (some (db1, ring1))
        ]
      ]
