-- ===== src/Client/Keyring/Laws.antt =====
-- What locking leaves of the keys, and which key a write takes.
use safe_pass.Base.{
  ℕ, zero, suc, ◌≤◌, ◌≡◌, refl, ap, false, none, some, List, [], ◌∷◌, ◌==◌, ◌⊎◌, inl, inr, map_get,
  max_key, map_get-le, map_get-max_key, length, get_elem?, replicate, if◌then◌else◌, Option-cases,
  Bool-cases, arith,
}
use safe_pass.Envelope.Base64.{Bytes}
use safe_pass.Client.Keyring.{
  Keyring, KeyringState, zero_buffer, zero_versions, zero_vaults, versions_of, address, read,
  receive_key, same_state, require_state, vault_key_for, write_key_for, notify, lock, is_unlocked,
}

-- An array of the same length with zeros alone.
abbrev pub zeroed : Bytes → Bytes
zeroed b = replicate (length b) 0

zeroed_twice : (b : Bytes) → zeroed (zeroed b) ≡ zeroed b
zeroed_twice [] = refl
zeroed_twice (x ∷ xs) = ap (λ (t : Bytes). 0 ∷ t) (zeroed_twice xs)

get-zero_buffer :
    (i a : ℕ) (bs : List Bytes)
    → get_elem? (zero_buffer i bs) a ≡ (
        if i == a
        then elim (get_elem? bs a) [ none ↦ none | some b ↦ some (zeroed b) ]
        else get_elem? bs a)
unfolding zero_buffer
get-zero_buffer i a [] = ground arith
get-zero_buffer zero zero (b ∷ bs) = refl
get-zero_buffer zero (suc a) (b ∷ bs) = ground arith
get-zero_buffer (suc i) zero (b ∷ bs) = ground arith
get-zero_buffer (suc i) (suc a) (b ∷ bs) = ground (arith, get-zero_buffer i a bs)

-- One array, at an address: as it was, or zeroed.
module _ (a : ℕ) (b : Bytes) where
  abbrev IsZeroed : List Bytes → Type 0
  IsZeroed bs = get_elem? bs a ≡ some (zeroed b)

  abbrev IsKept : List Bytes → Type 0
  IsKept bs = (get_elem? bs a ≡ some b) ⊎ IsZeroed bs

  zero_buffer-IsZeroed : (i : ℕ) (bs : List Bytes) → IsZeroed bs → IsZeroed (zero_buffer i bs)
  zero_buffer-IsZeroed i bs z = ground (arith, get-zero_buffer i a bs, zeroed_twice b)

  zero_buffer-IsKept : (i : ℕ) (bs : List Bytes) → IsKept bs → IsKept (zero_buffer i bs)
  zero_buffer-IsKept i bs (inr z) = inr (zero_buffer-IsZeroed i bs z)
  zero_buffer-IsKept i bs (inl same) = elim (Bool-cases (i == a)) [
    | inl hit ↦ inr (ground (arith, get-zero_buffer i a bs))
    | inr miss ↦ inl (ground (arith, get-zero_buffer i a bs))
  ]

  zero_buffer-hits : (bs : List Bytes) → IsKept bs → IsZeroed (zero_buffer a bs)
  zero_buffer-hits bs (inr z) = zero_buffer-IsZeroed a bs z
  zero_buffer-hits bs (inl same) = ground (arith, get-zero_buffer a a bs)

  zero_versions-IsZeroed :
      (m : List (ℕ × ℕ)) (bs : List Bytes) → IsZeroed bs → IsZeroed (zero_versions m bs)
  unfolding zero_versions
  zero_versions-IsZeroed [] bs z = z
  zero_versions-IsZeroed ((n, k) ∷ m) bs z =
      zero_versions-IsZeroed m (zero_buffer k bs) (zero_buffer-IsZeroed k bs z)

  zero_versions-IsKept :
      (m : List (ℕ × ℕ)) (bs : List Bytes) → IsKept bs → IsKept (zero_versions m bs)
  unfolding zero_versions
  zero_versions-IsKept [] bs k = k
  zero_versions-IsKept ((n, i) ∷ m) bs k =
      zero_versions-IsKept m (zero_buffer i bs) (zero_buffer-IsKept i bs k)

  zero_versions-hits :
      (n : ℕ) (m : List (ℕ × ℕ)) (bs : List Bytes)
      → map_get n m ≡ some a
      → IsKept bs
      → IsZeroed (zero_versions m bs)
  unfolding zero_versions map_get
  zero_versions-hits n [] bs e k = cc
  zero_versions-hits n ((j, i) ∷ m) bs e k = elim (Bool-cases (j == n)) [
    | inl hit ↦
        let same : i ≡ a = ground arith in
        zero_versions-IsZeroed m (zero_buffer i bs) (rw same (zero_buffer-hits bs k))
    | inr miss ↦
        zero_versions-hits n m (zero_buffer i bs) (ground arith) (zero_buffer-IsKept i bs k)
  ]

  zero_vaults-IsZeroed :
      (keys : List (ℕ × List (ℕ × ℕ))) (bs : List Bytes)
      → IsZeroed bs
      → IsZeroed (zero_vaults keys bs)
  unfolding zero_vaults
  zero_vaults-IsZeroed [] bs z = z
  zero_vaults-IsZeroed ((v, m) ∷ keys) bs z =
      zero_vaults-IsZeroed keys (zero_versions m bs) (zero_versions-IsZeroed m bs z)

  zero_vaults-hits :
      (v n : ℕ) (keys : List (ℕ × List (ℕ × ℕ))) (bs : List Bytes)
      → address v n keys ≡ some a
      → IsKept bs
      → IsZeroed (zero_vaults keys bs)
  unfolding zero_vaults address versions_of map_get
  zero_vaults-hits v n [] bs e k = cc
  zero_vaults-hits v n ((w, m) ∷ keys) bs e k = elim (Bool-cases (w == v)) [
    | inl hit ↦
        zero_vaults-IsZeroed keys (zero_versions m bs) (zero_versions-hits n m bs (ground arith) k)
    | inr miss ↦
        zero_vaults-hits v n keys (zero_versions m bs) (ground arith) (zero_versions-IsKept m bs k)
  ]

module _ {CryptoKey : Type 0} where
  pub is_unlocked-lock : (ring : Keyring CryptoKey) → is_unlocked (lock ring) ≡ false
  unfolding is_unlocked lock notify
  is_unlocked-lock ring = elim (Option-cases ring.state) [
    | inl shut ↦ rw (shut, lock) rw (shut, is_unlocked) refl
    | inr (s, is_open) ↦ rw (is_open, lock) refl
  ]

  pub is_unlocked-receive_key :
      (i v n : ℕ) (key : Bytes) (ring : Keyring CryptoKey)
      → is_unlocked (receive_key i v n key ring) ≡ is_unlocked ring
  unfolding is_unlocked receive_key same_state
  is_unlocked-receive_key i v n key ring = elim (Option-cases ring.state) [
    | inl shut ↦ rw (shut, receive_key, is_unlocked) rw shut refl
    | inr (s, is_open) ↦ elim (Bool-cases (s.identity == i)) [
      | inl ours ↦ rw (is_open, receive_key, ours, is_unlocked) refl
      | inr other ↦ rw (is_open, receive_key, other, is_unlocked) rw is_open refl
    ]
  ]

  unlocked_state :
      (ring : Keyring CryptoKey) (v n : ℕ) {a : ℕ}
      → vault_key_for ring v n ≡ inr a
      → (s : KeyringState CryptoKey) × (ring.state ≡ some s) × (address v n s.vault_keys ≡ some a)
  unfolding vault_key_for require_state
  unlocked_state ring v n e = elim (Option-cases ring.state) [
    | inl none' ↦ ground arith
    | inr (s, is_open) ↦ elim (Option-cases (address v n s.vault_keys)) [
      | inl none' ↦ ground arith
      | inr (k, found) ↦ (s, is_open, ground arith)
    ]
  ]

  -- Locking overwrites a key with zeros, in place: whoever was given the key before reads zeros.
  pub lock-zeroed :
      (ring : Keyring CryptoKey) (v n : ℕ) {a : ℕ} {key : Bytes}
      → vault_key_for ring v n ≡ inr a
      → read ring a ≡ some key
      → read (lock ring) a ≡ some (zeroed key)
  unfolding lock read notify
  lock-zeroed ring v n {a} {key} e there =
      let (s, is_open, at_a) = unlocked_state ring v n e in
      rw (is_open, lock)
        (zero_vaults-hits a key v n s.vault_keys _ at_a
          (zero_buffer-IsKept a key s.user_key ring.buffers (inl there)))

  highest :
      (ring : Keyring CryptoKey) (s : KeyringState CryptoKey) (v m : ℕ) {k : ℕ} (ms : List (ℕ × ℕ))
      → ring.state ≡ some s
      → versions_of v s.vault_keys ≡ ms
      → map_get m ms ≡ some k
      → (n a : ℕ) × (write_key_for ring v ≡ inr (some a, n))
        × (vault_key_for ring v n ≡ inr a)
        × (m ≤ n)
  unfolding write_key_for vault_key_for require_state address map_get
  highest ring s v m [] is_open held e = cc
  highest ring s v m ((i, b) ∷ ms) is_open held e =
      let (a, found) = map_get-max_key i b ms in
      (
        max_key ((i, b) ∷ ms),
        a,
        rw (is_open, held, write_key_for, found) refl,
        rw (is_open, held, vault_key_for, found) refl,
        map_get-le m ((i, b) ∷ ms) e,
      )

  -- With a generation of a vault's key held, a write takes the key of one of the generations held,
  -- and that generation is at least the given one.
  pub write_key_for-highest :
      (ring : Keyring CryptoKey) (v m : ℕ) {k : ℕ}
      → vault_key_for ring v m ≡ inr k
      → (n a : ℕ) × (write_key_for ring v ≡ inr (some a, n))
        × (vault_key_for ring v n ≡ inr a)
        × (m ≤ n)
  unfolding address
  write_key_for-highest ring v m e =
      let (s, is_open, at_k) = unlocked_state ring v m e in
      highest ring s v m (versions_of v s.vault_keys) is_open refl at_k
