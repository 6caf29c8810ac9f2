-- ===== src/Client/Crypto/Stretch.antt =====
-- The loop of `hkdfExpand` ends with as many bytes as were asked for.
use safe_pass.Base.{
  ℕ, zero, suc, ◌-◌, ◌%◌, ◌≤◌, ◌<◌, ◌≡◌, refl, [], ◌∷◌, ◌++◌, length, length-append, take, ltb, min,
  Bool-cases, inl, inr, arith,
}
use safe_pass.Envelope.Base64.{Bytes}
use safe_pass.Client.Crypto.{WebCrypto, hkdf_rounds, hkdf_expand, derive_stretched_master_key}

length-take : (n : ℕ) (xs : Bytes) → n ≤ length xs → length (take n xs) ≡ n
length-take zero xs h = refl
length-take (suc n) [] h = omega arith
length-take (suc n) (x ∷ xs) h = ground (arith, length-take n xs)

module _ {PublicKey PrivateKey : Type 0} (c : WebCrypto PublicKey PrivateKey) where
  length-hkdf_rounds :
      (rounds : ℕ) (prk info previous : Bytes) (counter left : ℕ)
      → ((message : Bytes) → 0 < length (c.hmac prk message))
      → left ≤ rounds
      → length (hkdf_rounds c rounds prk info previous counter left) ≡ left
  unfolding hkdf_rounds
  length-hkdf_rounds zero prk info previous counter left grows enough = ground arith
  length-hkdf_rounds (suc rounds) prk info previous counter left grows enough =
      let message = previous ++ info ++ counter % 256 ∷ [] in
      let block = c.hmac prk message in
      let n = min (length block) left in
      let rest = hkdf_rounds c rounds prk info block (suc counter) (left - n) in
      elim (Bool-cases (ltb 0 left)) [
        | inl more ↦
            let some' : 0 < length block = grows message in
            let tail : length rest ≡ left - n =
              length-hkdf_rounds rounds prk info block (suc counter) (left - n) grows
                (ground arith) in
            let head : length (take n block) ≡ n = length-take n block (omega arith) in
            rw more ground (arith, length-append (take n block) rest)
        | inr over ↦ rw over (ground arith)
      ]

  -- Where an HMAC has a byte at least, the expansion of a key has the length that was asked for: the
  -- loop needs no more rounds than bytes.
  pub length-hkdf_expand :
      (prk info : Bytes) (len : ℕ)
      → ((message : Bytes) → 0 < length (c.hmac prk message))
      → length (hkdf_expand c prk info len) ≡ len
  unfolding hkdf_expand
  length-hkdf_expand prk info len grows =
      length-hkdf_rounds len prk info [] 1 len grows (omega arith)

  pub length-derive_stretched_master_key :
      (master_key : Bytes)
      → ((message : Bytes) → 0 < length (c.hmac master_key message))
      → length (derive_stretched_master_key c master_key) ≡ 32
  unfolding derive_stretched_master_key
  length-derive_stretched_master_key master_key grows = length-hkdf_expand master_key _ 32 grows
