-- ===== src/Envelope/Framing.antt =====
-- What the framing functions put together they take apart again, and the check that the server makes
-- accepts exactly what the client can take apart.
use safe_pass.Base.{
  ℕ, suc, ◌<◌, ◌≡◌, refl, sym, ap, ◌∙◌, false, not, none, some, [], ◌∷◌, ◌++◌, ◌==◌, ltb, length,
  length-append, take, drop, filter, All, arith, Option-cases, inl, inr,
}
use mathlib.Core.Path.{subst}
use safe_pass.Errors.{
  Result, ok, err, malformed_envelope, internal, ok-injective, on_guard, guard, is_ok, ◌>>=◌, ◌>>◌,
}
use safe_pass.Envelope.{
  str, envelope_version, alg_aes_256_gcm, EnvelopeParts, frame_envelope, unframe_envelope,
  is_well_formed_envelope, envelope_bytes_ok, byte_at, decoded, decodes, min_envelope_bytes,
  header_bytes, bytes,
}
use safe_pass.Envelope.Base64.{Text, Bytes, base64_url_to_bytes, bytes_to_base64_url}
use safe_pass.Envelope.Base64.RoundTrip.{base64_url_to_bytes-bytes_to_base64_url}

take-append : (xs ys : Bytes) → take (length xs) (xs ++ ys) ≡ xs
take-append [] ys = refl
take-append (x ∷ xs) ys = rw (take-append xs ys) refl

drop-append : (xs ys : Bytes) → drop (length xs) (xs ++ ys) ≡ ys
drop-append [] ys = refl
drop-append (x ∷ xs) ys = drop-append xs ys

All-append_bytes :
    (xs ys : Bytes) → All (λ b. b < 256) xs → All (λ b. b < 256) ys → All (λ b. b < 256) (xs ++ ys)
All-append_bytes [] ys h k = k
All-append_bytes (x ∷ xs) ys (p, h) k = (p, All-append_bytes xs ys h k)

-- What the client does with decoded bytes.
unframe_bytes : Bytes → Result EnvelopeParts
unframe_bytes bs = do
  guard (not (ltb (length bs) min_envelope_bytes)) malformed_envelope
  guard (byte_at bs 0 == envelope_version) malformed_envelope
  guard (byte_at bs 1 == alg_aes_256_gcm) malformed_envelope
  ok (record {
    version = byte_at bs 0;
    algorithm = byte_at bs 1;
    nonce = drop 2 (take header_bytes bs);
    ciphertext_with_tag = drop header_bytes bs;
  })

decoded-some : (t : Text) (bs : Bytes) → base64_url_to_bytes t ≡ some bs → decoded t ≡ ok bs
decoded-some t bs e = rw (e, decoded) refl

decoded-none : (t : Text) → base64_url_to_bytes t ≡ none → decoded t ≡ err internal
decoded-none t e = rw (e, decoded) refl

unframe_envelope-decoded :
    (t : Text) (bs : Bytes)
    → base64_url_to_bytes t ≡ some bs
    → unframe_envelope t ≡ unframe_bytes bs
unfolding unframe_envelope unframe_bytes ◌>>=◌
unframe_envelope-decoded t bs e = rw (decoded-some t bs e) refl

unframe_envelope-undecoded :
    (t : Text) → base64_url_to_bytes t ≡ none → is_ok (unframe_envelope t) ≡ false
unfolding unframe_envelope ◌>>=◌
unframe_envelope-undecoded t e = rw (decoded-none t e, unframe_envelope) refl

unframe_bytes-is_ok : (bs : Bytes) → is_ok (unframe_bytes bs) ≡ envelope_bytes_ok bs
unfolding unframe_bytes envelope_bytes_ok guard ◌>>=◌ ◌>>◌
unframe_bytes-is_ok [] = refl
unframe_bytes-is_ok (x ∷ []) = refl
unframe_bytes-is_ok (x ∷ y ∷ r) = ground arith

unframe_bytes-body :
    (body : Bytes)
    → ltb (suc (suc (length body))) min_envelope_bytes ≡ false
    → unframe_bytes (envelope_version ∷ alg_aes_256_gcm ∷ body)
      ≡ ok (record {
        version = envelope_version;
        algorithm = alg_aes_256_gcm;
        nonce = take 12 body;
        ciphertext_with_tag = drop 12 body;
      })
unfolding unframe_bytes guard ◌>>=◌ ◌>>◌
unframe_bytes-body body long = rw long refl

empty-unframe_envelope : is_ok (unframe_envelope []) ≡ false
unfolding unframe_envelope base64_url_to_bytes filter guard ◌>>=◌ ◌>>◌
empty-unframe_envelope = refl

is_well_formed_envelope-decoded :
    (c : ℕ) (cs : Text) (bs : Bytes)
    → base64_url_to_bytes (c ∷ cs) ≡ some bs
    → is_well_formed_envelope (str (c ∷ cs)) ≡ envelope_bytes_ok bs
unfolding is_well_formed_envelope
is_well_formed_envelope-decoded c cs bs e = rw (e, decodes) refl

is_well_formed_envelope-undecoded :
    (c : ℕ) (cs : Text)
    → base64_url_to_bytes (c ∷ cs) ≡ none
    → is_well_formed_envelope (str (c ∷ cs)) ≡ false
unfolding is_well_formed_envelope
is_well_formed_envelope-undecoded c cs e = rw (e, decodes) refl

-- The check of the server accepts a string exactly when the client can take it apart.
pub is_well_formed_envelope-unframe_envelope :
    (t : Text) → is_well_formed_envelope (str t) ≡ is_ok (unframe_envelope t)
unfolding is_well_formed_envelope
is_well_formed_envelope-unframe_envelope [] = sym (empty-unframe_envelope)
is_well_formed_envelope-unframe_envelope (c ∷ cs) =
    elim (Option-cases (base64_url_to_bytes (c ∷ cs))) [
      | inl bad ↦
          is_well_formed_envelope-undecoded c cs bad ∙ sym (unframe_envelope-undecoded (c ∷ cs) bad)
      | inr (bs, good) ↦
          is_well_formed_envelope-decoded c cs bs good
          ∙ sym (ap is_ok (unframe_envelope-decoded (c ∷ cs) bs good) ∙ unframe_bytes-is_ok bs)
    ]

-- An envelope that has been framed from a nonce and a ciphertext unframes to just these.
pub unframe_envelope-frame_envelope :
    (nonce ciphertext : Bytes) (t : Text)
    → All (λ b. b < 256) nonce
    → All (λ b. b < 256) ciphertext
    → frame_envelope nonce ciphertext ≡ ok t
    → unframe_envelope t
      ≡ ok (record {
        version = envelope_version;
        algorithm = alg_aes_256_gcm;
        nonce = nonce;
        ciphertext_with_tag = ciphertext;
      })
unfolding frame_envelope
unframe_envelope-frame_envelope nonce ciphertext t hn hc e = on_guard _ _ _ e λ twelve e1.
    on_guard _ _ _ e1 λ long e2.
      let n12 : length nonce ≡ 12 = ground arith in
      let opened =
        base64_url_to_bytes-bytes_to_base64_url
          (envelope_version ∷ alg_aes_256_gcm ∷ (nonce ++ ciphertext))
          (omega arith, (omega arith, All-append_bytes nonce ciphertext hn hc)) in
      let long_body : ltb (suc (suc (length (nonce ++ ciphertext)))) min_envelope_bytes ≡ false =
        ground (arith, length-append nonce ciphertext) in
      let first : take 12 (nonce ++ ciphertext) ≡ nonce =
        subst (λ n. take n (nonce ++ ciphertext) ≡ nonce) n12 (take-append nonce ciphertext) in
      let second : drop 12 (nonce ++ ciphertext) ≡ ciphertext =
        subst (λ n. drop n (nonce ++ ciphertext) ≡ ciphertext) n12 (drop-append nonce ciphertext) in
      subst
        (λ x.
          unframe_envelope x
          ≡ ok (record {
            version = envelope_version;
            algorithm = alg_aes_256_gcm;
            nonce = nonce;
            ciphertext_with_tag = ciphertext;
          }))
        (ok-injective e2)
        (unframe_envelope-decoded _ _ opened
          ∙ unframe_bytes-body (nonce ++ ciphertext) long_body
          ∙ rw (first, second) refl)

-- The text of an envelope comes back from its column bytes.
pub bytes-frame_envelope :
    (nonce ciphertext : Bytes) (t : Text)
    → All (λ b. b < 256) nonce
    → All (λ b. b < 256) ciphertext
    → frame_envelope nonce ciphertext ≡ ok t
    → bytes_to_base64_url (bytes t) ≡ t
unfolding frame_envelope bytes
bytes-frame_envelope nonce ciphertext t hn hc e = on_guard _ _ _ e λ _ e1. on_guard _ _ _ e1 λ _ e2.
    let raw = envelope_version ∷ alg_aes_256_gcm ∷ (nonce ++ ciphertext) in
    let decoded_raw : base64_url_to_bytes (bytes_to_base64_url raw) ≡ some raw =
      base64_url_to_bytes-bytes_to_base64_url raw
        (omega arith, (omega arith, All-append_bytes nonce ciphertext hn hc)) in
    subst (λ x. bytes_to_base64_url (bytes x) ≡ x) (ok-injective e2) (rw (decoded_raw, bytes) refl)
