-- ===== src/Envelope/KeyWrap.antt =====
-- shared/src/envelope.ts: key wraps, framed and taken apart again, and the check that the server makes
-- of them.
use safe_pass.Base.{
  ℕ, suc, ◌<◌, ◌≡◌, refl, sym, true, false, some, [], ◌∷◌, leb, length, filter, All, Option-cases,
  inl, inr, arith,
}
use mathlib.Core.Path.{subst}
use mathlib.Core.Bool.{false≢true}
use mathlib.Core.Option.{some-injective}
use safe_pass.Errors.{ok, guard, ◌>>=◌, ◌>>◌}
use safe_pass.Envelope.{
  Value, str, undefined, other, alg_rsa_oaep, envelope_version, frame_key_wrap, unframe_key_wrap,
  is_well_formed_envelope, is_well_formed_key_wrap, envelope_bytes_ok, key_wrap_bytes_ok, decodes,
  decoded,
}
use safe_pass.Envelope.Base64.{Text, Bytes, base64_url_to_bytes}
use safe_pass.Envelope.Base64.RoundTrip.{base64_url_to_bytes-bytes_to_base64_url}

key_wrap_bytes_ok-envelope :
    (bs : Bytes) → envelope_bytes_ok bs ≡ true → key_wrap_bytes_ok bs ≡ true
unfolding envelope_bytes_ok key_wrap_bytes_ok
key_wrap_bytes_ok-envelope [] h = ground arith
key_wrap_bytes_ok-envelope (x ∷ []) h = ground arith
key_wrap_bytes_ok-envelope (x ∷ y ∷ r) h = ground arith

-- Every envelope may stand for a key wrap.
pub envelope-is_well_formed_key_wrap :
    (v : Value) → is_well_formed_envelope v ≡ true → is_well_formed_key_wrap v ≡ true
unfolding is_well_formed_envelope is_well_formed_key_wrap
envelope-is_well_formed_key_wrap undefined h = h
envelope-is_well_formed_key_wrap other h = h
envelope-is_well_formed_key_wrap (str []) h = h
envelope-is_well_formed_key_wrap (str (x ∷ xs)) h =
    elim (Option-cases (base64_url_to_bytes (x ∷ xs))) [
      | inl bad ↦ absurd (false≢true (rw (bad, decodes) at h))
      | inr (bs, good) ↦
          rw (good, decodes) (key_wrap_bytes_ok-envelope bs (rw (good, decodes) at h))
    ]

decoded-is_well_formed_key_wrap :
    (t : Text) (bs : Bytes)
    → base64_url_to_bytes t ≡ some bs
    → key_wrap_bytes_ok bs ≡ true
    → is_well_formed_key_wrap (str t) ≡ true
unfolding is_well_formed_key_wrap base64_url_to_bytes filter key_wrap_bytes_ok
decoded-is_well_formed_key_wrap [] bs e h =
    subst (λ b. key_wrap_bytes_ok b ≡ true) (sym (some-injective [] bs e)) h
decoded-is_well_formed_key_wrap (x ∷ xs) bs e h = rw (e, decodes) h

-- A framed key wrap decodes to its header and its payload.
frame_key_wrap-decoded :
    (algorithm : ℕ) (payload : Bytes)
    → algorithm < 256
    → All (λ b. b < 256) payload
    → base64_url_to_bytes (frame_key_wrap algorithm payload)
      ≡ some (envelope_version ∷ algorithm ∷ payload)
unfolding frame_key_wrap
frame_key_wrap-decoded algorithm payload small in_bytes =
    base64_url_to_bytes-bytes_to_base64_url (envelope_version ∷ algorithm ∷ payload)
      (omega arith, (small, in_bytes))

decoded-ok : (t : Text) (bs : Bytes) → base64_url_to_bytes t ≡ some bs → decoded t ≡ ok bs
decoded-ok t bs e = rw (e, decoded) refl

pub unframe_key_wrap-frame_key_wrap :
    (algorithm : ℕ) (payload : Bytes)
    → algorithm < 256
    → All (λ b. b < 256) payload
    → 0 < length payload
    → unframe_key_wrap (frame_key_wrap algorithm payload)
      ≡ ok (record { algorithm = algorithm; payload = payload })
unfolding unframe_key_wrap guard ◌>>=◌ ◌>>◌
unframe_key_wrap-frame_key_wrap algorithm payload small in_bytes more =
    let long : leb (suc (suc (length payload))) 2 ≡ false = ground arith in
    rw (decoded-ok _ _ (frame_key_wrap-decoded algorithm payload small in_bytes), long) refl

pub is_well_formed_key_wrap-frame_key_wrap :
    (payload : Bytes)
    → All (λ b. b < 256) payload
    → 0 < length payload
    → is_well_formed_key_wrap (str (frame_key_wrap alg_rsa_oaep payload)) ≡ true
unfolding key_wrap_bytes_ok
is_well_formed_key_wrap-frame_key_wrap payload in_bytes more =
    decoded-is_well_formed_key_wrap _ _
      (frame_key_wrap-decoded alg_rsa_oaep payload (omega arith) in_bytes) (ground arith)
