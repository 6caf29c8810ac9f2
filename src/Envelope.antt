-- ===== src/Envelope.antt =====
-- shared/src/envelope.ts: ciphertext envelopes, key wraps, and the structural validation that the
-- server makes of both. The base64url codec is in Envelope/Base64.antt.
pub mod Base64
pub mod Framing
pub mod KeyWrap
use safe_pass.Base.{
  ℕ, suc, ◌+◌, ◌≡◌, Bool, true, false, ◌&&◌, not, Option, none, some, List, [], ◌∷◌, ◌++◌, ◌==◌,
  leb, ltb, length, take, drop, get_elem?, if◌then◌else◌,
}
use safe_pass.Errors.{Result, ok, err, Failure, malformed_envelope, internal, guard, ◌>>◌, ◌>>=◌}
use safe_pass.Envelope.Base64.{Text, Bytes, bytes_to_base64_url, base64_url_to_bytes}

-- A field of a request body whose type is not known: absent, a string, or anything else.
pub data Value : Type 0 where
  undefined other : Value
  str : Text → Value

abbrev pub envelope_version : ℕ
envelope_version = 1

abbrev pub alg_aes_256_gcm : ℕ
alg_aes_256_gcm = 1

abbrev pub alg_rsa_oaep : ℕ
alg_rsa_oaep = 2

abbrev pub nonce_bytes : ℕ
nonce_bytes = 12

abbrev pub tag_bytes : ℕ
tag_bytes = 16

abbrev pub header_bytes : ℕ
header_bytes = 2 + nonce_bytes

abbrev pub min_envelope_bytes : ℕ
min_envelope_bytes = header_bytes + tag_bytes

abbrev pub key_wrap_header_bytes : ℕ
key_wrap_header_bytes = 2

-- `bytes[i] === n`, false out of range.
abbrev pub byte_is : Bytes → ℕ → ℕ → Bool
byte_is bs i n = elim (get_elem? bs i) [ none ↦ false | some b ↦ b == n ]

-- The test of the decoded bytes in `isWellFormedEnvelope`.
unfoldable pub envelope_bytes_ok : Bytes → Bool
envelope_bytes_ok bs =
    if ltb (length bs) min_envelope_bytes
    then false
    else byte_is bs 0 envelope_version && byte_is bs 1 alg_aes_256_gcm

-- The test of the decoded bytes in `isWellFormedKeyWrap`.
unfoldable pub key_wrap_bytes_ok : Bytes → Bool
key_wrap_bytes_ok bs =
    if not (byte_is bs 0 envelope_version)
    then false
    else if byte_is bs 1 alg_aes_256_gcm
    then leb min_envelope_bytes (length bs)
    else if byte_is bs 1 alg_rsa_oaep
    then ltb key_wrap_header_bytes (length bs)
    else false

-- The shared shape of both tests: a non-empty string that decodes to acceptable bytes.
abbrev decodes : (Bytes → Bool) → Value → Bool
decodes test undefined = false
decodes test other = false
decodes test (str []) = false
decodes test (str (c ∷ cs)) = elim (base64_url_to_bytes (c ∷ cs)) [
  | none ↦ false
  | some bs ↦ test bs
]

unfoldable pub is_well_formed_envelope : Value → Bool
unfolding envelope_bytes_ok
is_well_formed_envelope v = decodes envelope_bytes_ok v

unfoldable pub is_well_formed_key_wrap : Value → Bool
unfolding key_wrap_bytes_ok
is_well_formed_key_wrap v = decodes key_wrap_bytes_ok v

abbrev text_of : Value → Text
text_of undefined = []
text_of other = []
text_of (str t) = t

unfoldable pub assert_envelope : Value → Result Text
unfolding is_well_formed_envelope
assert_envelope v =
    if not (is_well_formed_envelope v) then err malformed_envelope else ok (text_of v)

unfoldable pub assert_key_wrap : Value → Result Text
unfolding is_well_formed_key_wrap
assert_key_wrap v =
    if not (is_well_formed_key_wrap v) then err malformed_envelope else ok (text_of v)

-- Envelope text to column bytes, the `bytes` of the route files. It is called on text that an
-- assertion has let through, which decodes.
unfoldable pub bytes : Text → Bytes
bytes t = elim (base64_url_to_bytes t) [ none ↦ [] | some bs ↦ bs ]

unfoldable pub frame_key_wrap : ℕ → Bytes → Text
frame_key_wrap algorithm payload = bytes_to_base64_url (envelope_version ∷ algorithm ∷ payload)

pub record KeyWrapParts : Type 0 where
  pub algorithm : ℕ
  pub payload : Bytes

-- `atob` throws on text that does not decode.
abbrev decoded : Text → Result Bytes
decoded t = elim (base64_url_to_bytes t) [ none ↦ err internal | some bs ↦ ok bs ]

abbrev pub byte_at : Bytes → ℕ → ℕ
byte_at bs i = elim (get_elem? bs i) [ none ↦ 0 | some b ↦ b ]

unfoldable pub unframe_key_wrap : Text → Result KeyWrapParts
unframe_key_wrap t = do
  bs ← decoded t
  guard (not (leb (length bs) key_wrap_header_bytes)) internal
  guard (byte_is bs 0 envelope_version) internal
  ok (record { algorithm = byte_at bs 1; payload = drop key_wrap_header_bytes bs })

unfoldable pub frame_envelope : Bytes → Bytes → Result Text
frame_envelope nonce ciphertext_with_tag = do
  guard (length nonce == nonce_bytes) internal
  guard (not (ltb (length ciphertext_with_tag) tag_bytes)) internal
  ok (bytes_to_base64_url (envelope_version ∷ alg_aes_256_gcm ∷ (nonce ++ ciphertext_with_tag)))

pub record EnvelopeParts : Type 0 where
  pub version : ℕ
  pub algorithm : ℕ
  pub nonce : Bytes
  pub ciphertext_with_tag : Bytes

unfoldable pub unframe_envelope : Text → Result EnvelopeParts
unframe_envelope t = do
  bs ← decoded t
  guard (not (ltb (length bs) min_envelope_bytes)) malformed_envelope
  guard (byte_at bs 0 == envelope_version) malformed_envelope
  guard (byte_at bs 1 == alg_aes_256_gcm) malformed_envelope
  ok (record {
    version = byte_at bs 0;
    algorithm = byte_at bs 1;
    nonce = drop 2 (take header_bytes bs);
    ciphertext_with_tag = drop header_bytes bs;
  })
