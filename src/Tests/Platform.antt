-- ===== src/Tests/Platform.antt =====
-- A platform for the runs of the client: a cipher without secrecy, which has the properties that the
-- theorems ask for.
use safe_pass.Base.{
  ◌%◌, ◌<◌, ◌≡◌, refl, some, [], ◌∷◌, ◌++◌, map, drop, replicate, All, All-append, arith,
}
use safe_pass.Envelope.Base64.{Text, Bytes}
use safe_pass.Client.Crypto.{WebCrypto}
use safe_pass.Client.Crypto.Laws.{AreBytes, IsCipher}
use safe_pass.Client.Session.Laws.{IsPlatform}

abbrev ascii_bytes : Text → Bytes
ascii_bytes t = map (λ u. u % 128) t

abbrev pub toy : WebCrypto (Unit {0}) (Unit {0})
toy = record {
  aes_encrypt = λ key nonce plaintext. replicate 16 0 ++ plaintext;
  aes_decrypt = λ key nonce ciphertext. some (drop 16 ciphertext);
  rsa_encrypt = λ seed key plaintext. 7 ∷ plaintext;
  rsa_decrypt = λ key ciphertext. some (drop 1 ciphertext);
  import_spki = λ b. some tt;
  import_pkcs8 = λ b. some tt;
  hmac = λ key message. replicate 32 1;
  utf8 = ascii_bytes;
  from_utf8 = λ b. b;
  sha256 = λ b. replicate 32 2;
  argon2id = λ o. o.password;
  pbkdf2 = λ password salt n. password;
}

ascii_bytes-AreBytes : (t : Text) → AreBytes (ascii_bytes t)
ascii_bytes-AreBytes [] = tt
ascii_bytes-AreBytes (u ∷ t) = (omega arith, ascii_bytes-AreBytes t)

ascii_bytes-same : (t : Text) → All (λ u. u < 128) t → ascii_bytes t ≡ t
ascii_bytes-same [] h = refl
ascii_bytes-same (u ∷ t) (small, h) =
    let same : u % 128 ≡ u = omega arith in rw (same, ascii_bytes-same t h) refl

pub toy-IsCipher : IsCipher toy
toy-IsCipher = record {
  opens = λ key nonce plaintext. refl;
  tagged = λ key nonce plaintext. omega arith;
  in_bytes =
      λ key nonce plaintext h. All-append (λ b. b < 256) (replicate 16 0) plaintext (omega arith) h;
}

pub toy-IsPlatform : IsPlatform toy
toy-IsPlatform = record {
  cipher = toy-IsCipher;
  grows = λ key message. omega arith;
  salted = λ message. omega arith;
  in_bytes = ascii_bytes-AreBytes;
  ascii = ascii_bytes-same;
}
