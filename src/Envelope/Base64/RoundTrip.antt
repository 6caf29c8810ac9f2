-- ===== src/Envelope/Base64/RoundTrip.antt =====
-- What the base64url codec encodes it decodes again.
use safe_pass.Base.{
  ℕ, zero, suc, ◌+◌, ◌*◌, ◌/◌, ◌%◌, ◌≤◌, ◌<◌, ◌≡◌, ◌≢◌, refl, ap, ◌∙◌, true, false, not, some, List,
  [], ◌∷◌, ◌++◌, map, ◌==◌, length, replicate, filter, All, arith,
}
use safe_pass.Envelope.Base64.{
  Text, Bytes, char_of, sextet_of, sextets, octets, fill, strip_padding, to_url, from_url,
  bytes_to_base64_url, is_space, values, drop_padding, atob, base64_url_to_bytes,
}

octets-sextets : (bs : Bytes) → All (λ b. b < 256) bs → octets (sextets bs) ≡ bs
unfolding octets sextets
octets-sextets [] h = refl
octets-sextets (a ∷ []) (p, h) = ap (λ x. x ∷ []) (omega arith)
octets-sextets (a ∷ b ∷ []) (p, (q, h)) =
    let one : a / 4 * 4 + (a % 4 * 16 + b / 16) / 16 ≡ a = omega arith in
    let two : (a % 4 * 16 + b / 16) % 16 * 16 + b % 16 * 4 / 4 ≡ b = omega arith in rw (one, two)
octets-sextets (a ∷ b ∷ c ∷ r) (p, (q, (s, h))) =
    let one : a / 4 * 4 + (a % 4 * 16 + b / 16) / 16 ≡ a = omega arith in
    let two : (a % 4 * 16 + b / 16) % 16 * 16 + (b % 16 * 4 + c / 64) / 4 ≡ b = omega arith in
    let three : (b % 16 * 4 + c / 64) % 4 * 64 + c % 64 ≡ c = omega arith in
    rw (one, two, three, octets-sextets r h)

sextets_bound : (bs : Bytes) → All (λ b. b < 256) bs → All (λ s. s < 64) (sextets bs)
unfolding sextets
sextets_bound [] h = tt
sextets_bound (a ∷ []) (p, h) = (omega arith, (omega arith, tt))
sextets_bound (a ∷ b ∷ []) (p, (q, h)) = (omega arith, (omega arith, (omega arith, tt)))
sextets_bound (a ∷ b ∷ c ∷ r) (p, (q, (s, h))) =
    (omega arith, (omega arith, (omega arith, (omega arith, sextets_bound r h))))

length-sextets : (bs : Bytes) → length (sextets bs) % 4 ≢ 1
unfolding sextets
length-sextets [] = omega arith
length-sextets (a ∷ []) = omega arith
length-sextets (a ∷ b ∷ []) = omega arith
length-sextets (a ∷ b ∷ c ∷ r) = let rest = length-sextets r in omega arith

module _ (s : ℕ) (small : s < 64) where
  char_of-range : (43 ≤ char_of s) × (char_of s ≢ 61) × (char_of s ≢ 45) × (char_of s ≢ 95)
  unfolding char_of
  char_of-range = (ground arith, ground arith, ground arith, ground arith)

  sextet_of-char_of : sextet_of (char_of s) ≡ some s
  unfolding sextet_of char_of
  sextet_of-char_of = ground arith

from_url-to_url : (c : ℕ) → c ≢ 45 → c ≢ 95 → from_url (to_url c) ≡ c
unfolding from_url to_url
from_url-to_url c p q = ground arith

to_url_keeps : (c : ℕ) → c ≢ 61 → (to_url c == 61) ≡ false
unfolding to_url
to_url_keeps c other = ground arith

pad : ℕ → Text
pad n = replicate n 61

strip_padding-pad : (n : ℕ) → strip_padding (map to_url (pad n)) ≡ []
unfolding strip_padding pad to_url
strip_padding-pad zero = refl
strip_padding-pad (suc n) = rw (strip_padding-pad n) refl

strip_one :
    (c : ℕ) (t : Text) → strip_padding t ≡ [] → (c == 61) ≡ false → strip_padding (c ∷ t) ≡ c ∷ []
unfolding strip_padding
strip_one c t e k = rw (e, k) refl

strip_more : (c d : ℕ) (t ds : Text) → strip_padding t ≡ d ∷ ds → strip_padding (c ∷ t) ≡ c ∷ d ∷ ds
unfolding strip_padding
strip_more c d t ds e = rw e refl

strip_padding-append :
    (ss : List ℕ) (n : ℕ)
    → All (λ s. s < 64) ss
    → strip_padding (map to_url (map char_of ss ++ pad n)) ≡ map to_url (map char_of ss)
strip_padding-append [] n h = strip_padding-pad n
strip_padding-append (s ∷ []) n (p, h) =
    let range = char_of-range s p in
    strip_one (to_url (char_of s)) (map to_url (pad n)) (strip_padding-pad n)
      (to_url_keeps (char_of s) range.1)
strip_padding-append (s ∷ t ∷ ss) n (p, h) =
    strip_more (to_url (char_of s)) _ _ _ (strip_padding-append (t ∷ ss) n h)

map-from_url :
    (ss : List ℕ)
    → All (λ s. s < 64) ss
    → map from_url (map to_url (map char_of ss)) ≡ map char_of ss
map-from_url [] h = refl
map-from_url (s ∷ ss) (p, h) =
    let range = char_of-range s p in
    rw (from_url-to_url (char_of s) range.2 range.3, map-from_url ss h) refl

filter-pad : (n : ℕ) → filter (λ c. not (is_space c)) (pad n) ≡ pad n
unfolding filter pad
filter-pad zero = refl
filter-pad (suc n) = rw (filter-pad n) refl

filter-append :
    (ss : List ℕ) (n : ℕ)
    → All (λ s. s < 64) ss
    → filter (λ c. not (is_space c)) (map char_of ss ++ pad n) ≡ map char_of ss ++ pad n
unfolding filter
filter-append [] n h = filter-pad n
filter-append (s ∷ ss) n (p, h) =
    let range = char_of-range s p in
    let shown : not (is_space (char_of s)) ≡ true = ground arith in
    rw (shown, filter-append ss n h) refl

length-pad : (n : ℕ) → length (pad n) ≡ n
unfolding pad
length-pad zero = refl
length-pad (suc n) = rw (length-pad n) refl

length-padded : (ss : List ℕ) (n : ℕ) → length (map char_of ss ++ pad n) ≡ length ss + n
length-padded [] n = omega (arith, length-pad n)
length-padded (s ∷ ss) n = rw (length-padded ss n) (omega arith)

length-chars : (ss : List ℕ) → length (map char_of ss) ≡ length ss
length-chars [] = refl
length-chars (s ∷ ss) = rw (length-chars ss) refl

values_cons :
    (c s : ℕ) (cs : Text) (ss : List ℕ)
    → sextet_of c ≡ some s
    → values cs ≡ some ss
    → values (c ∷ cs) ≡ some (s ∷ ss)
unfolding values
values_cons c s cs ss e es = ground arith

values-chars : (ss : List ℕ) → All (λ s. s < 64) ss → values (map char_of ss) ≡ some ss
unfolding values
values-chars [] h = refl
values-chars (s ∷ ss) (p, h) =
    values_cons (char_of s) s (map char_of ss) ss (sextet_of-char_of s p) (values-chars ss h)

drop_padding-append :
    (ss : List ℕ) (n : ℕ)
    → All (λ s. s < 64) ss
    → n ≤ 2
    → drop_padding (map char_of ss ++ pad n) ≡ map char_of ss
unfolding drop_padding pad
drop_padding-append [] zero h few = refl
drop_padding-append [] (suc zero) h few = refl
drop_padding-append [] (suc (suc zero)) h few = refl
drop_padding-append [] (suc (suc (suc n))) h few = absurd (omega arith)
drop_padding-append (s ∷ []) zero (p, h) few = let range = char_of-range s p in ground arith
drop_padding-append (s ∷ []) (suc zero) (p, h) few = let range = char_of-range s p in ground arith
drop_padding-append (s ∷ []) (suc (suc zero)) (p, h) few =
    rw (drop_padding-append [] (suc (suc zero)) tt few) refl
drop_padding-append (s ∷ []) (suc (suc (suc n))) (p, h) few = absurd (omega arith)
drop_padding-append (s ∷ t ∷ []) zero (p, (q, h)) few =
    let range = char_of-range t q in ground arith
drop_padding-append (s ∷ t ∷ []) (suc n) (p, h) few =
    rw (drop_padding-append (t ∷ []) (suc n) h few) refl
drop_padding-append (s ∷ t ∷ u ∷ ss) n (p, h) few =
    rw (drop_padding-append (t ∷ u ∷ ss) n h few) refl

fill-le : (n : ℕ) → n % 4 ≢ 1 → (fill n ≤ 2) × ((n + fill n) % 4 ≡ 0)
fill-le n h = (omega arith, omega arith)

atob-padded :
    (ss : List ℕ)
    → All (λ s. s < 64) ss
    → length ss % 4 ≢ 1
    → atob (map char_of ss ++ pad (fill (length ss))) ≡ some (octets ss)
unfolding atob
atob-padded ss small fits =
    let (few, whole) = fill-le (length ss) fits in
    let len : (length (map char_of ss ++ pad (fill (length ss))) % 4 == 0) ≡ true =
      ground (arith, length-padded ss (fill (length ss))) in
    let odd : (length (map char_of ss) % 4 == 1) ≡ false = ground (arith, length-chars ss) in
    rw
      (
        filter-append ss (fill (length ss)) small,
        len,
        drop_padding-append ss (fill (length ss)) small few,
        odd,
        values-chars ss small,
      )
      refl

base64_url_to_bytes-chars :
    (ss : List ℕ)
    → All (λ s. s < 64) ss
    → length ss % 4 ≢ 1
    → base64_url_to_bytes (map to_url (map char_of ss)) ≡ some (octets ss)
unfolding base64_url_to_bytes pad
base64_url_to_bytes-chars ss small fits =
    ap (λ p. atob (p ++ pad (fill (length p)))) (map-from_url ss small)
    ∙ ap (λ n. atob (map char_of ss ++ pad (fill n))) (length-chars ss)
    ∙ atob-padded ss small fits

bytes_to_base64_url-chars :
    (bs : Bytes)
    → All (λ b. b < 256) bs
    → bytes_to_base64_url bs ≡ map to_url (map char_of (sextets bs))
unfolding bytes_to_base64_url pad
bytes_to_base64_url-chars bs h = strip_padding-append (sextets bs) _ (sextets_bound bs h)

-- Decoding what was encoded gives back the bytes, for any bytes below 256.
pub base64_url_to_bytes-bytes_to_base64_url :
    (bs : Bytes) → All (λ b. b < 256) bs → base64_url_to_bytes (bytes_to_base64_url bs) ≡ some bs
base64_url_to_bytes-bytes_to_base64_url bs h =
    ap base64_url_to_bytes (bytes_to_base64_url-chars bs h)
    ∙ base64_url_to_bytes-chars (sextets bs) (sextets_bound bs h) (length-sextets bs)
    ∙ ap some (octets-sextets bs h)
