-- ===== src/Envelope/Base64.antt =====
-- The base64url codec of shared/src/envelope.ts over code units. `btoa` and `atob` are those of the
-- language: the standard alphabet with `=` for padding, and a decoder that drops white space, wants
-- a length that is not 1 modulo 4, and refuses every other character.
pub mod RoundTrip
use safe_pass.Base.{
  ℕ, ◌+◌, ◌-◌, ◌*◌, ◌/◌, ◌%◌, Bool, ◌&&◌, ◌||◌, not, Option, none, some, List, [], ◌∷◌, ◌++◌, map,
  ◌==◌, leb, ltb, length, replicate, filter, if◌then◌else◌,
}

-- Code units, each below 2 ^ 16.
abbrev pub Text : Type 0
Text = List ℕ

-- Each below 256.
abbrev pub Bytes : Type 0
Bytes = List ℕ

-- The standard alphabet.
unfoldable pub char_of : ℕ → ℕ
char_of s =
    if ltb s 26
    then s + 65
    else if ltb s 52
    then s + 71
    else if ltb s 62
    then s - 52 + 48
    else if s == 62
    then 43
    else 47

unfoldable pub sextet_of : ℕ → Option ℕ
sextet_of c =
    if leb 65 c && leb c 90
    then some (c - 65)
    else if leb 97 c && leb c 122
    then some (c - 71)
    else if leb 48 c && leb c 57
    then some (c + 4)
    else if c == 43
    then some 62
    else if c == 47
    then some 63
    else none

-- Eight-bit bytes regrouped as six-bit values, the last one filled up with zero bits.
unfoldable pub sextets : Bytes → List ℕ
sextets [] = []
sextets (a ∷ []) = a / 4 ∷ a % 4 * 16 ∷ []
sextets (a ∷ b ∷ []) = a / 4 ∷ (a % 4 * 16 + b / 16) ∷ b % 16 * 4 ∷ []
sextets (a ∷ b ∷ c ∷ r) = a / 4 ∷ (a % 4 * 16 + b / 16) ∷ (b % 16 * 4 + c / 64) ∷ c % 64 ∷ sextets r

-- The whole bytes of a run of six-bit values; spare bits are dropped.
unfoldable pub octets : List ℕ → Bytes
octets [] = []
octets (w ∷ []) = []
octets (w ∷ x ∷ []) = (w * 4 + x / 16) ∷ []
octets (w ∷ x ∷ y ∷ []) = (w * 4 + x / 16) ∷ (x % 16 * 16 + y / 4) ∷ []
octets (w ∷ x ∷ y ∷ z ∷ r) = (w * 4 + x / 16) ∷ (x % 16 * 16 + y / 4) ∷ (y % 4 * 64 + z) ∷ octets r

-- The characters that fill a group of four up: none, or up to three.
abbrev pub fill : ℕ → ℕ
fill n = (4 - n % 4) % 4

-- `btoa`
unfoldable pub btoa : Bytes → Text
unfolding char_of sextets
btoa bs = let body = map char_of (sextets bs) in body ++ replicate (fill (length body)) 61

-- `.replace(/=+$/, '')`
unfoldable pub strip_padding : Text → Text
strip_padding [] = []
strip_padding (c ∷ cs) =
    let rest = strip_padding cs in
    elim rest [ [] ↦ (if c == 61 then [] else c ∷ []) | d ∷ ds ↦ c ∷ d ∷ ds ]

-- `.replace(/\+/g, '-').replace(/\//g, '_')`
unfoldable pub to_url : ℕ → ℕ
to_url c = if c == 43 then 45 else if c == 47 then 95 else c

-- `.replace(/-/g, '+').replace(/_/g, '/')`
unfoldable pub from_url : ℕ → ℕ
from_url c = if c == 45 then 43 else if c == 95 then 47 else c

unfoldable pub bytes_to_base64_url : Bytes → Text
unfolding btoa strip_padding to_url
bytes_to_base64_url bs = strip_padding (map to_url (btoa bs))

-- ASCII white space.
abbrev is_space : ℕ → Bool
is_space c = c == 9 || c == 10 || c == 12 || c == 13 || c == 32

-- The values of all characters, or none if one is not of the alphabet.
unfoldable pub values : Text → Option (List ℕ)
unfolding sextet_of
values [] = some []
values (c ∷ cs) = elim (sextet_of c) [
  | none ↦ none
  | some s ↦ elim (values cs) [ none ↦ none | some ss ↦ some (s ∷ ss) ]
]

-- Up to two `=` at the end of text whose length is a multiple of four go.
unfoldable pub drop_padding : Text → Text
drop_padding [] = []
drop_padding (c ∷ []) = if c == 61 then [] else c ∷ []
drop_padding (c ∷ d ∷ []) = if d == 61 then (if c == 61 then [] else c ∷ []) else c ∷ d ∷ []
drop_padding (c ∷ d ∷ e ∷ cs) = c ∷ drop_padding (d ∷ e ∷ cs)

unfoldable pub atob : Text → Option Bytes
unfolding values drop_padding octets
atob t =
    let u = filter (λ c. not (is_space c)) t in
    let v = if length u % 4 == 0 then drop_padding u else u in
    if length v % 4 == 1 then none else elim (values v) [ none ↦ none | some ss ↦ some (octets ss) ]

-- `padded.padEnd(Math.ceil(padded.length / 4) * 4, '=')`
unfoldable pub base64_url_to_bytes : Text → Option Bytes
unfolding from_url atob
base64_url_to_bytes t =
    let padded = map from_url t in atob (padded ++ replicate (fill (length padded)) 61)
