-- ===== src/Json.antt =====
-- What the routes read from strings and numbers of a request: e-mail addresses in their normal
-- form, and numbers by what the code asks of them.
use safe_pass.Base.{ℕ, ◌+◌, Bool, false, ◌&&◌, ◌||◌, [], ◌∷◌, ◌==◌, leb, any, map, if◌then◌else◌}
use safe_pass.Envelope.Base64.{Text}

-- The white space and line ends that `trim` removes.
unfoldable pub is_white_space : ℕ → Bool
is_white_space c =
    (leb 9 c && leb c 13)
    || c == 32
    || c == 160
    || c == 5760
    || (leb 8192 c && leb c 8202)
    || c == 8232
    || c == 8233
    || c == 8239
    || c == 8287
    || c == 12288
    || c == 65279

unfoldable pub trim_start : Text → Text
unfolding is_white_space
trim_start [] = []
trim_start (c ∷ cs) = let rest = trim_start cs in if is_white_space c then rest else c ∷ cs

unfoldable pub trim_end : Text → Text
unfolding is_white_space
trim_end [] = []
trim_end (c ∷ cs) =
    let rest = trim_end cs in
    elim rest [ [] ↦ (if is_white_space c then [] else c ∷ []) | d ∷ ds ↦ c ∷ d ∷ ds ]

-- The letters of ASCII; code units above it stay as they are.
unfoldable pub to_lower : ℕ → ℕ
to_lower c = if leb 65 c && leb c 90 then c + 32 else c

-- `email.trim().toLowerCase()`
unfoldable pub normalize : Text → Text
unfolding trim_start trim_end to_lower
normalize t = map to_lower (trim_end (trim_start t))

-- `email.includes('@')`
unfoldable pub includes_at : Text → Bool
unfolding any
includes_at t = any (λ c. c == 64) t

-- `Number(raw)`: an integer from 0, a negative integer, or no integer at all.
pub data Number : Type 0 where
  natural : ℕ → Number
  negative not_integer : Number

abbrev pub number_is : Number → ℕ → Bool
number_is (natural k) n = k == n
number_is negative n = false
number_is not_integer n = false
