-- ===== src/Base/Strings.antt =====
-- `strings.TrimSpace`, and what `strings.ToLower` and `strings.ToUpper` mean for a comparison with an ASCII
-- word.
use Prim.Native.Nat.{ℕ, ◌+◌, ◌-◌}
use Prim.Native.Char.{Char, code}
use Prim.Native.String.{String, [], ◌∷◌}
use mathlib.Core.Bool.{Bool, true, false, ◌&&◌, ◌||◌}
use mathlib.Core.List.{List, [] as nil, ◌∷◌ as cons}
use dbx_plugin_kafka.Base.Tests.{leb, nat_beq, if◌then◌else◌}

-- `unicode.IsSpace`
abbrev pub is_space : Char → Bool
is_space c =
    (leb 9 (code c) && leb (code c) 13)
    || nat_beq (code c) 32
    || nat_beq (code c) 133
    || nat_beq (code c) 160
    || nat_beq (code c) 5760
    || (leb 8192 (code c) && leb (code c) 8202)
    || nat_beq (code c) 8232
    || nat_beq (code c) 8233
    || nat_beq (code c) 8239
    || nat_beq (code c) 8287
    || nat_beq (code c) 12288

unfoldable pub trim_left : String → String
trim_left [] = []
trim_left (c ∷ s) = if is_space c then trim_left s else c ∷ s

abbrev is_nil : String → Bool
is_nil [] = true
is_nil _ = false

unfoldable pub trim_right : String → String
trim_right [] = []
trim_right (c ∷ s) = let rest = trim_right s in if is_space c && is_nil rest then [] else c ∷ rest

unfoldable pub trim_space : String → String
unfolding trim_left trim_right
trim_space s = trim_right (trim_left s)

-- The letters whose lower case is ASCII: A to Z, and U+0130 and U+212A.
abbrev lower_code : ℕ → ℕ
lower_code n =
    if leb 65 n && leb n 90
    then n + 32
    else if nat_beq n 304
    then 105
    else if nat_beq n 8490
    then 107
    else n

-- The numbers of the characters of a text, in lower case where that is ASCII.
unfoldable pub lower_codes : String → List ℕ
lower_codes [] = nil
lower_codes (c ∷ s) = cons (lower_code (code c)) (lower_codes s)

unfoldable pub same_codes : List ℕ → List ℕ → Bool
same_codes nil nil = true
same_codes (cons m ms) (cons n ns) = nat_beq m n && same_codes ms ns
same_codes _ _ = false

-- `strings.ToLower(text) == word`, for a word of lower-case ASCII letters and underscores.
unfoldable pub is_word : String → String → Bool
unfolding lower_codes same_codes
is_word text word = same_codes (lower_codes text) (lower_codes word)

-- The letters whose upper case is ASCII: a to z, and U+0131 and U+017F.
abbrev upper_code : ℕ → ℕ
upper_code n =
    if leb 97 n && leb n 122
    then n - 32
    else if nat_beq n 305
    then 73
    else if nat_beq n 383
    then 83
    else n

unfoldable pub upper_codes : String → List ℕ
upper_codes [] = nil
upper_codes (c ∷ s) = cons (upper_code (code c)) (upper_codes s)

-- `strings.ToUpper(text) == word`, for a word of capital ASCII letters and underscores.
unfoldable pub is_capital_word : String → String → Bool
unfolding upper_codes same_codes
is_capital_word text word = same_codes (upper_codes text) (upper_codes word)
