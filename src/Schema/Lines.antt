-- ===== src/Schema/Lines.antt =====
-- backend/internal/kafkaconn/schema.go: `splitSchemaLines`, and `strings.Join` with a line feed between.
use Prim.Native.Char.{Char, code}
use Prim.Native.String.{[] as nil, ◌∷◌ as cons, ◌++◌ as cat}
use text.Mathlib.TextEquality.{Char-path}
use text.Mathlib.TextLemmas.{cons-append, nil-append}
use dbx_plugin_kafka.Base.{
  ◌≢◌, ◌⊎◌, inl, inr, not, All, ℕ, ◌≡◌, refl, ap, ◌∙◌, String, Bool, true, false, ◌&&◌, List, [],
  ◌∷◌, if◌then◌else◌, ◌==◌, nat_eq, string_eq, arith, Bool-cases,
}

-- The line feed and the carriage return.
abbrev is_lf : Char → Bool
is_lf c = code c == 10

abbrev is_cr : Char → Bool
is_cr c = code c == 13

abbrev pub newline : String
newline = "\n"

-- `ReplaceAll(text, "\r\n", "\n")`
unfoldable pub replace_crlf : String → String
replace_crlf nil = nil
replace_crlf (cons c nil) = cons c nil
replace_crlf (cons c (cons d s)) = elim (is_cr c && is_lf d) [
  | true ↦ cons d (replace_crlf s)
  | false ↦ cons c (replace_crlf (cons d s))
]

-- `ReplaceAll(text, "\r", "\n")`
unfoldable pub replace_cr : String → String
replace_cr nil = nil
replace_cr (cons c s) = cons (if is_cr c then "\n" else c) (replace_cr s)

abbrev add_front : Char → List String → List String
add_front c [] = cons c nil ∷ []
add_front c (l ∷ ls) = cons c l ∷ ls

-- `Split(text, "\n")`
unfoldable pub split_lf : String → List String
split_lf nil = nil ∷ []
split_lf (cons c s) = let rest = split_lf s in if is_lf c then nil ∷ rest else add_front c rest

unfoldable pub split_schema_lines : String → List String
unfolding replace_crlf replace_cr split_lf
split_schema_lines nil = []
split_schema_lines (cons c s) = split_lf (replace_cr (replace_crlf (cons c s)))

-- `Join(lines, "\n")`
unfoldable pub join_lines : List String → String
join_lines [] = nil
join_lines (l ∷ []) = l
join_lines (l ∷ m ∷ ms) = cat l (cons "\n" (join_lines (m ∷ ms)))

lf_lem : (c : Char) → is_lf c ≡ true → c ≡ "\n"
lf_lem c h = Char-path c "\n" ((nat_eq.same_iff (code c) 10).0 h)

join_lines-add_front :
    (c : Char) (ls : List String) → join_lines (add_front c ls) ≡ cons c (join_lines ls)
unfolding join_lines
join_lines-add_front c [] = refl
join_lines-add_front c (l ∷ []) = refl
join_lines-add_front c (l ∷ m ∷ ms) = cons-append c l (cons "\n" (join_lines (m ∷ ms)))

-- A line feed begins a new line.
join_lines-nil : (ls : List String) → ls ≢ [] → join_lines (nil ∷ ls) ≡ cons "\n" (join_lines ls)
unfolding join_lines
join_lines-nil [] h = absurd (h refl)
join_lines-nil (l ∷ ls) h = nil-append (cons "\n" (join_lines (l ∷ ls)))

add_front_ne : (c : Char) (ls : List String) → add_front c ls ≢ []
add_front_ne c [] = λ e. ground arith
add_front_ne c (l ∷ ls) = λ e. ground arith

split_lf-ne-nil : (s : String) → split_lf s ≢ []
unfolding split_lf
split_lf-ne-nil nil = λ e. ground arith
split_lf-ne-nil (cons c s) = elim (Bool-cases (is_lf c)) [
  | inl lf ↦ rw (lf, if◌then◌else◌) (λ e. ground arith)
  | inr other ↦ rw (other, if◌then◌else◌) (add_front_ne c (split_lf s))
]

join_lines-split_lf : (s : String) → join_lines (split_lf s) ≡ s
unfolding split_lf join_lines
join_lines-split_lf nil = refl
join_lines-split_lf (cons c s) = elim (Bool-cases (is_lf c)) [
  | inl lf ↦
      rw (lf, if◌then◌else◌)
        (join_lines-nil (split_lf s) (split_lf-ne-nil s)
          ∙ rw (join_lines-split_lf s, lf_lem c lf) refl)
  | inr other ↦
      rw (other, if◌then◌else◌)
        (join_lines-add_front c (split_lf s) ∙ ap (cons c) (join_lines-split_lf s))
]

-- No character of the text has the number.
abbrev pub lacks : ℕ → String → Bool
lacks n nil = true
lacks n (cons c s) = not (code c == n) && lacks n s

abbrev pub AllLack : ℕ → List String → Type 0
AllLack n = All (λ l. lacks n l ≡ true)

replace_cr-lacks : (s : String) → lacks 13 (replace_cr s) ≡ true
unfolding replace_cr
replace_cr-lacks nil = refl
replace_cr-lacks (cons c s) = elim (Bool-cases (is_cr c)) [
  | inl cr ↦ rw (cr, if◌then◌else◌) (replace_cr-lacks s)
  | inr other ↦ rw (other, if◌then◌else◌) (rw (other, replace_cr-lacks s))
]

module _ (n : ℕ) where
  add_front-AllLack :
      (c : Char) (ls : List String)
      → (code c == n) ≡ false
      → AllLack n ls
      → AllLack n (add_front c ls)
  add_front-AllLack c [] h all = (rw h, tt)
  add_front-AllLack c (l ∷ ls) h all = (rw h (all.0), all.1)

  -- A number that the text lacks, or the line feed's, is in no line.
  split_lf-AllLack : (s : String) → (n ≡ 10) ⊎ (lacks n s ≡ true) → AllLack n (split_lf s)
  unfolding split_lf
  split_lf-AllLack nil h = (refl, tt)
  split_lf-AllLack (cons c s) h = elim (Bool-cases (is_lf c)) [
    | inl lf ↦ rw (lf, if◌then◌else◌) (refl, split_lf-AllLack s (rest h))
    | inr other ↦
        rw (other, if◌then◌else◌)
          (add_front-AllLack c (split_lf s) (head other h) (split_lf-AllLack s (rest h)))
  ]
    where
      rest : (n ≡ 10) ⊎ (lacks n (cons c s) ≡ true) → (n ≡ 10) ⊎ (lacks n s ≡ true)
      rest (inl e) = inl e
      rest (inr e) = inr (ground arith)

      head : is_lf c ≡ false → (n ≡ 10) ⊎ (lacks n (cons c s) ≡ true) → (code c == n) ≡ false
      head other (inl e) = rw e other
      head other (inr e) = ground arith

-- A text that is split has neither kind of line break in a line, and its lines, joined by line feeds,
-- are the text with each line break a line feed.
pub split_schema_lines_lem :
    (text : String)
    → (join_lines (split_schema_lines text) ≡ replace_cr (replace_crlf text))
      × AllLack 10 (split_schema_lines text)
      × AllLack 13 (split_schema_lines text)
unfolding split_schema_lines replace_cr replace_crlf join_lines
split_schema_lines_lem nil = (refl, tt, tt)
split_schema_lines_lem (cons c s) =
    let normal = replace_cr (replace_crlf (cons c s)) in
    (
      join_lines-split_lf normal,
      split_lf-AllLack 10 normal (inl refl),
      split_lf-AllLack 13 normal (inr (replace_cr-lacks (replace_crlf (cons c s)))),
    )
