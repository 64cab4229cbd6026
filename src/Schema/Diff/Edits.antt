-- ===== src/Schema/Diff/Edits.antt =====
-- What the operations of a difference say of the two texts.
use dbx_plugin_kafka.Base.{
  ℕ, zero, suc, ◌+◌, ◌-◌, ◌≡◌, refl, ap, ◌∙◌, inl, inr, String, true, false, some, List, [], ◌∷◌,
  All, drop, get_elem?, if◌then◌else◌, leb, ◌==◌, string_eq, arith, Bool-cases,
}
use dbx_plugin_kafka.Schema.Diff.{
  Kind, remove, add, SchemaDiffOp, is_kind, cell, rest_ops, walk, fill, diff_ops,
}

-- The texts of the operations of the other two kinds.
unfoldable pub side : Kind → List SchemaDiffOp → List String
side skip [] = []
side skip (o ∷ ops) =
    let rest = side skip ops in if is_kind o.kind skip then rest else o.text ∷ rest

-- The operation shows the line of its text: of the second text if it adds, else of the first.
abbrev pub Shows : List String → List String → SchemaDiffOp → Type 0
Shows before after o =
    get_elem? (if is_kind o.kind add then after else before) (o.line - 1) ≡ some o.text

side-rest_ops-other :
    (skip kind : Kind) (i : ℕ) (lines : List String)
    → is_kind kind skip ≡ false
    → side skip (rest_ops kind i lines) ≡ lines
unfolding side rest_ops
side-rest_ops-other skip kind i [] h = refl
side-rest_ops-other skip kind i (l ∷ lines) h =
    rw h (ap (λ t. l ∷ t) (side-rest_ops-other skip kind (i + 1) lines h))

side-rest_ops-same :
    (kind : Kind) (i : ℕ) (lines : List String)
    → is_kind kind kind ≡ true
    → side kind (rest_ops kind i lines) ≡ []
unfolding side rest_ops
side-rest_ops-same kind i [] h = refl
side-rest_ops-same kind i (l ∷ lines) h = rw h (side-rest_ops-same kind (i + 1) lines h)

-- Without the added lines a walk gives the first text, without the removed ones the second.
side-walk :
    (dp : List (List ℕ)) (i j : ℕ) (before after : List String)
    → (side add (walk dp i j before after) ≡ before)
      × (side remove (walk dp i j before after) ≡ after)
unfolding walk side
side-walk dp i j [] after =
    (side-rest_ops-same add j after refl, side-rest_ops-other remove add j after refl)
side-walk dp i j (b ∷ before) [] = (
  side-rest_ops-other add remove i (b ∷ before) refl,
  side-rest_ops-same remove i (b ∷ before) refl,
)
side-walk dp i j (b ∷ before) (a ∷ after) = elim (Bool-cases (b == a)) [
  | inl same ↦
      let (left, right) = side-walk dp (i + 1) (j + 1) before after in
      rw (same, walk)
        (
          ap (λ t. b ∷ t) left,
          ap (λ t. b ∷ t) right ∙ ap (λ t. t ∷ after) ((string_eq.same_iff b a).0 same),
        )
  | inr differ ↦ elim (Bool-cases (leb (cell dp i (j + 1)) (cell dp (i + 1) j))) [
    | inl down ↦
        let (left, right) = side-walk dp (i + 1) j before (a ∷ after) in
        rw (differ, down, walk) (ap (λ t. b ∷ t) left, right)
    | inr across ↦
        let (left, right) = side-walk dp i (j + 1) (b ∷ before) after in
        rw (differ, across, walk) (left, ap (λ t. a ∷ t) right)
  ]
]

line_at :
    (i : ℕ) (whole : List String) {l : String} {rest : List String}
    → drop i whole ≡ l ∷ rest
    → (get_elem? whole i ≡ some l) × (drop (suc i) whole ≡ rest)
line_at zero [] h = absurd (ground arith)
line_at zero (m ∷ whole) h = (ground arith, ground arith)
line_at (suc i) [] h = absurd (ground arith)
line_at (suc i) (m ∷ whole) h = line_at i whole h

pub next_line :
    (i : ℕ) (whole : List String) {l : String} {rest : List String}
    → drop i whole ≡ l ∷ rest
    → (get_elem? whole (i + 1 - 1) ≡ some l) × (drop (i + 1) whole ≡ rest)
next_line i whole h =
    let (there, left) = line_at i whole h in
    (
      ap (get_elem? whole) (omega arith) ∙ there,
      ap (λ k. drop k whole) {y = suc i} (omega arith) ∙ left,
    )

module _ (before_text after_text : List String) where
  rest_ops-Shows :
      (kind : Kind) (i : ℕ) (lines : List String)
      → drop i (if is_kind kind add then after_text else before_text) ≡ lines
      → All (Shows before_text after_text) (rest_ops kind i lines)
  unfolding rest_ops
  rest_ops-Shows kind i [] h = tt
  rest_ops-Shows kind i (l ∷ lines) h =
      let (there, rest) = next_line i (if is_kind kind add then after_text else before_text) h in
      (there, rest_ops-Shows kind (i + 1) lines rest)

  walk-Shows :
      (dp : List (List ℕ)) (i j : ℕ) (before after : List String)
      → drop i before_text ≡ before
      → drop j after_text ≡ after
      → All (Shows before_text after_text) (walk dp i j before after)
  unfolding walk
  walk-Shows dp i j [] after l r = rest_ops-Shows add j after r
  walk-Shows dp i j (b ∷ before) [] l r = rest_ops-Shows remove i (b ∷ before) l
  walk-Shows dp i j (b ∷ before) (a ∷ after) l r =
      let (shown, l') = next_line i before_text l in
      let (shown', r') = next_line j after_text r in
      elim (Bool-cases (b == a)) [
        | inl same ↦ rw (same, walk) (shown, walk-Shows dp (i + 1) (j + 1) before after l' r')
        | inr differ ↦ elim (Bool-cases (leb (cell dp i (j + 1)) (cell dp (i + 1) j))) [
          | inl down ↦
              rw (differ, down, walk) (shown, walk-Shows dp (i + 1) j before (a ∷ after) l' r)
          | inr across ↦
              rw (differ, across, walk) (shown', walk-Shows dp i (j + 1) (b ∷ before) after l r')
        ]
      ]

-- The operations of a difference without the added lines give the first text, those without the
-- removed lines the second, and each operation shows the line of its number: of the second text if it
-- adds, of the first if it removes or keeps.
pub diff_ops_lem :
    (before after : List String)
    → (side add (diff_ops before after) ≡ before)
      × (side remove (diff_ops before after) ≡ after)
      × All (Shows before after) (diff_ops before after)
unfolding diff_ops
diff_ops_lem before after =
    let (left, right) = side-walk (fill before after) 0 0 before after in
    (left, right, walk-Shows before after (fill before after) 0 0 before after refl refl)
