-- ===== src/Schema/Diff/Table.antt =====
-- The table of a difference holds the lengths of longest common subsequences, and the walk keeps as many lines
-- as that.
use mathlib.Core.List.{Sublistᴰ}
use dbx_plugin_kafka.Base.{
  ℕ, zero, suc, ◌+◌, ◌≤◌, ◌≡◌, refl, sym, ap, subst, ◌∙◌, ◌⊎◌, inl, inr, String, Bool, true, false,
  List, [], ◌∷◌, length, length-drop, ap₂, get_or, replicate, drop, if◌then◌else◌, leb, ◌==◌,
  string_eq, arith, Bool-cases, max,
}
use dbx_plugin_kafka.Schema.Diff.{
  Kind, equal, remove, add, SchemaDiffOp, is_kind, head, fill_row, fill, cell, rest_ops, walk,
  diff_ops,
}
use dbx_plugin_kafka.Schema.Diff.Edits.{side, next_line, diff_ops_lem}
use dbx_plugin_kafka.Schema.Diff.Hunks.{count}

-- The texts of the operations that keep a line.
pub kept : List SchemaDiffOp → List String
kept [] = []
kept (o ∷ ops) = let rest = kept ops in if is_kind o.kind equal then o.text ∷ rest else rest

length-kept : (ops : List SchemaDiffOp) → length (kept ops) ≡ count equal ops
unfolding kept count
length-kept [] = refl
length-kept (o ∷ ops) = ground (arith, length-kept ops)

apart :
    (kind skip : Kind)
    → is_kind equal skip ≡ false
    → is_kind kind equal ≡ true
    → is_kind kind skip ≡ false
apart equal skip h e = h
apart remove skip h e = absurd (ground arith)
apart add skip h e = absurd (ground arith)

kept_step :
    (keep pass : Bool) (line : String) {xs ys : List String}
    → (keep ≡ true → pass ≡ false)
    → Sublistᴰ xs ys
    → Sublistᴰ (if keep then line ∷ xs else xs) (if pass then ys else line ∷ ys)
kept_step true true line h s = absurd (ground (arith, h refl))
kept_step true false line h s = Sublistᴰ.cons-cons refl s
kept_step false true line h s = s
kept_step false false line h s = Sublistᴰ.cons s

kept-side :
    (skip : Kind) (ops : List SchemaDiffOp)
    → is_kind equal skip ≡ false
    → Sublistᴰ (kept ops) (side skip ops)
unfolding kept side
kept-side skip [] h = Sublistᴰ.slnil
kept-side skip (o ∷ ops) h =
    kept_step (is_kind o.kind equal) (is_kind o.kind skip) o.text (apart o.kind skip h)
      (kept-side skip ops h)

-- The length of a longest common subsequence, by the recursion that the table stands for.
pub common : List String → List String → ℕ
common [] ys = 0
common (x ∷ xs) [] = 0
common (x ∷ xs) (y ∷ ys) = elim (x == y) [
  | true ↦ suc (common xs ys)
  | false ↦ max (common xs (y ∷ ys)) (common (x ∷ xs) ys)
]

common-cons :
    (x y : String) (xs ys : List String)
    → common (x ∷ xs) (y ∷ ys)
      ≡ (if x == y then suc (common xs ys) else max (common xs (y ∷ ys)) (common (x ∷ xs) ys))
unfolding common
common-cons x y xs ys = ground arith

common-nil : (xs : List String) → common xs [] ≡ 0
unfolding common
common-nil [] = refl
common-nil (x ∷ xs) = refl

front_dropped : {z : String} {zs ys : List String} → Sublistᴰ (z ∷ zs) ys → Sublistᴰ zs ys
front_dropped (Sublistᴰ.cons s) = Sublistᴰ.cons (front_dropped s)
front_dropped (Sublistᴰ.cons-cons e s) = Sublistᴰ.cons s

tails : {z x : String} {zs xs : List String} → Sublistᴰ (z ∷ zs) (x ∷ xs) → Sublistᴰ zs xs
tails (Sublistᴰ.cons s) = front_dropped s
tails (Sublistᴰ.cons-cons e s) = s

front_found :
    {z x : String} {zs xs : List String}
    → Sublistᴰ (z ∷ zs) (x ∷ xs)
    → (z ≡ x) ⊎ Sublistᴰ (z ∷ zs) xs
front_found (Sublistᴰ.cons s) = inr s
front_found (Sublistᴰ.cons-cons e s) = inl e

-- Each common subsequence is at most as long.
common-optimal :
    (xs ys zs : List String) → Sublistᴰ zs xs → Sublistᴰ zs ys → length zs ≤ common xs ys
common-optimal xs ys [] s t = omega arith
common-optimal [] ys (z ∷ zs) s t = elim s [ ]
common-optimal (x ∷ xs) [] (z ∷ zs) s t = elim t [ ]
common-optimal (x ∷ xs) (y ∷ ys) (z ∷ zs) s t =
    rw (common-cons x y xs ys) (elim (Bool-cases (x == y)) [
      | inl same ↦ rw same (omega (arith, common-optimal xs ys zs (tails s) (tails t)))
      | inr differ ↦ rw differ (elim (front_found s) [
        | inr s' ↦ omega (arith, common-optimal xs (y ∷ ys) (z ∷ zs) s' t)
        | inl e ↦ elim (front_found t) [
          | inr t' ↦ omega (arith, common-optimal (x ∷ xs) ys (z ∷ zs) s t')
          | inl e' ↦ absurd (ground (arith, string_eq.same_iff x y, sym e ∙ e'))
        ]
      ])
    ])

-- The cells of a row, each the value of `common` on the lines from its column on.
row_of : List String → List String → List ℕ
row_of xs [] = 0 ∷ []
row_of xs (y ∷ ys) = common xs (y ∷ ys) ∷ row_of xs ys

head-row_of : (xs ys : List String) → head (row_of xs ys) ≡ common xs ys
unfolding row_of common
head-row_of [] [] = refl
head-row_of (x ∷ xs) [] = refl
head-row_of xs (y ∷ ys) = refl

fill_row_lem :
    (x : String) (xs ys : List String) → fill_row x ys (row_of xs ys) ≡ row_of (x ∷ xs) ys
unfolding fill_row row_of
fill_row_lem x xs [] = refl
fill_row_lem x xs (y ∷ ys) =
    rw (fill_row_lem x xs ys, common-cons x y xs ys, head-row_of xs ys, head-row_of (x ∷ xs) ys)
      (ground arith)

row_of_nil : (ys : List String) → replicate (length ys + 1) 0 ≡ row_of [] ys
unfolding row_of common
row_of_nil [] = ap (λ n. replicate n 0) {x = length {A = String} [] + 1} {y = 1} (omega arith)
row_of_nil (y ∷ ys) =
    ap (λ n. replicate n 0) {y = suc (length ys + 1)} (omega arith)
    ∙ ap (λ t. 0 ∷ t) (row_of_nil ys)

-- Row `i` of the table.
fill_lem :
    (i : ℕ) (xs ys : List String) → i ≤ length xs → get_or (fill xs ys) i [] ≡ row_of (drop i xs) ys
unfolding fill
fill_lem zero [] ys h = row_of_nil ys
fill_lem zero (x ∷ xs) ys h =
    ap (fill_row x ys) (fill_lem zero xs ys (omega arith)) ∙ fill_row_lem x xs ys
fill_lem (suc i) [] ys h = absurd (omega arith)
fill_lem (suc i) (x ∷ xs) ys h = fill_lem i xs ys (omega arith)

get_or-row_of : (j : ℕ) (xs ys : List String) → get_or (row_of xs ys) j 0 ≡ common xs (drop j ys)
unfolding row_of
get_or-row_of zero xs [] = sym (common-nil xs)
get_or-row_of zero xs (y ∷ ys) = refl
get_or-row_of (suc j) xs [] = sym (common-nil xs)
get_or-row_of (suc j) xs (y ∷ ys) = get_or-row_of j xs ys

cell-fill :
    (i j : ℕ) (xs ys : List String)
    → i ≤ length xs
    → cell (fill xs ys) i j ≡ common (drop i xs) (drop j ys)
unfolding cell
cell-fill i j xs ys h = ap (λ r. get_or r j 0) (fill_lem i xs ys h) ∙ get_or-row_of j (drop i xs) ys

nil-common : (ys : List String) → common [] ys ≡ 0
unfolding common
nil-common ys = refl

larger_first : {m n p q : ℕ} → leb p q ≡ true → q ≡ m → p ≡ n → m ≡ max m n
larger_first h e f = ground arith

larger_second : {m n p q : ℕ} → leb p q ≡ false → q ≡ m → p ≡ n → n ≡ max m n
larger_second h e f = ground arith

count-rest_ops :
    (kind : Kind) (i : ℕ) (lines : List String)
    → is_kind kind equal ≡ false
    → count equal (rest_ops kind i lines) ≡ 0
unfolding count rest_ops
count-rest_ops kind i [] h = refl
count-rest_ops kind i (l ∷ lines) h = rw h (count-rest_ops kind (i + 1) lines h)

module _ (whole other : List String) where
  -- The two cells that the walk compares.
  compared :
      (i j : ℕ) {b a : String} {before after : List String}
      → drop i whole ≡ b ∷ before
      → drop j other ≡ a ∷ after
      → (cell (fill whole other) (i + 1) j ≡ common before (a ∷ after))
        × (cell (fill whole other) i (j + 1) ≡ common (b ∷ before) after)
  compared i j l r =
      let room : i + 1 ≤ length whole = omega (arith, length-drop i whole, ap length l) in
      (
        cell-fill (i + 1) j whole other room ∙ ap₂ common ((next_line i whole l).1) r,
        cell-fill i (j + 1) whole other (omega arith) ∙ ap₂ common l ((next_line j other r).1),
      )

  -- A walk keeps as many lines as the table says.
  count-walk :
      (i j : ℕ) (before after : List String)
      → drop i whole ≡ before
      → drop j other ≡ after
      → count equal (walk (fill whole other) i j before after) ≡ common before after
  unfolding walk count
  count-walk i j [] after l r = count-rest_ops add j after refl ∙ sym (nil-common after)
  count-walk i j (b ∷ before) [] l r =
      count-rest_ops remove i (b ∷ before) refl ∙ sym (common-nil (b ∷ before))
  count-walk i j (b ∷ before) (a ∷ after) l r =
      let (down, across) = compared i j l r in
      let l' = (next_line i whole l).1 in
      let r' = (next_line j other r).1 in
      elim (Bool-cases (b == a)) [
        | inl same ↦
            rw (common-cons b a before after, same, walk)
              (ap suc (count-walk (i + 1) (j + 1) before after l' r'))
        | inr differ ↦
            elim (Bool-cases
              (leb (cell (fill whole other) i (j + 1)) (cell (fill whole other) (i + 1) j))) [
                | inl below ↦
                    rw (common-cons b a before after, differ, below, walk)
                      (count-walk (i + 1) j before (a ∷ after) l' r
                        ∙ larger_first below down across)
                | inr right ↦
                    rw (common-cons b a before after, differ, right, walk)
                      (count-walk i (j + 1) (b ∷ before) after l r'
                        ∙ larger_second right down across)
              ]
      ]

-- A difference keeps as many lines as a longest common subsequence of the two texts has: the kept lines
-- are one, and no other is longer.
pub diff_ops-IsLongest :
    (before after : List String)
    → Sublistᴰ (kept (diff_ops before after)) before
      × Sublistᴰ (kept (diff_ops before after)) after
      × ((lines : List String)
          → Sublistᴰ lines before
          → Sublistᴰ lines after
          → length lines ≤ length (kept (diff_ops before after)))
unfolding diff_ops
diff_ops-IsLongest before after =
    let ops = diff_ops before after in
    let (left, right, _) = diff_ops_lem before after in
    (
      subst (Sublistᴰ (kept ops)) left (kept-side add ops refl),
      subst (Sublistᴰ (kept ops)) right (kept-side remove ops refl),
      λ lines s t. omega (
        arith,
        common-optimal before after lines s t,
        count-walk before after 0 0 before after refl refl,
        length-kept ops,
      ),
    )
