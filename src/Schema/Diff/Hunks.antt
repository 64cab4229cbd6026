-- ===== src/Schema/Diff/Hunks.antt =====
-- The loop that merges operations into hunks ends, and its summary counts the lines of the two texts.
use dbx_plugin_kafka.Base.{
  ℕ, zero, suc, ◌+◌, ◌≤◌, ◌≡◌, refl, ap, ◌∙◌, inl, inr, String, true, false, some, List, [], ◌∷◌,
  length, if◌then◌else◌, string_eq, arith, Bool-cases,
}
use dbx_plugin_kafka.Schema.Lines.{split_schema_lines}
use dbx_plugin_kafka.Schema.Diff.{
  Kind, equal, remove, add, SchemaDiffOp, SchemaDiffSummary, SchemaDiffHunk, is_kind, run_of,
  past_run, add_hunk, merge, diff_ops, schema_text_diff,
}
use dbx_plugin_kafka.Schema.Diff.Edits.{side, diff_ops_lem}

-- How many operations are of the kind.
unfoldable pub count : Kind → List SchemaDiffOp → ℕ
count kind [] = 0
count kind (o ∷ ops) = let rest = count kind ops in if is_kind o.kind kind then suc rest else rest

-- A run splits off as many operations of its kind as it has, and none of another kind.
count-run_of :
    (kind : Kind) (ops : List SchemaDiffOp)
    → (count kind ops ≡ length (run_of kind ops) + count kind (past_run kind ops))
      × (length ops ≡ length (run_of kind ops) + length (past_run kind ops))
unfolding count run_of past_run
count-run_of kind [] = omega arith
count-run_of kind (o ∷ ops) = ground (arith, count-run_of kind ops)

count-past_run :
    (kind other : Kind) (ops : List SchemaDiffOp)
    → is_kind kind other ≡ false
    → count other (past_run kind ops) ≡ count other ops
unfolding count past_run
count-past_run kind other [] h = refl
count-past_run kind other (o ∷ ops) h = ground (arith, count-past_run kind other ops h)

-- The operations that are not added are kept or removed, those not removed are kept or added.
length-side :
    (ops : List SchemaDiffOp)
    → (length (side add ops) ≡ count equal ops + count remove ops)
      × (length (side remove ops) ≡ count equal ops + count add ops)
unfolding count side
length-side [] = omega arith
length-side (o ∷ ops) = ground (arith, length-side ops)

-- What a summary becomes when the operations are counted in.
abbrev counted : List SchemaDiffOp → SchemaDiffSummary → SchemaDiffSummary
counted ops s = record s {
  added = s.added + count add ops;
  removed = s.removed + count remove ops;
  unchanged = s.unchanged + count equal ops;
}

add_hunk_summary :
    (removed added : List SchemaDiffOp) (hunks : List SchemaDiffHunk) (s : SchemaDiffSummary)
    → (add_hunk removed added (hunks, s)).1
      ≡ record s { added = s.added + length added; removed = s.removed + length removed }
unfolding add_hunk
add_hunk_summary [] added hunks s = ground arith
add_hunk_summary (r ∷ removed) [] hunks s = ground arith
add_hunk_summary (r ∷ removed) (a ∷ added) hunks s = refl

takes_one :
    (o : SchemaDiffOp) (ops : List SchemaDiffOp)
    → is_kind o.kind equal ≡ false
    → 1 ≤ length (run_of remove (o ∷ ops)) + length (run_of add (past_run remove (o ∷ ops)))
unfolding run_of past_run
takes_one o ops h = ground arith

summary_path :
    (s t : SchemaDiffSummary)
    → (s.before_lines ≡ t.before_lines)
      × (s.after_lines ≡ t.after_lines)
      × (s.added ≡ t.added)
      × (s.removed ≡ t.removed)
      × (s.unchanged ≡ t.unchanged)
    → s ≡ t
summary_path s t p = ground arith

-- A hunk takes one operation at least, and counts those that it takes.
hunk_lem :
    (o : SchemaDiffOp) (ops : List SchemaDiffOp) (hunks : List SchemaDiffHunk)
    (s : SchemaDiffSummary)
    → is_kind o.kind equal ≡ false
    → let left = past_run remove (o ∷ ops) in
      (length (past_run add left) ≤ length ops)
      × (counted
            (past_run add left)
            (add_hunk (run_of remove (o ∷ ops)) (run_of add left) (hunks, s)).1
          ≡ counted (o ∷ ops) s)
hunk_lem o ops hunks s h =
    let left = past_run remove (o ∷ ops) in
    (
      omega (arith, takes_one o ops h, count-run_of remove (o ∷ ops), count-run_of add left),
      ap (counted (past_run add left))
            (add_hunk_summary (run_of remove (o ∷ ops)) (run_of add left) hunks s)
          ∙ summary_path _ (counted (o ∷ ops) s) (
              omega (
                arith,
                count-run_of add left,
                count-past_run remove add (o ∷ ops) refl,
                count-run_of remove (o ∷ ops),
                count-past_run add remove left refl,
                count-past_run add equal left refl,
                count-past_run remove equal (o ∷ ops) refl,
              )),
    )

-- As much fuel as there are operations is enough, and each operation is counted once.
counted-nil : (s : SchemaDiffSummary) → s ≡ counted [] s
unfolding count
counted-nil s = summary_path s (counted [] s) (omega arith)

counted-equal :
    (o : SchemaDiffOp) (ops : List SchemaDiffOp) (s : SchemaDiffSummary)
    → is_kind o.kind equal ≡ true
    → counted ops (record s { unchanged = s.unchanged + 1 }) ≡ counted (o ∷ ops) s
unfolding count
counted-equal o ops s h = ground arith

merge_lem :
    (n : ℕ) (ops : List SchemaDiffOp) (hunks : List SchemaDiffHunk) (s : SchemaDiffSummary)
    → length ops ≤ n
    → (found : List SchemaDiffHunk) × (merge n ops (hunks, s) ≡ some (found, counted ops s))
unfolding merge
merge_lem n [] hunks s h = (hunks, ap (λ t. some (hunks, t)) (counted-nil s))
merge_lem zero (o ∷ ops) hunks s h = absurd (omega arith)
merge_lem (suc n) (o ∷ ops) hunks s h = elim (Bool-cases (is_kind o.kind equal)) [
  | inl same ↦
      let (found, ended) =
        merge_lem n ops hunks (record s { unchanged = s.unchanged + 1 }) (omega arith) in
      (found, rw (same, merge) (ended ∙ ap (λ t. some (found, t)) (counted-equal o ops s same)))
  | inr other ↦
      let left = past_run remove (o ∷ ops) in
      let (taken, summed) = hunk_lem o ops hunks s other in
      let (hunks', s') = add_hunk (run_of remove (o ∷ ops)) (run_of add left) (hunks, s) in
      let (found, ended) = merge_lem n (past_run add left) hunks' s' (omega arith) in
      (found, rw (other, merge) (ended ∙ ap (λ t. some (found, t)) summed))
]

-- The difference of two texts always comes to its end, with a summary of their numbers of lines: each line
-- of the first is unchanged or removed, each line of the second is unchanged or added.
pub schema_text_diff-counts :
    (before after : String)
    → (hunks : List SchemaDiffHunk) × (s : SchemaDiffSummary) × (schema_text_diff before after
        ≡ some (hunks, s))
      × (s.before_lines ≡ length (split_schema_lines before))
      × (s.after_lines ≡ length (split_schema_lines after))
      × (s.unchanged + s.removed ≡ s.before_lines)
      × (s.unchanged + s.added ≡ s.after_lines)
      × (s.unchanged
          ≡ count equal (diff_ops (split_schema_lines before) (split_schema_lines after)))
unfolding schema_text_diff
schema_text_diff-counts before after =
    let first = split_schema_lines before in
    let second = split_schema_lines after in
    let ops = diff_ops first second in
    let start : SchemaDiffSummary = record {
      before_lines = length first;
      after_lines = length second;
      added = 0;
      removed = 0;
      unchanged = 0;
    } in
    let (found, ended) = merge_lem (length ops) ops [] start (omega arith) in
    let (left, right, _) = diff_ops_lem first second in
    (
      found,
      counted ops start,
      ended,
      refl,
      refl,
      omega (arith, length-side ops, ap length left),
      omega (arith, length-side ops, ap length right),
      omega arith,
    )
