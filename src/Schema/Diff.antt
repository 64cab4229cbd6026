-- ===== src/Schema/Diff.antt =====
-- backend/internal/kafkaconn/schema.go: `schemaTextDiff`, the difference of two texts line by line. The table of
-- the lengths of common subsequences is a list of rows, filled from the last row and column as the program
-- does. The walk through the table recurs on the lines that are left in the two texts; the loop that
-- merges operations into hunks takes fuel. `Path` is the line's number, without the word before it.
pub mod Table
pub mod Edits
pub mod Hunks
use dbx_plugin_kafka.Base.{
  ℕ, zero, suc, ◌+◌, String, Bool, true, false, Option, none, some, List, [], ◌∷◌, ◌++◌, map,
  length, get_or, replicate, if◌then◌else◌, leb, ◌==◌, string_eq,
}
use dbx_plugin_kafka.Schema.Lines.{split_schema_lines, join_lines}

-- The column of the last row and the last column hold zeros.
abbrev pub head : List ℕ → ℕ
head [] = 0
head (n ∷ ns) = n

-- The cells of row `i` from the row below it; the cell beyond is `dp[i][len(after)]`.
unfoldable pub fill_row : String → List String → List ℕ → List ℕ
fill_row line [] below = 0 ∷ []
fill_row line (a ∷ after) [] = 0 ∷ []
fill_row line (a ∷ after) (b ∷ below) =
    let rest = fill_row line after below in
    (if line == a then head below + 1 else if leb (head rest) b then b else head rest) ∷ rest

-- Rows `i` to `len(before)` of `dp`, for the lines of `before` from `i`.
unfoldable pub fill : List String → List String → List (List ℕ)
unfolding fill_row
fill [] after = replicate (length after + 1) 0 ∷ []
fill (line ∷ before) after =
    let below = fill before after in fill_row line after (get_or below 0 []) ∷ below

unfoldable pub cell : List (List ℕ) → ℕ → ℕ → ℕ
cell dp i j = get_or (get_or dp i []) j 0

pub data Kind : Type 0 where
  equal remove add : Kind

pub record SchemaDiffOp : Type 0 where
  pub kind : Kind
  pub line : ℕ
  pub text : String

abbrev pub op : Kind → ℕ → String → SchemaDiffOp
op k i t = record { kind = k; line = i + 1; text = t }

-- The loops for the lines that are left in one of the texts.
unfoldable pub rest_ops : Kind → ℕ → List String → List SchemaDiffOp
rest_ops kind i [] = []
rest_ops kind i (line ∷ lines) = op kind i line ∷ rest_ops kind (i + 1) lines

-- `before` and `after` are the lines from `i` and from `j`.
unfoldable pub walk : List (List ℕ) → ℕ → ℕ → List String → List String → List SchemaDiffOp
unfolding cell rest_ops
walk dp i j [] after = rest_ops add j after
walk dp i j (b ∷ before) [] = rest_ops remove i (b ∷ before)
walk dp i j (b ∷ before) (a ∷ after) = elim (b == a) [
  | true ↦ op equal i b ∷ walk dp (i + 1) (j + 1) before after
  | false ↦ elim (leb (cell dp i (j + 1)) (cell dp (i + 1) j)) [
    | true ↦ op remove i b ∷ walk dp (i + 1) j before (a ∷ after)
    | false ↦ op add j a ∷ walk dp i (j + 1) (b ∷ before) after
  ]
]

pub record SchemaDiffSummary : Type 0 where
  pub before_lines : ℕ
  pub after_lines : ℕ
  pub added : ℕ
  pub removed : ℕ
  pub unchanged : ℕ

pub data HunkOp : Type 0 where
  add remove modify : HunkOp

pub record SchemaDiffHunk : Type 0 where
  pub kind : HunkOp
  pub path : ℕ
  pub before : String
  pub after : String

unfoldable pub texts : List SchemaDiffOp → List String
texts [] = []
texts (o ∷ ops) = o.text ∷ texts ops

unfoldable pub join_diff_lines : List SchemaDiffOp → String
unfolding texts
join_diff_lines ops = join_lines (texts ops)

abbrev pub is_kind : Kind → Kind → Bool
is_kind equal equal = true
is_kind remove remove = true
is_kind add add = true
is_kind _ _ = false

-- A loop that takes the operations of one kind in front, and the operations that it leaves.
unfoldable pub run_of : Kind → List SchemaDiffOp → List SchemaDiffOp
run_of kind [] = []
run_of kind (o ∷ ops) = let rest = run_of kind ops in if is_kind o.kind kind then o ∷ rest else []

unfoldable pub past_run : Kind → List SchemaDiffOp → List SchemaDiffOp
past_run kind [] = []
past_run kind (o ∷ ops) = if is_kind o.kind kind then past_run kind ops else o ∷ ops

abbrev Outcome : Type 0
Outcome = List SchemaDiffHunk × SchemaDiffSummary

abbrev first_line : List SchemaDiffOp → ℕ
first_line [] = 0
first_line (o ∷ ops) = o.line

-- The `switch`; the last case stands for an `added` that is not empty.
unfoldable pub add_hunk : List SchemaDiffOp → List SchemaDiffOp → Outcome → Outcome
unfolding join_diff_lines
add_hunk (r ∷ removed) (a ∷ added) (hunks, s) = (
  hunks
      ++ (record {
        kind = modify;
        path = r.line;
        before = join_diff_lines (r ∷ removed);
        after = join_diff_lines (a ∷ added);
      }
          ∷ []),
  record s { removed = s.removed + length (r ∷ removed); added = s.added + length (a ∷ added) },
)
add_hunk (r ∷ removed) [] (hunks, s) = (
  hunks
      ++ (record {
        kind = HunkOp.remove;
        path = r.line;
        before = join_diff_lines (r ∷ removed);
        after = "";
      }
          ∷ []),
  record s { removed = s.removed + length (r ∷ removed) },
)
add_hunk [] added (hunks, s) = (
  hunks
      ++ (record {
        kind = HunkOp.add;
        path = first_line added;
        before = "";
        after = join_diff_lines added;
      }
          ∷ []),
  record s { added = s.added + length added },
)

-- `none` means that the fuel ran out.
unfoldable pub merge : ℕ → List SchemaDiffOp → Outcome → Option Outcome
unfolding add_hunk run_of past_run
merge n [] done = some done
merge zero (o ∷ ops) done = none
merge (suc n) (o ∷ ops) (hunks, s) = elim (is_kind o.kind equal) [
  | true ↦ merge n ops (hunks, record s { unchanged = s.unchanged + 1 })
  | false ↦
      let left = past_run remove (o ∷ ops) in
      merge n (past_run add left) (add_hunk (run_of remove (o ∷ ops)) (run_of add left) (hunks, s))
]

unfoldable pub diff_ops : List String → List String → List SchemaDiffOp
unfolding fill walk
diff_ops before after = walk (fill before after) 0 0 before after

unfoldable pub schema_text_diff : String → String → Option Outcome
unfolding diff_ops merge split_schema_lines
schema_text_diff before after =
    let before_lines = split_schema_lines before in
    let after_lines = split_schema_lines after in
    let ops = diff_ops before_lines after_lines in
    merge (length ops) ops (
      [],
      record {
        before_lines = length before_lines;
        after_lines = length after_lines;
        added = 0;
        removed = 0;
        unchanged = 0;
      },
    )
