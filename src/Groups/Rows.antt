-- ===== src/Groups/Rows.antt =====
-- backend/internal/kafkaconn/groups.go: the rows of a group's offsets with their lag (`groupOffsetRows`, `groupLag`,
-- `max64`). The three answers of the broker are association lists; a failure is its text. The rows are sorted as they
-- are made: no two of them have the same topic and partition, so that the order of Go's maps does not show.
use Prim.Native.Nat.{Ordering}
use Prim.Native.String.{compare}
use dbx_plugin_kafka.Base.{
  ℕ, ◌≡◌, String, Bool, true, false, not, Option, none, some, List, [], ◌∷◌, if◌then◌else◌, ltb,
  contains, ◌==◌, string_eq, nat_eq, pair_eq, arith,
}
use dbx_plugin_kafka.Base.Int.{ℤ, pos, negsuc, pos_part, ltb_ℤ, is_neg, sub_ℕ}
use dbx_plugin_kafka.Base.Dict.{Dict, lookup}

-- An offset of the broker, with the text of the failure if there is one.
pub record Listed : Type 0 where
  pub offset : ℤ
  pub failure : Option String

abbrev Offsets : Type 0
Offsets = Dict (String × ℕ) Listed

pub record GroupOffsetRow : Type 0 where
  pub topic : String
  pub partition : ℕ
  pub start_offset : ℤ
  pub end_offset : ℤ
  pub committed_offset : ℤ
  pub lag : ℤ
  pub error : String

unfoldable pub max64 : ℤ → ℤ → ℤ
max64 a b = if ltb_ℤ b a then a else b

-- The numbers that are subtracted are not negative.
unfoldable pub group_lag : ℤ → ℤ → ℤ
group_lag last committed =
    if is_neg committed
    then last
    else if not (ltb_ℤ committed last)
    then pos 0
    else sub_ℕ (pos_part last) (pos_part committed)

abbrev offset_or_zero : Option Listed → ℤ
offset_or_zero none = pos 0
offset_or_zero (some item) = max64 item.offset (pos 0)

-- Without an answer the field keeps its zero.
abbrev committed_or_zero : Option Listed → ℤ
committed_or_zero none = pos 0
committed_or_zero (some item) = max64 item.offset (negsuc 0)

abbrev failure_of : Option Listed → String
failure_of none = ""
failure_of (some item) = elim item.failure [ none ↦ "" | some text ↦ text ]

-- The first failure that has a text.
abbrev or_next : String → String → String
or_next a b = if a == "" then b else a

-- The row of one topic and partition.
unfoldable pub group_offset_row : Offsets → Offsets → Offsets → String × ℕ → GroupOffsetRow
unfolding group_lag
group_offset_row starts ends committed (topic, partition) =
    let first = lookup (topic, partition) starts in
    let last = lookup (topic, partition) ends in
    let at = lookup (topic, partition) committed in
    record {
      topic = topic;
      partition = partition;
      start_offset = offset_or_zero first;
      end_offset = offset_or_zero last;
      committed_offset = committed_or_zero at;
      lag = group_lag (offset_or_zero last) (committed_or_zero at);
      error = or_next (or_next (failure_of first) (failure_of last)) (failure_of at);
    }

-- `add` for each entry of an answer.
unfoldable pub add_keys : Offsets → List (String × ℕ) → List (String × ℕ)
add_keys [] keys = keys
add_keys ((k, item) ∷ items) keys = add_keys items (if contains k keys then keys else k ∷ keys)

abbrev row_before : GroupOffsetRow → GroupOffsetRow → Bool
row_before a b =
    if a.topic == b.topic
    then ltb a.partition b.partition
    else elim (compare a.topic b.topic) [ Ordering.lt ↦ true | _ ↦ false ]

unfoldable pub insert_offset_row : GroupOffsetRow → List GroupOffsetRow → List GroupOffsetRow
insert_offset_row r [] = r ∷ []
insert_offset_row r (s ∷ rows) =
    let rest = insert_offset_row r rows in if row_before s r then s ∷ rest else r ∷ s ∷ rows

unfoldable pub rows_of : Offsets → Offsets → Offsets → List (String × ℕ) → List GroupOffsetRow
unfolding group_offset_row insert_offset_row
rows_of starts ends committed [] = []
rows_of starts ends committed (k ∷ keys) =
    insert_offset_row (group_offset_row starts ends committed k)
      (rows_of starts ends committed keys)

unfoldable pub group_offset_rows : Offsets → Offsets → Offsets → List GroupOffsetRow
unfolding rows_of add_keys
group_offset_rows starts ends committed =
    rows_of starts ends committed (add_keys committed (add_keys ends (add_keys starts [])))

-- The lag is never negative, and never more than the end of the partition.
group_lag-within :
    (last committed : ℤ)
    → is_neg last ≡ false
    → (is_neg (group_lag last committed) ≡ false) × (ltb_ℤ last (group_lag last committed) ≡ false)
unfolding group_lag
group_lag-within last committed h = ground arith
