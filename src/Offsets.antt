-- ===== src/Offsets.antt =====
-- backend/internal/kafkaconn/messages.go: where a consumer starts to read (`normalizeConsumePartitions`,
-- `consumeOffset`, `buildConsumeOpts`). What is asked of the Kafka client is data: an offset is the call
-- that makes it, and the options are a record. What `parseTimestampMillis` makes of the text is an
-- argument, `none` for an error. A partition that was normalized is a plain number.
pub mod Exact
pub mod Partitions
mod Tests
use dbx_plugin_kafka.Base.{
  ℕ, ◌*◌, ◌%◌, ◌^◌, String, Bool, true, false, not, ◌&&◌, ◌||◌, Option, none, some, List, [], ◌∷◌,
  if◌then◌else◌, ltb, ◌==◌, contains, nat_eq, string_eq,
}
use dbx_plugin_kafka.Base.Int.{ℤ, pos, negsuc, pos_part, is_positive, ltb_ℤ, int64_of_bits}
use dbx_plugin_kafka.Base.Dict.{Dict, lookup, insert}
use dbx_plugin_kafka.Base.Result.{Result, ok, err, ◌>>=◌}
use dbx_plugin_kafka.Base.Strings.{trim_space, is_word}

pub data OffsetError : Type 0 where
  negative_partition bad_offset_time group_required partitions_with_committed unknown_strategy :
      OffsetError
  offset_required : ℕ → OffsetError
  partitions_required : OffsetError

-- The insertion of `sort.Slice` on distinct numbers.
unfoldable pub insert_sorted : ℕ → List ℕ → List ℕ
insert_sorted n [] = n ∷ []
insert_sorted n (m ∷ ms) = let rest = insert_sorted n ms in if ltb m n then m ∷ rest else n ∷ m ∷ ms

unfoldable pub normalize_partitions : List ℤ → Result OffsetError (List ℕ)
unfolding insert_sorted
normalize_partitions [] = ok []
normalize_partitions (negsuc n ∷ ps) = err negative_partition
normalize_partitions (pos n ∷ ps) =
    normalize_partitions ps >>= λ rest. ok (if contains n rest then rest else insert_sorted n rest)

-- The calls of `kgo.NewOffset()`; `unset` is the zero value.
pub data Offset : Type 0 where
  unset at_start at_end at_committed : Offset
  relative_to_end : ℕ → Offset
  after_milli : ℤ → Offset
  at_offset : ℕ → Offset

pub data Strategy : Type 0 where
  empty by_default latest recent earliest timestamp committed exact other : Strategy

-- The words that the strategy is compared with, after `TrimSpace` and `ToLower`.
unfoldable pub strategy_of : String → Strategy
strategy_of text =
    let name = trim_space text in
    if is_word name ""
    then empty
    else if is_word name "default"
    then by_default
    else if is_word name "latest" || is_word name "end"
    then latest
    else if is_word name "recent" || is_word name "last"
    then recent
    else if is_word name "earliest" || is_word name "start"
    then earliest
    else if is_word name "timestamp"
        || is_word name "time"
        || is_word name "by-time"
        || is_word name "by_time"
    then timestamp
    else if is_word name "committed" || is_word name "none"
    then committed
    else if is_word name "offset"
        || is_word name "absolute"
        || is_word name "absolute-offset"
        || is_word name "absolute_offset"
    then exact
    else other

unfoldable pub consume_offset : Strategy → Option ℤ → Bool → Bool → ℕ → Result OffsetError Offset
consume_offset empty millis has_group direct window = ok (if direct then at_start else unset)
consume_offset by_default millis has_group direct window = ok (if direct then at_start else unset)
consume_offset latest millis has_group direct window = ok at_end
consume_offset recent millis has_group direct window =
    ok (relative_to_end (if ltb window 1 then 1 else window))
consume_offset earliest millis has_group direct window = ok at_start
consume_offset timestamp none has_group direct window = err bad_offset_time
consume_offset timestamp (some t) has_group direct window = ok (after_milli t)
consume_offset committed millis has_group direct window =
    if not has_group
    then err group_required
    else if direct
    then err partitions_with_committed
    else ok at_committed
consume_offset exact millis has_group direct window = err unknown_strategy
consume_offset other millis has_group direct window = err unknown_strategy

-- The greater one of the two, where the second is an `int`.
abbrev at_least : ℕ → ℤ → ℕ
at_least least n = if ltb_ℤ n (pos least) then least else pos_part n

-- `consumeMaxScanRecords`; the tenfold wraps around.
unfoldable pub consume_max_scan_records : ℕ → ℤ → ℕ
consume_max_scan_records limit max_scan =
    if is_positive max_scan
    then pos_part max_scan
    else at_least limit (pos (at_least 1000 (int64_of_bits (limit * 10 % 2 ^ 64))))

pub record ConsumeOpts : Type 0 where
  pub disable_auto_commit : Bool
  pub partitions : Dict ℕ Offset
  pub topics : Bool
  pub group : Option String
  pub start : Option Offset

abbrev is_exact : Strategy → Bool
is_exact exact = true
is_exact _ = false

abbrev is_default : Strategy → Bool
is_default empty = true
is_default by_default = true
is_default _ = false

abbrev is_empty : {A : Type 0} → List A → Bool
is_empty [] = true
is_empty (_ ∷ _) = false

-- The loop over the partitions with exact offsets.
unfoldable pub exact_partitions :
    Strategy → Dict ℕ ℕ → List ℕ → Dict ℕ Offset → Result OffsetError (Dict ℕ Offset)
exact_partitions strategy offsets [] acc = ok acc
exact_partitions strategy offsets (p ∷ ps) acc = elim (lookup p offsets) [
  | some offset ↦ exact_partitions strategy offsets ps (insert p (at_offset offset) acc)
  | none ↦ elim (is_exact strategy) [
    | true ↦ err (offset_required p)
    | false ↦ exact_partitions strategy offsets ps (insert p at_start acc)
  ]
]

-- `partitionOffsetMap`
unfoldable pub partition_offset_map : List ℕ → Offset → Dict ℕ Offset → Dict ℕ Offset
partition_offset_map [] offset acc = acc
partition_offset_map (p ∷ ps) offset acc = partition_offset_map ps offset (insert p offset acc)

abbrev with_partitions : String → Dict ℕ Offset → ConsumeOpts
with_partitions group_id ps = record {
  disable_auto_commit = not (group_id == "");
  partitions = ps;
  topics = false;
  group = none;
  start = none;
}

abbrev with_topics : String → Option Offset → ConsumeOpts
with_topics group_id start = record {
  disable_auto_commit = not (group_id == "");
  partitions = [];
  topics = true;
  group = if group_id == "" then none else some group_id;
  start = start;
}

unfoldable pub build_consume_opts :
    Strategy → Option ℤ → String → ℕ → Dict ℕ ℕ → List ℕ → Result OffsetError ConsumeOpts
unfolding exact_partitions partition_offset_map consume_offset
build_consume_opts strategy millis group_id window offsets [] =
    if is_exact strategy && is_empty offsets
    then err partitions_required
    else if is_default strategy
    then ok (with_topics group_id none)
    else (consume_offset strategy millis (not (group_id == "")) false window >>= λ offset.
        ok (with_topics group_id (some offset)))
build_consume_opts strategy millis group_id window offsets (p ∷ ps) =
    if not (is_empty offsets) || is_exact strategy
    then (exact_partitions strategy offsets (p ∷ ps) [] >>= λ found.
        ok (with_partitions group_id found))
    else (consume_offset strategy millis false true window >>= λ offset.
        ok (with_partitions group_id (partition_offset_map (p ∷ ps) offset [])))
