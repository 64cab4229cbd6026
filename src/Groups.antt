-- ===== src/Groups.antt =====
-- backend/internal/kafkaconn/groups.go: `ResetGroupOffsets` with `offsetResetRows` and `normalizeResetMode`. The
-- broker is a record of its answers: a failed connection, the offsets that it lists for topics, and its answer to
-- a commit. A run tells what was committed. The map of given offsets is a list of its entries, in the order
-- that Go goes through them.
pub mod Acknowledged
pub mod Rows
mod Tests
use Prim.Native.Nat.{Ordering}
use Prim.Native.String.{compare}
use dbx_plugin_kafka.Base.{
  ℕ, String, Bool, true, false, ◌&&◌, ◌||◌, not, Option, none, some, List, [], ◌∷◌, if◌then◌else◌,
  ltb, ◌==◌, string_eq, nat_eq, pair_eq,
}
use dbx_plugin_kafka.Base.Int.{ℤ, pos, negsuc, is_neg}
use dbx_plugin_kafka.Base.Dict.{Dict, lookup}
use dbx_plugin_kafka.Base.Result.{Result, ok, err}
use dbx_plugin_kafka.Base.Strings.{trim_space, is_word}
use dbx_plugin_kafka.Policy.{Profile, PolicyError, ensure_write_allowed, normalize_topic_names}

pub data OffsetResetMode : Type 0 where
  earliest latest timestamp partition_offsets : OffsetResetMode

unfoldable pub normalize_reset_mode : String → Option OffsetResetMode
normalize_reset_mode text =
    let name = trim_space text in
    if is_word name "earliest"
    then some earliest
    else if is_word name "latest"
    then some latest
    else if is_word name "timestamp"
    then some timestamp
    else if is_word name "partitionoffset"
        || is_word name "partition_offset"
        || is_word name "partitionoffsets"
    then some partition_offsets
    else none

pub record GroupOffsetResetRequest : Type 0 where
  pub group : String
  pub topics : List String
  pub reset_to : String
  pub timestamp_ms : ℤ
  -- topic, partition and offset
  pub partition_offsets : List (String × ℤ × ℤ)

pub record Target : Type 0 where
  pub topic : String
  pub partition : ℕ
  pub at : ℤ

abbrev pub place : Target → String × ℕ
place t = (t.topic, t.partition)

pub data ResetError (E : Type 0) : Type 0 where
  group_required bad_mode topics_required negative_timestamp offsets_required : ResetError E
  negative_partition : ResetError E
  negative_offset : String → ℕ → ResetError E
  policy : PolicyError → ResetError E
  broker_failed : E → ResetError E
  not_acknowledged : String → ℕ → ResetError E
  rejected : String → ℕ → E → ResetError E

pub data RowError (E : Type 0) : Type 0 where
  missing : RowError E
  failed : E → RowError E

pub record OffsetResetRow (E : Type 0) : Type 0 where
  pub topic : String
  pub partition : ℕ
  -- The field `OK` is whether there is no error.
  pub error : Option (RowError E)

-- The partitions that a commit was answered for, each with its error if it has one.
abbrev pub OffsetResponses : Type 0 → Type 0
OffsetResponses E = Dict (String × ℕ) (Option E)

pub record Admin (E : Type 0) : Type 0 where
  pub connect : Option E
  pub list_start_offsets : List String → Result E (List Target)
  pub list_end_offsets : List String → Result E (List Target)
  pub list_offsets_after_milli : ℤ → List String → Result E (List Target)
  pub commit_offsets : String → List Target → OffsetResponses E × Option E

pub data AuditResult : Type 0 where
  blocked failure success : AuditResult

-- What was committed, the audit record, and the answer.
pub record Outcome (E : Type 0) : Type 0 where
  pub committed : Option (String × List Target)
  pub audit : Option AuditResult
  pub answer : Result (ResetError E) (List (OffsetResetRow E))

abbrev pub is_empty : {A : Type 0} → List A → Bool
is_empty [] = true
is_empty (_ ∷ _) = false

module _ {E : Type 0} where
  abbrev row_of : Target → Option (RowError E) → OffsetResetRow E
  row_of t e = record { topic = t.topic; partition = t.partition; error = e }

  -- The row of one target, and the failure that it is.
  unfoldable pub reset_row :
      OffsetResponses E → Option E → Target → OffsetResetRow E × Option (ResetError E)
  reset_row commits (some e) t = (row_of t (some (failed e)), some (broker_failed e))
  reset_row commits none t = elim (lookup (place t) commits) [
    | none ↦ (row_of t (some missing), some (not_acknowledged t.topic t.partition))
    | some answered ↦ elim answered [
      | some e ↦ (row_of t (some (failed e)), some (rejected t.topic t.partition e))
      | none ↦ (row_of t none, none)
    ]
  ]

  abbrev row_before : OffsetResetRow E → OffsetResetRow E → Bool
  row_before a b =
      if a.topic == b.topic
      then ltb a.partition b.partition
      else elim (compare a.topic b.topic) [ Ordering.lt ↦ true | _ ↦ false ]

  -- The insertion of `sort.Slice`.
  unfoldable pub insert_row : OffsetResetRow E → List (OffsetResetRow E) → List (OffsetResetRow E)
  insert_row r [] = r ∷ []
  insert_row r (s ∷ rows) =
      let rest = insert_row r rows in if row_before s r then s ∷ rest else r ∷ s ∷ rows

  -- The rows of the targets, and the first failure.
  unfoldable pub offset_reset_rows :
      List Target → OffsetResponses E → Option E → List (OffsetResetRow E) × Option (ResetError E)
  unfolding reset_row insert_row
  offset_reset_rows [] commits commit_err = ([], none)
  offset_reset_rows (t ∷ targets) commits commit_err =
      let (row, here) = reset_row commits commit_err t in
      let (rows, later) = offset_reset_rows targets commits commit_err in
      (insert_row row rows, elim here [ some e ↦ some e | none ↦ later ])

  -- The loop over the given offsets.
  unfoldable pub given_targets : List (String × ℤ × ℤ) → Result (ResetError E) (List Target)
  given_targets [] = ok []
  given_targets ((topic, negsuc p, offset) ∷ entries) = err negative_partition
  given_targets ((topic, pos p, negsuc o) ∷ entries) = err (negative_offset topic p)
  given_targets ((topic, pos p, pos o) ∷ entries) = elim (given_targets entries) [
    | err e ↦ err e
    | ok rest ↦ ok (record { topic = topic; partition = p; at = pos o } ∷ rest)
  ]

  abbrev listed : Result E (List Target) → Result (ResetError E) (List Target)
  listed (ok targets) = ok targets
  listed (err e) = err (broker_failed e)

  module _ (admin : Admin E) where
    unfoldable pub targets_of :
        OffsetResetMode
        → List String
        → GroupOffsetResetRequest
        → Result (ResetError E) (List Target)
    unfolding given_targets
    targets_of earliest topics req = listed (admin.list_start_offsets topics)
    targets_of latest topics req = listed (admin.list_end_offsets topics)
    targets_of timestamp topics req =
        listed (admin.list_offsets_after_milli req.timestamp_ms topics)
    targets_of partition_offsets topics req =
        if is_empty req.partition_offsets
        then err offsets_required
        else given_targets req.partition_offsets

    abbrev pub refuse : Option AuditResult → ResetError E → Outcome E
    refuse audit e = record { committed = none; audit = audit; answer = err e }

    unfoldable pub commit : String → List Target → Outcome E
    unfolding offset_reset_rows
    commit group targets =
        let (commits, commit_err) = admin.commit_offsets group targets in
        let (rows, first) = offset_reset_rows targets commits commit_err in
        elim first [
          | some e ↦ record {
            committed = some (group, targets);
            audit = some failure;
            answer = err e;
          }
          | none ↦ record {
            committed = some (group, targets);
            audit = some success;
            answer = ok rows;
          }
        ]

    -- The function that runs with the client.
    unfoldable pub with_admin :
        OffsetResetMode → String → List String → GroupOffsetResetRequest → Outcome E
    unfolding targets_of commit
    with_admin mode group topics req = elim admin.connect [
      | some e ↦ refuse (some failure) (broker_failed e)
      | none ↦ elim (targets_of mode topics req) [
        | err e ↦ refuse (some failure) e
        | ok targets ↦ commit group targets
      ]
    ]

    abbrev pub is_timestamp : OffsetResetMode → Bool
    is_timestamp timestamp = true
    is_timestamp _ = false

    abbrev pub is_partitions : OffsetResetMode → Bool
    is_partitions partition_offsets = true
    is_partitions _ = false

    -- The checks of the mode.
    unfoldable pub reset_in_mode :
        OffsetResetMode → String → List String → GroupOffsetResetRequest → Outcome E
    reset_in_mode mode group topics req =
        if not (is_partitions mode) && is_empty topics
        then refuse none topics_required
        else if is_timestamp mode && is_neg req.timestamp_ms
        then refuse none negative_timestamp
        else with_admin mode group topics req

    unfoldable pub reset_group_offsets : Profile → GroupOffsetResetRequest → Outcome E
    reset_group_offsets profile req =
        let group = trim_space req.group in
        let topics = normalize_topic_names req.topics in
        if group == "" then refuse none group_required else elim (ensure_write_allowed profile) [
          | some e ↦ refuse (some blocked) (policy e)
          | none ↦ elim (normalize_reset_mode req.reset_to) [
            | none ↦ refuse none bad_mode
            | some mode ↦ reset_in_mode mode group topics req
          ]
        ]
