-- ===== src/Groups/Tests.antt =====
-- Runs of a reset of offsets of backend/internal/kafkaconn/groups.go on small inputs.
use dbx_plugin_kafka.Base.{
  ℕ, ◌≡◌, ◌≢◌, refl, String, false, Option, none, some, List, [], ◌∷◌, get_elem?, string_eq, nat_eq,
  pair_eq, contains,
}
use dbx_plugin_kafka.Base.Int.{ℤ, pos}
use dbx_plugin_kafka.Base.Dict.{lookup}
use dbx_plugin_kafka.Base.Result.{ok, err}
use dbx_plugin_kafka.Base.Strings.{
  trim_space, trim_left, trim_right, is_word, lower_codes, same_codes,
}
use dbx_plugin_kafka.Policy.{Profile, ensure_write_allowed, normalize_topic_names, normalize_from}
use dbx_plugin_kafka.Groups.{
  OffsetResetMode, GroupOffsetResetRequest, Target, place, rejected, Admin, OffsetResetRow,
  normalize_reset_mode, reset_row, insert_row, offset_reset_rows, targets_of, commit, with_admin,
  reset_in_mode, reset_group_offsets,
}
use dbx_plugin_kafka.Groups.Rows.{
  Listed, GroupOffsetRow, max64, group_lag, group_offset_row, add_keys, insert_offset_row, rows_of,
  group_offset_rows,
}
use dbx_plugin_kafka.Groups.Acknowledged.{reset_group_offsets-ok}

abbrev ends : List Target
ends =
    record { topic = "b"; partition = 1; at = pos 9 }
    ∷ record { topic = "a"; partition = 0; at = pos 4 }
    ∷ []

abbrev admin : Option String → Admin String
admin e = record {
  connect = none;
  list_start_offsets = λ topics. ok [];
  list_end_offsets = λ topics. ok ends;
  list_offsets_after_milli = λ ms topics. ok [];
  commit_offsets = λ group targets. ((("b", 1), none) ∷ (("a", 0), e) ∷ [], none);
}

abbrev request : GroupOffsetResetRequest
request = record {
  group = " g ";
  topics = "b" ∷ "a" ∷ [];
  reset_to = "Latest";
  timestamp_ms = pos 0;
  partition_offsets = [];
}

abbrev writable : Profile
writable = record { read_only = false; allow_delete = false }

one_rejected :
    (reset_group_offsets (admin (some "fenced")) writable request).answer
    ≡ err (rejected "a" 0 "fenced")
unfolding reset_group_offsets reset_in_mode with_admin targets_of commit offset_reset_rows reset_row
    insert_row normalize_reset_mode ensure_write_allowed normalize_topic_names normalize_from
    contains trim_space trim_left trim_right is_word lower_codes same_codes lookup
one_rejected = refl

abbrev rows : List (OffsetResetRow String)
rows =
    record { topic = "a"; partition = 0; error = none }
    ∷ record { topic = "b"; partition = 1; error = none }
    ∷ []

reset_group_offsets-ok_example :
    (writable.read_only ≡ false)
    × (trim_space request.group ≢ "")
    × (mode : OffsetResetMode) × (targets : List Target) × (normalize_reset_mode request.reset_to
        ≡ some mode)
    × (targets_of (admin none) mode (normalize_topic_names request.topics) request ≡ ok targets)
    × ((reset_group_offsets (admin none) writable request).committed
        ≡ some (trim_space request.group, targets))
    × ((i : ℕ) (t : Target)
        → get_elem? targets i ≡ some t
        → lookup (place t) ((admin none).commit_offsets (trim_space request.group) targets).0
          ≡ some none)
unfolding reset_group_offsets reset_in_mode with_admin targets_of commit offset_reset_rows reset_row
    insert_row normalize_reset_mode ensure_write_allowed normalize_topic_names normalize_from
    contains trim_space trim_left trim_right is_word lower_codes same_codes lookup
reset_group_offsets-ok_example = reset_group_offsets-ok (admin none) writable request rows refl

abbrev at : ℕ → Option String → Listed
at n failure = record { offset = pos n; failure = failure }

abbrev lags : List GroupOffsetRow → List (String × ℕ × ℤ × String)
lags [] = []
lags (r ∷ rows) = (r.topic, r.partition, r.lag, r.error) ∷ lags rows

-- Nothing is committed for the first partition of the result.
lags_in_order :
    lags (
      group_offset_rows
        ((("b", 1), at 2 none) ∷ [])
        ((("b", 1), at 9 (some "late")) ∷ (("a", 0), at 4 none) ∷ [])
        ((("b", 1), at 7 (some "later")) ∷ []))
    ≡ ("a", 0, pos 4, "") ∷ ("b", 1, pos 2, "late") ∷ []
unfolding group_offset_rows rows_of group_offset_row group_lag max64 add_keys insert_offset_row
    lookup contains
lags_in_order = refl
