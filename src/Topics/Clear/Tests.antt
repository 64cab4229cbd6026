-- ===== src/Topics/Clear/Tests.antt =====
-- Runs of a clearing of records of backend/internal/kafkaconn/topics.go on small inputs.
use dbx_plugin_kafka.Base.{
  ℕ, ◌≡◌, ◌≢◌, refl, String, true, false, none, some, List, [], ◌∷◌, map, All, contains, string_eq,
  nat_eq,
}
use dbx_plugin_kafka.Base.Int.{ℤ, pos}
use dbx_plugin_kafka.Base.Dict.{Dict, lookup}
use dbx_plugin_kafka.Base.Result.{Result, ok, err}
use dbx_plugin_kafka.Base.Strings.{trim_space, trim_left, trim_right}
use dbx_plugin_kafka.Policy.{
  Profile, ensure_write_allowed, ensure_delete_allowed, ensure_topic_delete_confirm, check_topics,
  normalize_topic_names, normalize_from,
}
use dbx_plugin_kafka.Topics.Clear.{
  TopicRecordsClearRequest, TopicRecordsClearRow, RecordsAdmin, keys, before_of, before_err_of,
  clear_row, insert_partition, sort_partitions, clear_records_rows, clear_with, clear_topic_records,
}
use dbx_plugin_kafka.Topics.Clear.Rows.{Fits}
use dbx_plugin_kafka.Topics.Clear.Offsets.{AreEnds}
use dbx_plugin_kafka.Topics.Clear.Allowed.{clear_topic_records-ok}

-- Partition 1 has no leader, and partition 0 keeps nothing.
abbrev admin : RecordsAdmin String
admin = record {
  connect = none;
  list_end_offsets = λ topic. ok ((2, ok (pos 7)) ∷ (1, err "no leader") ∷ (0, ok (pos 5)) ∷ []);
  delete_records = λ topic offsets. ok ((0, ok (pos 2)) ∷ (2, err "unsupported") ∷ []);
}

abbrev profile : Profile
profile = record { read_only = false; allow_delete = true }

abbrev request : TopicRecordsClearRequest
request = record { topic = " t"; confirm_topic = "t " }

abbrev rows : List (TopicRecordsClearRow String)
rows =
    record { partition = 0; deleted = some (pos 3); low_watermark = some (pos 2); error = none }
    ∷ record {
      partition = 1;
      deleted = none;
      low_watermark = none;
      error = some (some "no leader");
    }
    ∷ record {
      partition = 2;
      deleted = none;
      low_watermark = none;
      error = some (some "unsupported");
    }
    ∷ []

clear_topic_records-ok_example :
    (profile.read_only ≡ false)
    × (profile.allow_delete ≡ true)
    × (trim_space request.confirm_topic ≡ trim_space request.topic)
    × (trim_space request.topic ≢ "")
    × (highs : Dict ℕ (Result String ℤ)) × (ends : Dict ℕ ℤ) × (deleted : Dict ℕ (Result String ℤ))
    × (admin.list_end_offsets (trim_space request.topic) ≡ ok highs)
    × AreEnds highs ends
    × ((clear_topic_records admin profile request).called ≡ some ends)
    × (admin.delete_records (trim_space request.topic) ends ≡ ok deleted)
    × All (Fits ends deleted) rows
    × ((p : ℕ) → contains p (map (λ r. r.partition) rows) ≡ contains p (keys highs))
unfolding clear_topic_records clear_with clear_records_rows clear_row sort_partitions
    insert_partition before_of before_err_of lookup ensure_delete_allowed ensure_write_allowed
    ensure_topic_delete_confirm check_topics normalize_topic_names normalize_from contains
    trim_space trim_left trim_right
clear_topic_records-ok_example = clear_topic_records-ok admin profile request rows refl
