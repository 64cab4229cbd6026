-- ===== src/Topics/Clear.antt =====
-- backend/internal/kafkaconn/topics.go: `ClearTopicRecords` with `clearRecordsRows`. The broker is a record of its
-- answers for the topic: by partition the end offset or an error, and after the deletion the low watermark or
-- an error. A run tells the offsets up to which records were deleted.
pub mod Rows
pub mod Offsets
pub mod Allowed
mod Tests
use dbx_plugin_kafka.Base.{
  ℕ, ◌+◌, String, Bool, true, false, Option, none, some, List, [], ◌∷◌, ◌++◌, if◌then◌else◌, ltb,
  ◌==◌, string_eq, nat_eq, map,
}
use dbx_plugin_kafka.Base.Int.{ℤ, pos, negsuc, pos_part, neg_part, sub_ℕ}
use dbx_plugin_kafka.Base.Dict.{Dict, lookup}
use dbx_plugin_kafka.Base.Result.{Result, ok, err}
use dbx_plugin_kafka.Base.Strings.{trim_space}
use dbx_plugin_kafka.Policy.{
  Profile, PolicyError, ConfirmError, ensure_delete_allowed, ensure_topic_delete_confirm,
}
use dbx_plugin_kafka.Topics.{AuditResult, blocked, failed, succeeded}

pub record TopicRecordsClearRequest : Type 0 where
  pub topic : String
  pub confirm_topic : String

pub data ClearError (E : Type 0) : Type 0 where
  policy : PolicyError → ClearError E
  topic_required : ClearError E
  invalid_params : ConfirmError → ClearError E
  broker_failed : E → ClearError E

-- `error` is `none` where the row is OK; the inner `none` is a missing response.
pub record TopicRecordsClearRow (E : Type 0) : Type 0 where
  pub partition : ℕ
  pub deleted : Option ℤ
  pub low_watermark : Option ℤ
  pub error : Option (Option E)

pub record RecordsAdmin (E : Type 0) : Type 0 where
  pub connect : Option E
  pub list_end_offsets : String → Result E (Dict ℕ (Result E ℤ))
  pub delete_records : String → Dict ℕ ℤ → Result E (Dict ℕ (Result E ℤ))

pub record Cleared (E : Type 0) : Type 0 where
  pub called : Option (Dict ℕ ℤ)
  pub audit : Option AuditResult
  pub answer : Result (ClearError E) (List (TopicRecordsClearRow E))

-- A negative offset counts as 0.
abbrev pub clipped : ℤ → ℤ
clipped (pos n) = pos n
clipped (negsuc n) = pos 0

abbrev pub difference : ℤ → ℤ → ℤ
difference a b = sub_ℕ (pos_part a + neg_part b) (pos_part b + neg_part a)

abbrev pub or_zero : Option ℤ → ℤ
or_zero none = pos 0
or_zero (some n) = n

abbrev pub keys : {V : Type 0} → Dict ℕ V → List ℕ
keys [] = []
keys ((p, v) ∷ rest) = p ∷ keys rest

unfoldable pub insert_partition : ℕ → List ℕ → List ℕ
insert_partition p [] = p ∷ []
insert_partition p (q ∷ ps) =
    let rest = insert_partition p ps in if ltb q p then q ∷ rest else p ∷ q ∷ ps

-- `sort.Slice`
unfoldable pub sort_partitions : List ℕ → List ℕ
unfolding insert_partition
sort_partitions [] = []
sort_partitions (p ∷ ps) = insert_partition p (sort_partitions ps)

module _ {E : Type 0} where
  -- The loop over the listed offsets: the offsets before the deletion, which are those to delete up to,
  -- and the errors.
  unfoldable pub before_of : Dict ℕ (Result E ℤ) → Dict ℕ ℤ
  before_of [] = []
  before_of ((p, err e) ∷ highs) = before_of highs
  before_of ((p, ok at) ∷ highs) = (p, clipped at) ∷ before_of highs

  unfoldable pub before_err_of : Dict ℕ (Result E ℤ) → Dict ℕ E
  before_err_of [] = []
  before_err_of ((p, err e) ∷ highs) = (p, e) ∷ before_err_of highs
  before_err_of ((p, ok at) ∷ highs) = before_err_of highs

  abbrev bad_row : ℕ → Option E → TopicRecordsClearRow E
  bad_row p e = record { partition = p; deleted = none; low_watermark = none; error = some e }

  unfoldable pub clear_row : Dict ℕ ℤ → Dict ℕ E → Dict ℕ (Result E ℤ) → ℕ → TopicRecordsClearRow E
  clear_row before before_err deleted p = elim (lookup p before_err) [
    | some e ↦ bad_row p (some e)
    | none ↦ elim (lookup p deleted) [
      | none ↦ bad_row p none
      | some response ↦ elim response [
        | err e ↦ bad_row p (some e)
        | ok low ↦ record {
          partition = p;
          deleted = some (difference (or_zero (lookup p before)) low);
          low_watermark = some low;
          error = none;
        }
      ]
    ]
  ]

  unfoldable pub clear_records_rows :
      Dict ℕ ℤ → Dict ℕ E → Dict ℕ (Result E ℤ) → List (TopicRecordsClearRow E)
  unfolding sort_partitions clear_row
  clear_records_rows before before_err deleted =
      map (clear_row before before_err deleted) (sort_partitions (keys before ++ keys before_err))

  module _ (admin : RecordsAdmin E) where
    abbrev pub refuse : Option AuditResult → ClearError E → Cleared E
    refuse audit e = record { called = none; audit = audit; answer = err e }

    -- The function that runs with the client.
    unfoldable pub clear_with : String → Cleared E
    unfolding before_of before_err_of clear_records_rows
    clear_with topic = elim admin.connect [
      | some e ↦ refuse (some failed) (broker_failed e)
      | none ↦ elim (admin.list_end_offsets topic) [
        | err e ↦ refuse (some failed) (broker_failed e)
        | ok highs ↦
            let before = before_of highs in
            elim (admin.delete_records topic before) [
              | err e ↦ record {
                called = some before;
                audit = some failed;
                answer = err (broker_failed e);
              }
              | ok deleted ↦ record {
                called = some before;
                audit = some succeeded;
                answer = ok (clear_records_rows before (before_err_of highs) deleted);
              }
            ]
      ]
    ]

    unfoldable pub clear_topic_records : Profile → TopicRecordsClearRequest → Cleared E
    clear_topic_records profile req =
        let topic = trim_space req.topic in
        elim (ensure_delete_allowed profile) [
          | some e ↦ refuse (some blocked) (policy e)
          | none ↦
              if topic == ""
              then refuse none topic_required
              else elim (ensure_topic_delete_confirm (record {
                topics = topic ∷ [];
                confirm_topic = req.confirm_topic;
                confirm_topics = [];
              })) [ some e ↦ refuse (some blocked) (invalid_params e) | none ↦ clear_with topic ]
        ]
