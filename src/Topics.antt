-- ===== src/Topics.antt =====
-- backend/internal/kafkaconn/topics.go: `CreateTopics` and `DeleteTopics`. The broker is a function from
-- the topics to its answer, for settings that are given; a run tells which topics it was called with.
pub mod Guarded
pub mod Clear
mod Tests
use dbx_plugin_kafka.Base.{
  ℕ, String, Bool, true, false, Option, none, some, List, [], ◌∷◌, if◌then◌else◌,
}
use dbx_plugin_kafka.Base.Int.{ℤ, is_positive}
use dbx_plugin_kafka.Base.Result.{Result, ok, err}
use dbx_plugin_kafka.Policy.{
  Profile, PolicyError, TopicsDeleteRequest, ConfirmError, ensure_write_allowed,
  ensure_delete_allowed, ensure_topic_delete_confirm, normalize_topic_names,
}

pub data TopicsError : Type 0 where
  policy : PolicyError → TopicsError
  confirm : ConfirmError → TopicsError
  topics_required bad_partitions bad_replication_factor bad_config : TopicsError
  broker_failed : String → TopicsError

pub data AuditResult : Type 0 where
  blocked failed succeeded : AuditResult

-- The topics that the broker was called with, the audit record, and the answer.
pub record Outcome (R : Type 0) : Type 0 where
  pub called : Option (List String)
  pub audit : Option AuditResult
  pub answer : Result TopicsError R

module _ {R : Type 0} (broker : List String → Result String R) where
  unfoldable pub call_broker : List String → Outcome R
  call_broker topics = elim (broker topics) [
    | err e ↦ record { called = some topics; audit = some failed; answer = err (broker_failed e) }
    | ok r ↦ record { called = some topics; audit = some succeeded; answer = ok r }
  ]

  abbrev pub refuse : Option AuditResult → TopicsError → Outcome R
  refuse audit e = record { called = none; audit = audit; answer = err e }

  unfoldable pub delete_topics : Profile → TopicsDeleteRequest → Outcome R
  unfolding call_broker
  delete_topics profile req = elim (ensure_delete_allowed profile) [
    | some e ↦ refuse (some blocked) (policy e)
    | none ↦ elim (ensure_topic_delete_confirm req) [
      | some e ↦ refuse (some blocked) (confirm e)
      | none ↦ call_broker (normalize_topic_names req.topics)
    ]
  ]

  -- The checks of the numbers and of the configuration, in their order.
  unfoldable pub create_checked : List String → ℤ → ℤ → Bool → Outcome R
  unfolding call_broker
  create_checked [] partitions replication_factor config_ok = refuse none topics_required
  create_checked (topic ∷ topics) partitions replication_factor config_ok =
      let called = call_broker (topic ∷ topics) in
      if is_positive partitions
      then (if is_positive replication_factor
          then (if config_ok then called else refuse none bad_config)
          else refuse none bad_replication_factor)
      else refuse none bad_partitions

  -- The last argument says whether the configuration could be read.
  unfoldable pub create_topics : Profile → List String → ℤ → ℤ → Bool → Outcome R
  unfolding create_checked
  create_topics profile topics partitions replication_factor config_ok =
      elim (ensure_write_allowed profile) [
        | some e ↦ refuse (some blocked) (policy e)
        | none ↦
            create_checked (normalize_topic_names topics) partitions replication_factor config_ok
      ]
