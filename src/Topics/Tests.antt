-- ===== src/Topics/Tests.antt =====
-- Runs of the topic operations of backend/internal/kafkaconn/topics.go on small inputs.
use dbx_plugin_kafka.Base.{
  ℕ, ◌≡◌, ◌≢◌, refl, String, true, false, List, [], ◌∷◌, contains, length, string_eq,
}
use dbx_plugin_kafka.Base.Int.{pos, is_positive}
use dbx_plugin_kafka.Base.Result.{Result, ok, err}
use dbx_plugin_kafka.Base.Strings.{trim_space, trim_left, trim_right}
use dbx_plugin_kafka.Policy.{
  Profile, TopicsDeleteRequest, normalize_from, normalize_topic_names, check_confirmed,
  check_topics, ensure_topic_delete_confirm, ensure_write_allowed, ensure_delete_allowed,
}
use dbx_plugin_kafka.Policy.Confirmed.{IsConfirmed}
use dbx_plugin_kafka.Topics.{
  call_broker, delete_topics, create_topics, create_checked, bad_partitions,
}
use dbx_plugin_kafka.Topics.Guarded.{delete_topics-called, create_topics-called}

abbrev broker : List String → Result String ℕ
broker topics = ok (length topics)

abbrev open_profile : Profile
open_profile = record { read_only = false; allow_delete = true }

abbrev both : List String
both = "a" ∷ "b" ∷ []

abbrev request : TopicsDeleteRequest
request = record { topics = "a" ∷ " b" ∷ []; confirm_topic = ""; confirm_topics = "b" ∷ "a" ∷ [] }

no_partitions :
    (create_topics broker open_profile ("a" ∷ []) (pos 0) (pos 1) true).answer ≡ err bad_partitions
unfolding create_topics create_checked call_broker ensure_write_allowed normalize_topic_names
    normalize_from contains trim_space trim_left trim_right
no_partitions = refl

delete_topics-called_example :
    (open_profile.read_only ≡ false)
    × (open_profile.allow_delete ≡ true)
    × (both ≡ normalize_topic_names request.topics)
    × (both ≢ [])
    × ((s : String) → contains s both ≡ true → IsConfirmed s request)
unfolding delete_topics call_broker ensure_delete_allowed ensure_write_allowed
    ensure_topic_delete_confirm check_topics check_confirmed normalize_topic_names normalize_from
    contains trim_space trim_left trim_right
delete_topics-called_example = delete_topics-called broker open_profile request both refl

create_topics-called_example :
    (open_profile.read_only ≡ false)
    × (both ≡ normalize_topic_names request.topics)
    × (normalize_topic_names request.topics ≢ [])
    × (is_positive (pos 3) ≡ true)
    × (is_positive (pos 2) ≡ true)
unfolding create_topics create_checked call_broker ensure_write_allowed normalize_topic_names
    normalize_from contains trim_space trim_left trim_right
create_topics-called_example =
    create_topics-called broker open_profile request.topics (pos 3) (pos 2) true both refl
