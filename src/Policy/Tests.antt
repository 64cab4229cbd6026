-- ===== src/Policy/Tests.antt =====
-- Runs of the guards of backend/internal/kafkaconn/policy.go on small inputs.
use dbx_plugin_kafka.Base.{◌≡◌, refl, none, contains, some, [], ◌∷◌, string_eq}
use dbx_plugin_kafka.Base.Strings.{trim_space, trim_left, trim_right}
use dbx_plugin_kafka.Policy.{
  TopicsDeleteRequest, not_confirmed, normalize_from, normalize_topic_names, check_confirmed,
  check_topics, ensure_topic_delete_confirm,
}

normalized : normalize_topic_names (" a " ∷ "" ∷ "a" ∷ "b" ∷ []) ≡ "a" ∷ "b" ∷ []
unfolding normalize_topic_names normalize_from trim_space trim_left trim_right contains
normalized = refl

abbrev two : TopicsDeleteRequest
two = record { topics = "a" ∷ " b" ∷ []; confirm_topic = ""; confirm_topics = "b" ∷ "a " ∷ [] }

one_unconfirmed :
    ensure_topic_delete_confirm (record two { confirm_topics = "a" ∷ "c" ∷ [] })
    ≡ some (not_confirmed "b")
unfolding ensure_topic_delete_confirm check_topics check_confirmed normalize_topic_names
    normalize_from trim_space trim_left trim_right contains
one_unconfirmed = refl

all_confirmed : ensure_topic_delete_confirm two ≡ none
unfolding ensure_topic_delete_confirm check_topics check_confirmed normalize_topic_names
    normalize_from trim_space trim_left trim_right contains
all_confirmed = refl
