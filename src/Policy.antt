-- ===== src/Policy.antt =====
-- backend/internal/kafkaconn/policy.go: what a connection's profile lets a caller do, and the guard of a
-- deletion of topics. A Go `error` is an option, with `none` for `nil`.
pub mod Confirmed
mod Tests
use dbx_plugin_kafka.Base.{
  ℕ, String, Bool, true, false, not, ◌||◌, Option, none, some, List, [], ◌∷◌, if◌then◌else◌, length,
  nat_beq, ◌==◌, contains, string_eq,
}
use dbx_plugin_kafka.Base.Strings.{trim_space}

pub record Profile : Type 0 where
  pub read_only : Bool
  pub allow_delete : Bool

pub data PolicyError : Type 0 where
  blocked no_delete : PolicyError

unfoldable pub ensure_write_allowed : Profile → Option PolicyError
ensure_write_allowed p = if p.read_only then some blocked else none

unfoldable pub ensure_delete_allowed : Profile → Option PolicyError
unfolding ensure_write_allowed
ensure_delete_allowed p = elim (ensure_write_allowed p) [
  | some e ↦ some e
  | none ↦ if p.allow_delete then none else some no_delete
]

pub record TopicsDeleteRequest : Type 0 where
  pub topics : List String
  pub confirm_topic : String
  pub confirm_topics : List String

pub data ConfirmError : Type 0 where
  topics_required confirm_missing : ConfirmError
  -- how many were confirmed, and how many there are
  count_mismatch : ℕ → ℕ → ConfirmError
  not_confirmed : String → ConfirmError
  confirm_mismatch : String → String → ConfirmError

-- The names that the loop leaves out: empty ones and those it has seen.
abbrev pub is_left_out : List String → String → Bool
is_left_out seen topic = topic == "" || contains topic seen

unfoldable pub normalize_from : List String → List String → List String
normalize_from seen [] = []
normalize_from seen (topic ∷ topics) = elim (is_left_out seen (trim_space topic)) [
  | true ↦ normalize_from seen topics
  | false ↦ trim_space topic ∷ normalize_from (trim_space topic ∷ seen) topics
]

unfoldable pub normalize_topic_names : List String → List String
unfolding normalize_from
normalize_topic_names topics = normalize_from [] topics

-- The loop over the topics, with the set of the confirmed ones.
unfoldable pub check_confirmed : List String → List String → Option ConfirmError
check_confirmed confirmed [] = none
check_confirmed confirmed (topic ∷ topics) = elim (contains topic confirmed) [
  | true ↦ check_confirmed confirmed topics
  | false ↦ some (not_confirmed topic)
]

-- The rest of the guard, on the normalized topics.
unfoldable pub check_topics : List String → TopicsDeleteRequest → Option ConfirmError
unfolding check_confirmed normalize_topic_names
check_topics [] req = some topics_required
check_topics (topic ∷ []) req =
    let confirm = trim_space req.confirm_topic in
    if confirm == ""
    then some confirm_missing
    else if not (confirm == topic)
    then some (confirm_mismatch confirm topic)
    else none
check_topics (topic ∷ other ∷ more) req =
    let topics = topic ∷ other ∷ more in
    if not (nat_beq (length req.confirm_topics) (length topics))
    then some (count_mismatch (length req.confirm_topics) (length topics))
    else check_confirmed (normalize_topic_names req.confirm_topics) topics

unfoldable pub ensure_topic_delete_confirm : TopicsDeleteRequest → Option ConfirmError
unfolding check_topics normalize_topic_names
ensure_topic_delete_confirm req = check_topics (normalize_topic_names req.topics) req
