-- ===== src/Gate/Deletion.antt =====
-- The confirmation that `topicsDelete` fills in, before the guard of backend/internal/kafkaconn/policy.go.
use dbx_plugin_kafka.Base.{
  ◌≤◌, ◌≡◌, ◌≢◌, refl, subst, ◌↔◌, inl, inr, String, Option, true, none, List, [], ◌∷◌, length,
  ◌==◌, contains, beq_refl, arith, Bool-cases, string_eq,
}
use dbx_plugin_kafka.Base.Strings.{trim_space, trim_left, trim_right}
use dbx_plugin_kafka.Policy.{
  TopicsDeleteRequest, is_left_out, normalize_from, normalize_topic_names, check_confirmed,
  check_topics, ensure_topic_delete_confirm,
}
use dbx_plugin_kafka.Gate.{DeleteArgs, delete_request, string_slice}

-- What `topicsDelete` hands to `DeleteTopics`.
pub executed_request : DeleteArgs → TopicsDeleteRequest
executed_request req = record {
  topics = req.topics;
  confirm_topic = req.confirm_topic;
  confirm_topics = req.confirm_topics;
}

normalize_from-length :
    (seen topics : List String) → length (normalize_from seen topics) ≤ length topics
unfolding normalize_from
normalize_from-length seen [] = omega arith
normalize_from-length seen (topic ∷ topics) =
    elim (Bool-cases (is_left_out seen (trim_space topic))) [
      | inl out ↦ rw (out, normalize_from) (omega (arith, normalize_from-length seen topics))
      | inr new ↦
          rw (new, normalize_from)
            (omega (arith, normalize_from-length (trim_space topic ∷ seen) topics))
    ]

Subset : List String → List String → Type 0
Subset xs ys = (s : String) → contains s xs ≡ true → contains s ys ≡ true

check_confirmed_lem :
    (confirmed topics : List String)
    → Subset topics confirmed
    → check_confirmed confirmed topics ≡ none
unfolding check_confirmed contains Subset
check_confirmed_lem confirmed [] h = refl
check_confirmed_lem confirmed (topic ∷ topics) h =
    rw (h topic (ground (arith, beq_refl topic)), check_confirmed)
      (check_confirmed_lem confirmed topics (λ s m. h s (ground arith)))

-- The guard, on the request of `topicsDelete`: `names` are the normalized topics.
guard_many :
    (connection first second : String) (rest names : List String)
    → (let topics = first ∷ second ∷ rest in
        names ≡ normalize_topic_names topics
        → length names ≤ length topics
        → (check_topics names (executed_request (delete_request connection topics)) ≡ none)
          ↔ (length names ≡ length topics))
unfolding check_topics executed_request delete_request trim_space trim_left trim_right Subset
guard_many connection first second rest [] e fits = (λ h. ground arith, λ h. ground arith)
guard_many connection first second rest (name ∷ []) e fits = (λ h. ground arith, λ h. ground arith)
guard_many connection first second rest (name ∷ other ∷ more) e fits = (
  λ h. ground arith,
  λ h. ground (
    arith,
    check_confirmed_lem (normalize_topic_names (first ∷ second ∷ rest)) (name ∷ other ∷ more)
        (λ s m. subst (λ xs. contains s xs ≡ true) e m),
  ),
)

guard_one :
    (connection topic : String)
    → (ensure_topic_delete_confirm (executed_request (delete_request connection (topic ∷ [])))
        ≡ none)
      ↔ (length (normalize_topic_names (topic ∷ [])) ≡ 1)
unfolding ensure_topic_delete_confirm normalize_topic_names normalize_from check_topics
    executed_request delete_request contains
guard_one connection topic = elim (Bool-cases (trim_space topic == "")) [
  | inl empty ↦ ground arith
  | inr named ↦ ground (arith, beq_refl (trim_space topic))
]

guard_lem :
    (connection : String) (topics : List String)
    → topics ≢ []
    → (ensure_topic_delete_confirm (executed_request (delete_request connection topics)) ≡ none)
      ↔ (length (normalize_topic_names topics) ≡ length topics)
unfolding ensure_topic_delete_confirm executed_request delete_request trim_space
guard_lem connection [] some_ = absurd (some_ refl)
guard_lem connection (first ∷ []) some_ = guard_one connection first
guard_lem connection (first ∷ second ∷ rest) some_ =
    guard_many connection first second rest (normalize_topic_names (first ∷ second ∷ rest)) refl
      (normalize_from-length [] (first ∷ second ∷ rest))

-- A deletion that the tool executes, of the names that it takes from its argument, passes the guard below it
-- exactly when none of the names is dropped there as a repeated one. With a repeated name it is previewed
-- and takes the token, and fails.
pub topics_delete_confirmed :
    (connection : String) (items : List (Option String))
    → string_slice items ≢ []
    → (ensure_topic_delete_confirm
          (executed_request (delete_request connection (string_slice items)))
        ≡ none)
      ↔ (length (normalize_topic_names (string_slice items)) ≡ length (string_slice items))
topics_delete_confirmed connection items named = guard_lem connection (string_slice items) named
