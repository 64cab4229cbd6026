-- ===== src/Policy/Confirmed.antt =====
-- What the guard of a deletion lets through.
use dbx_plugin_kafka.Base.{
  ◌≡◌, ◌≢◌, refl, ◌⊎◌, inl, inr, String, true, false, none, List, [], ◌∷◌, contains, Distinct,
  string_eq, beq_refl, arith, Bool-cases,
}
use dbx_plugin_kafka.Base.Strings.{trim_space}
use dbx_plugin_kafka.Policy.{
  TopicsDeleteRequest, normalize_from, normalize_topic_names, check_confirmed, check_topics,
  ensure_topic_delete_confirm, is_left_out,
}

normalize_from-Distinct :
    (seen topics : List String)
    → Distinct (normalize_from seen topics)
      × ((s : String) → contains s seen ≡ true → contains s (normalize_from seen topics) ≡ false)
      × (contains "" (normalize_from seen topics) ≡ false)
unfolding normalize_from contains
normalize_from-Distinct seen [] = (tt, λ s h. refl, refl)
normalize_from-Distinct seen (topic ∷ topics) =
    elim (Bool-cases (is_left_out seen (trim_space topic))) [
      | inl out ↦ rw (out, normalize_from) (normalize_from-Distinct seen topics)
      | inr new ↦
          let (distinct, apart, filled) =
            normalize_from-Distinct (trim_space topic ∷ seen) topics in
          rw (new, normalize_from)
            (
              (apart (trim_space topic) (ground (arith, beq_refl (trim_space topic))), distinct),
              λ s h. ground (arith, apart s, string_eq.same_iff (trim_space topic) s),
              ground (arith),
            )
    ]

-- The normalized names are distinct, and none of them is empty.
pub normalize_topic_names-Distinct :
    (topics : List String)
    → Distinct (normalize_topic_names topics) × (contains "" (normalize_topic_names topics) ≡ false)
unfolding normalize_topic_names
normalize_topic_names-Distinct topics =
    let (distinct, _, filled) = normalize_from-Distinct [] topics in (distinct, filled)

check_confirmed-none :
    (confirmed topics : List String)
    → check_confirmed confirmed topics ≡ none
    → (s : String) → contains s topics ≡ true
    → contains s confirmed ≡ true
unfolding check_confirmed contains
check_confirmed-none confirmed [] h s e = ground arith
check_confirmed-none confirmed (topic ∷ topics) h s e =
    elim (Bool-cases (contains topic confirmed)) [
      | inl found ↦ ground (
        arith,
        string_eq.same_iff topic s,
        check_confirmed-none confirmed topics (rw (found, check_confirmed) at h) s,
      )
      | inr not_found ↦ ground arith
    ]

-- The user named the topic: among the confirmed topics, or as the one confirmed topic.
abbrev pub IsConfirmed : String → TopicsDeleteRequest → Type 0
IsConfirmed topic req =
    (contains topic (normalize_topic_names req.confirm_topics) ≡ true)
    ⊎ (trim_space req.confirm_topic ≡ topic)

check_topics-none :
    (topics : List String) (req : TopicsDeleteRequest)
    → check_topics topics req ≡ none
    → (s : String) → contains s topics ≡ true
    → IsConfirmed s req
unfolding check_topics contains
check_topics-none [] req h s e = ground arith
check_topics-none (topic ∷ []) req h s e = inr (
    ground
      (arith, string_eq.same_iff (trim_space req.confirm_topic) topic, string_eq.same_iff topic s))
check_topics-none (topic ∷ other ∷ more) req h s e =
    inl (check_confirmed-none _ (topic ∷ other ∷ more) (ground arith) s e)

-- A deletion that passes the guard has topics, and the user has confirmed every one of them by name.
pub IsConfirmed-topics :
    (req : TopicsDeleteRequest)
    → ensure_topic_delete_confirm req ≡ none
    → (normalize_topic_names req.topics ≢ [])
      × ((s : String) → contains s (normalize_topic_names req.topics) ≡ true → IsConfirmed s req)
unfolding ensure_topic_delete_confirm check_topics
IsConfirmed-topics req h =
    (λ e. ground arith, check_topics-none (normalize_topic_names req.topics) req h)
