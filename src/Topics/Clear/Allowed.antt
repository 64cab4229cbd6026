-- ===== src/Topics/Clear/Allowed.antt =====
-- A clearing of records that succeeds.
use dbx_plugin_kafka.Base.{
  ℕ, ◌≡◌, ◌≢◌, refl, sym, ap, ◌∙◌, inl, inr, String, true, false, none, some, List, [], ◌∷◌, subst,
  All, map, ◌==◌, string_eq, nat_eq, contains, arith, Bool-cases, Option-cases,
}
use dbx_plugin_kafka.Base.Int.{ℤ}
use dbx_plugin_kafka.Base.Dict.{Dict}
use dbx_plugin_kafka.Base.Result.{Result, ok, Result-cases, ok_injective}
use dbx_plugin_kafka.Base.Strings.{trim_space}
use dbx_plugin_kafka.Base.Trim.{trim_space_twice}
use dbx_plugin_kafka.Policy.{
  Profile, TopicsDeleteRequest, ensure_delete_allowed, ensure_topic_delete_confirm, check_topics,
  normalize_topic_names, normalize_from,
}
use dbx_plugin_kafka.Topics.Guarded.{allowed_lem}
use dbx_plugin_kafka.Topics.Clear.{
  TopicRecordsClearRequest, TopicRecordsClearRow, RecordsAdmin, keys, before_of, before_err_of,
  clear_with, clear_topic_records,
}
use dbx_plugin_kafka.Topics.Clear.Rows.{Fits, clear_records_rows-Fits}
use dbx_plugin_kafka.Topics.Clear.Offsets.{AreEnds, before_of-AreEnds, contains-clear_records_rows}

one_name :
    (topic : String)
    → trim_space topic ≡ topic
    → (topic == "") ≡ false
    → normalize_topic_names (topic ∷ []) ≡ topic ∷ []
unfolding normalize_topic_names contains
one_name topic e h = rw (e, h, normalize_from) (ap (λ t. t ∷ []) e)

confirmed_lem :
    (topic : String) (req : TopicsDeleteRequest)
    → req.topics ≡ topic ∷ []
    → trim_space topic ≡ topic
    → (topic == "") ≡ false
    → ensure_topic_delete_confirm req ≡ none
    → trim_space req.confirm_topic ≡ topic
unfolding ensure_topic_delete_confirm check_topics
confirmed_lem topic req same trimmed named h =
    let names = ap normalize_topic_names same ∙ one_name topic trimmed named in
    let guarded : check_topics (topic ∷ []) req ≡ none =
      subst (λ ts. check_topics ts req ≡ none) names h in
    ground (arith, guarded, string_eq.same_iff (trim_space req.confirm_topic) topic)

module _ {E : Type 0} (admin : RecordsAdmin E) where
  clear_with-ok :
      (topic : String) (rows : List (TopicRecordsClearRow E))
      → (clear_with admin topic).answer ≡ ok rows
      → (highs : Dict ℕ (Result E ℤ)) × (ends : Dict ℕ ℤ) × (deleted : Dict ℕ (Result E ℤ))
        × (admin.list_end_offsets topic ≡ ok highs)
        × AreEnds highs ends
        × ((clear_with admin topic).called ≡ some ends)
        × (admin.delete_records topic ends ≡ ok deleted)
        × All (Fits ends deleted) rows
        × ((p : ℕ) → contains p (map (λ r. r.partition) rows) ≡ contains p (keys highs))
  unfolding clear_with
  clear_with-ok topic rows h = elim (Option-cases admin.connect) [
    | inr (e, bad) ↦ absurd (ground (arith, rw (bad, clear_with) at h))
    | inl connected ↦ elim (Result-cases (admin.list_end_offsets topic)) [
      | inl (e, bad) ↦ absurd (ground (arith, rw (connected, bad, clear_with) at h))
      | inr (highs, listed) ↦ elim (Result-cases (admin.delete_records topic (before_of highs))) [
        | inl (e, bad) ↦ absurd (ground (arith, rw (connected, listed, bad, clear_with) at h))
        | inr (deleted, done) ↦ (
          highs,
          before_of highs,
          deleted,
          listed,
          before_of-AreEnds highs,
          rw (connected, listed, done, clear_with) refl,
          done,
          subst (All (Fits (before_of highs) deleted))
              (ok_injective (rw (connected, listed, done, clear_with) at h))
              (clear_records_rows-Fits (before_of highs) (before_err_of highs) deleted),
          λ p.
              ap (λ rs. contains p (map (λ r. r.partition) rs))
                (sym (ok_injective (rw (connected, listed, done, clear_with) at h)))
              ∙ contains-clear_records_rows p highs deleted,
        )
      ]
    ]
  ]

  -- A clearing of a topic's records that succeeds was allowed by the connection and confirmed with the
  -- topic's name; it deletes the records before the end offsets that the broker listed, a negative one
  -- counting as 0, and in no other partition; there is a row for each partition that the broker listed,
  -- and each row without an error counts what lay between the partition's end offset and its low
  -- watermark after the deletion.
  pub clear_topic_records-ok :
      (profile : Profile) (req : TopicRecordsClearRequest) (rows : List (TopicRecordsClearRow E))
      → (clear_topic_records admin profile req).answer ≡ ok rows
      → (profile.read_only ≡ false)
        × (profile.allow_delete ≡ true)
        × (trim_space req.confirm_topic ≡ trim_space req.topic)
        × (trim_space req.topic ≢ "")
        × (highs : Dict ℕ (Result E ℤ)) × (ends : Dict ℕ ℤ) × (deleted : Dict ℕ (Result E ℤ))
        × (admin.list_end_offsets (trim_space req.topic) ≡ ok highs)
        × AreEnds highs ends
        × ((clear_topic_records admin profile req).called ≡ some ends)
        × (admin.delete_records (trim_space req.topic) ends ≡ ok deleted)
        × All (Fits ends deleted) rows
        × ((p : ℕ) → contains p (map (λ r. r.partition) rows) ≡ contains p (keys highs))
  unfolding clear_topic_records
  clear_topic_records-ok profile req rows h =
      let topic = trim_space req.topic in
      let guard : TopicsDeleteRequest = record {
        topics = topic ∷ [];
        confirm_topic = req.confirm_topic;
        confirm_topics = [];
      } in
      elim (Option-cases (ensure_delete_allowed profile)) [
        | inr (e, refused) ↦ absurd (ground (arith, rw (refused, clear_topic_records) at h))
        | inl allowed ↦ elim (Bool-cases (topic == "")) [
          | inl empty ↦ absurd (ground (arith, rw (allowed, empty, clear_topic_records) at h))
          | inr named ↦ elim (Option-cases (ensure_topic_delete_confirm guard)) [
            | inr (e, refused) ↦
                absurd (ground (arith, rw (allowed, named, refused, clear_topic_records) at h))
            | inl confirmed ↦
                let made : clear_topic_records admin profile req ≡ clear_with admin topic =
                  rw (allowed, named, confirmed, clear_topic_records) refl in
                let (highs, ends, deleted, listed, are_ends, called, done, fits, all_rows) =
                  clear_with-ok topic rows (ap (λ o. o.answer) (sym made) ∙ h) in
                let (writable, deletable) = allowed_lem profile allowed in
                (
                  writable,
                  deletable,
                  confirmed_lem topic guard refl (trim_space_twice req.topic) named confirmed,
                  λ e. absurd (ground (arith, named, e, string_eq.same_iff topic "")),
                  highs,
                  ends,
                  deleted,
                  listed,
                  are_ends,
                  ap (λ o. o.called) made ∙ called,
                  done,
                  fits,
                  all_rows,
                )
          ]
        ]
      ]
