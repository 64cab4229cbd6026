-- ===== src/Topics/Guarded.antt =====
-- When the broker is called.
use dbx_plugin_kafka.Base.{
  ◌≡◌, ◌≢◌, refl, sym, ap, ◌∙◌, inl, inr, String, Bool, true, false, none, some, List, [], ◌∷◌,
  contains, string_eq, arith, Option-cases, Bool-cases,
}
use dbx_plugin_kafka.Base.Int.{ℤ, is_positive}
use dbx_plugin_kafka.Base.Result.{Result, Result-cases}
use dbx_plugin_kafka.Policy.{
  Profile, TopicsDeleteRequest, ensure_write_allowed, ensure_delete_allowed,
  ensure_topic_delete_confirm, normalize_topic_names,
}
use dbx_plugin_kafka.Policy.Confirmed.{IsConfirmed, IsConfirmed-topics}
use dbx_plugin_kafka.Topics.{call_broker, delete_topics, create_checked, create_topics}

pub allowed_lem :
    (p : Profile) → ensure_delete_allowed p ≡ none → (p.read_only ≡ false) × (p.allow_delete ≡ true)
unfolding ensure_delete_allowed ensure_write_allowed
allowed_lem p h = elim (Bool-cases p.read_only) [
  | inl read ↦ absurd (ground arith)
  | inr write ↦ (write, ground arith)
]

module _ {R : Type 0} (broker : List String → Result String R) where
  call_broker-called : (topics : List String) → (call_broker broker topics).called ≡ some topics
  unfolding call_broker
  call_broker-called topics = elim (Result-cases (broker topics)) [
    | inl (e, p) ↦ rw (p, call_broker) refl
    | inr (r, p) ↦ rw (p, call_broker) refl
  ]

  -- A deletion reaches the broker only on a connection that is not read-only and allows deletions, and
  -- then with the normalized topics of the request, of which there is one at least and each of which
  -- the user has confirmed by name.
  pub delete_topics-called :
      (profile : Profile) (req : TopicsDeleteRequest) (topics : List String)
      → (delete_topics broker profile req).called ≡ some topics
      → (profile.read_only ≡ false)
        × (profile.allow_delete ≡ true)
        × (topics ≡ normalize_topic_names req.topics)
        × (topics ≢ [])
        × ((s : String) → contains s topics ≡ true → IsConfirmed s req)
  unfolding delete_topics
  delete_topics-called profile req topics h = elim (Option-cases (ensure_delete_allowed profile)) [
    | inr (e, refused) ↦ absurd (ground (arith, rw (refused, delete_topics) at h))
    | inl allowed ↦ elim (Option-cases (ensure_topic_delete_confirm req)) [
      | inr (e, refused) ↦ absurd (ground (arith, rw (allowed, refused, delete_topics) at h))
      | inl confirmed ↦
          let (writable, deletable) = allowed_lem profile allowed in
          let (some_left, named) = IsConfirmed-topics req confirmed in
          let same : topics ≡ normalize_topic_names req.topics = some_injective (
            sym (rw (allowed, confirmed, delete_topics) at h)
            ∙ call_broker-called (normalize_topic_names req.topics)) in
          (
            writable,
            deletable,
            same,
            λ e. some_left (sym same ∙ e),
            λ s m. named s (ap (contains s) (sym same) ∙ m),
          )
    ]
  ]
    where
      some_injective : {a b : List String} → some a ≡ some b → a ≡ b
      some_injective e = ground arith

  create_checked-called :
      (names : List String) (partitions replication_factor : ℤ) (config_ok : Bool)
      (topics : List String)
      → (create_checked broker names partitions replication_factor config_ok).called ≡ some topics
      → (topics ≡ names)
        × (names ≢ [])
        × (is_positive partitions ≡ true)
        × (is_positive replication_factor ≡ true)
  unfolding create_checked
  create_checked-called [] partitions replication_factor config_ok topics h = absurd (ground arith)
  create_checked-called (t ∷ ts) partitions replication_factor config_ok topics h =
      elim (Bool-cases (is_positive partitions)) [
        | inr bad ↦ absurd (ground (arith, rw (bad, create_checked) at h))
        | inl parts ↦ elim (Bool-cases (is_positive replication_factor)) [
          | inr bad ↦ absurd (ground (arith, rw (parts, bad, create_checked) at h))
          | inl factor ↦ elim (Bool-cases config_ok) [
            | inr bad ↦ absurd (ground (arith, rw (parts, factor, bad, create_checked) at h))
            | inl good ↦ (
              some_inj (
                  sym (rw (parts, factor, good, create_checked) at h)
                  ∙ call_broker-called (t ∷ ts)),
              λ e. ground arith,
              parts,
              factor,
            )
          ]
        ]
      ]
    where
      some_inj : {a b : List String} → some a ≡ some b → a ≡ b
      some_inj e = ground arith

  -- A creation reaches the broker only on a connection that is not read-only, with the normalized
  -- topics, of which there is one at least, and with positive numbers of partitions and replicas.
  pub create_topics-called :
      (profile : Profile) (names : List String) (partitions replication_factor : ℤ)
      (config_ok : Bool) (topics : List String)
      → (create_topics broker profile names partitions replication_factor config_ok).called
        ≡ some topics
      → (profile.read_only ≡ false)
        × (topics ≡ normalize_topic_names names)
        × (normalize_topic_names names ≢ [])
        × (is_positive partitions ≡ true)
        × (is_positive replication_factor ≡ true)
  unfolding create_topics ensure_write_allowed
  create_topics-called profile names partitions replication_factor config_ok topics h =
      elim (Bool-cases profile.read_only) [
        | inl read ↦ absurd (ground (arith, rw (read, create_topics) at h))
        | inr write ↦
            let (same, some_left, parts, factor) =
              create_checked-called (normalize_topic_names names) partitions replication_factor
                config_ok topics (rw (write, create_topics) at h) in
            (write, same, some_left, parts, factor)
      ]
