-- ===== src/Schema/Decoder/Metadata.antt =====
-- The metadata of a schema: the registry's answer, and the cache of the decoder.
use dbx_plugin_kafka.Base.{
  ℕ, ◌≡◌, ◌⊎◌, refl, sym, ap, ◌∙◌, inl, inr, String, some, if◌then◌else◌, ◌==◌, nat_eq, string_eq,
  pair_eq, beq_refl, arith, Bool-cases, Option-cases,
}
use dbx_plugin_kafka.Base.Int.{ℤ, is_positive}
use dbx_plugin_kafka.Base.Dict.{Dict, lookup, insert, lookup-insert}
use dbx_plugin_kafka.Base.Result.{ok, >>=-eq-ok, ok_injective}
use dbx_plugin_kafka.Schema.Frame.{word32}
use dbx_plugin_kafka.Schema.Decoder.{
  SchemaMeta, is_blank, subject_version_key, SchemaMetaCache, lookup_by_subject_version,
  new_schema_meta_cache, store_subject_lookup, lift, Codecs, Registry, get_schema, with_wire_id,
  find_by_subject,
}
use dbx_plugin_kafka.Schema.Decoder.Payload.{lift_ok}

with_wire_id_lem : (meta : SchemaMeta) → with_wire_id meta (word32 meta.id) ≡ meta
with_wire_id_lem meta = ground arith

some_injective : {A : Type 0} {a b : A} → some a ≡ some b → a ≡ b
some_injective h = ground arith

subject_filled :
    (subject : String) (found meta : SchemaMeta)
    → (found.subject ≡ "") ⊎ (found.subject ≡ subject)
    → (if found.subject == "" then record found { subject = subject } else found) ≡ meta
    → meta.subject ≡ subject
subject_filled subject found meta answer h = elim (Bool-cases (found.subject == "")) [
  | inl empty ↦ ap (λ m. m.subject) (sym (rw empty at h))
  | inr given ↦ ap (λ m. m.subject) (sym (rw given at h)) ∙ elim answer [
    | inr same ↦ same
    | inl none_given ↦
        absurd (ground (arith, given, none_given, string_eq.same_iff found.subject ""))
  ]
]

found_again :
    (key : String × ℕ) (meta : SchemaMeta) (m : Dict (String × ℕ) SchemaMeta)
    → lookup key (insert key meta m) ≡ some meta
found_again key meta m = lookup-insert key key meta m ∙ rw (beq_refl key) refl

-- A stored answer is found again, or nothing was stored.
stored :
    (c : SchemaMetaCache) (subject : String) (version : ℤ) (meta : SchemaMeta)
    → (store_subject_lookup c subject version meta ≡ c)
      ⊎ (lookup_by_subject_version (store_subject_lookup c subject version meta) subject version
          ≡ some meta)
unfolding store_subject_lookup lookup_by_subject_version
stored c subject version meta = elim (Bool-cases (is_blank subject)) [
  | inl blank ↦ inl (rw (blank, store_subject_lookup) refl)
  | inr full ↦ elim (Bool-cases (is_positive meta.id)) [
    | inr zero_id ↦ inl (rw (full, zero_id, store_subject_lookup) refl)
    | inl good ↦ inr (
        rw (full, good, store_subject_lookup)
          (found_again (subject_version_key subject version) meta c.by_subject_version))
  ]
]

module _ {E : Type 0} (registry : Registry E) (codecs : Codecs E) where
  -- The subject of the registry's answer is the one asked for.
  abbrev pub Answers : Type 0
  Answers =
      (subject : String) (version : ℤ) (meta : SchemaMeta)
      → registry.by_version subject version ≡ ok meta
      → (meta.subject ≡ "") ⊎ (meta.subject ≡ subject)

  pub subject-get_schema :
      (subject : String) (version : ℤ) (meta : SchemaMeta)
      → Answers
      → get_schema registry codecs subject version ≡ ok meta
      → meta.subject ≡ subject
  unfolding get_schema
  subject-get_schema subject version meta answers h =
      let (found, called, filled) = >>=-eq-ok (lift (registry.by_version subject version)) _ h in
      subject_filled subject found meta (answers subject version found (lift_ok _ called))
        (ok_injective filled)

  -- What a payload becomes on the wire, with the indexes of a Protobuf message, comes off again.
  -- What the cache has for the subject and the version is what the registry answers.
  abbrev pub Agrees : String → ℤ → SchemaMetaCache → Type 0
  Agrees subject version c =
      (meta : SchemaMeta)
      → lookup_by_subject_version c subject version ≡ some meta
      → get_schema registry codecs subject version ≡ ok meta

  pub new_schema_meta_cache-Agrees :
      (subject : String) (version : ℤ) → Agrees subject version new_schema_meta_cache
  unfolding new_schema_meta_cache lookup_by_subject_version lookup
  new_schema_meta_cache-Agrees subject version meta there = absurd (ground arith)

  pub find_by_subject_lem :
      (c : SchemaMetaCache) (subject : String) (version : ℤ) (meta : SchemaMeta)
      → Agrees subject version c
      → get_schema registry codecs subject version ≡ ok meta
      → (c' : SchemaMetaCache) × (find_by_subject registry codecs c subject version (word32 meta.id)
          ≡ (c', ok meta))
        × Agrees subject version c'
  unfolding find_by_subject
  find_by_subject_lem c subject version meta agrees answer =
      elim (Option-cases (lookup_by_subject_version c subject version)) [
        | inr (cached, there) ↦
            let same : cached ≡ meta = ok_injective (sym (agrees cached there) ∙ answer) in
            (c, rw (there, find_by_subject) (ap (λ m. (c, ok m)) same), agrees)
        | inl missing ↦ (
          store_subject_lookup c subject version meta,
          rw (missing, find_by_subject)
              (rw (answer, find_by_subject)
                (ap (λ m. (store_subject_lookup c subject version m, ok m))
                  (with_wire_id_lem meta))),
          λ m there. elim (stored c subject version meta) [
            | inl same ↦
                agrees m (ap (λ k. lookup_by_subject_version k subject version) (sym same) ∙ there)
            | inr found ↦ answer ∙ ap ok (some_injective (sym found ∙ there))
          ],
        )
      ]
