-- ===== src/Schema/Decoder/Journey.antt =====
-- The journey of values from a producer to a consumer that names the same schema, through one decoder with
-- its cache.
use dbx_plugin_kafka.Base.{
  ◌≡◌, refl, sym, ap, subst, ◌∙◌, inl, inr, false, Option, some, List, [], ◌∷◌, map, nat_eq,
  string_eq, pair_eq, arith, Bool-cases,
}
use dbx_plugin_kafka.Base.Int.{ℤ}
use dbx_plugin_kafka.Base.Result.{Result, ok, ◌>>=◌, >>=-eq-ok, ok_injective}
use dbx_plugin_kafka.Base.Strings.{trim_space}
use dbx_plugin_kafka.Schema.Frame.{Bytes, word32, encode_wire_frame}
use dbx_plugin_kafka.Schema.Frame.Laws.{decode_wire_frame-encode_wire_frame}
use dbx_plugin_kafka.Schema.Decoder.{
  SchemaMeta, SchemaRef, Format, is_blank, normalize_confluent_schema_type, first_non_empty,
  SchemaMetaCache, new_schema_meta_cache, SchemaError, Codecs, Registry, SchemaValueInfo, info_of,
  get_schema, encode_schema_payload, decode_schema_payload, with_indexes, encode_for_produce,
  find_meta, format_of, decode_payload, decode_found, decode,
}
use dbx_plugin_kafka.Schema.Decoder.Payload.{
  Readable, shown, format_of_lem, decode-encode_schema_payload, decode_payload-with_indexes,
}
use dbx_plugin_kafka.Schema.Decoder.Metadata.{
  Answers, Agrees, new_schema_meta_cache-Agrees, subject-get_schema, find_by_subject_lem,
}

module _ {E : Type 0} (registry : Registry E) (codecs : Codecs E) where
  decode_opened :
      (req : Option SchemaRef) (c c' : SchemaMetaCache) (id : ℤ) (meta : SchemaMeta)
      (whole text : Bytes)
      → find_meta registry codecs req c (word32 id) ≡ (c', ok meta)
      → decode_payload registry codecs (format_of req meta) meta whole ≡ ok text
      → decode registry codecs req c (encode_wire_frame id whole) ≡ (c', ok (text, info_of meta))
  unfolding decode
  decode_opened req c c' id meta whole text found back =
      rw (decode_wire_frame-encode_wire_frame id whole, decode)
        (ap (decode_found registry codecs req whole) found
          ∙ ap
              (λ (t : Result (SchemaError E) Bytes).
                (c', t >>= λ decoded. ok (decoded, info_of meta)))
              back)

  -- A producer's texts, and a consumer's values by one decoder.
  unfoldable pub produce_all : SchemaRef → List Bytes → Result (SchemaError E) (List Bytes)
  produce_all ref [] = ok []
  produce_all ref (text ∷ texts) = encode_for_produce registry codecs ref text >>= λ made.
      produce_all ref texts >>= λ frames. ok (made.0 ∷ frames)

  pub consume_all :
      Option SchemaRef
      → SchemaMetaCache
      → List Bytes
      → List (Result (SchemaError E) (Bytes × SchemaValueInfo))
  consume_all req c [] = []
  consume_all req c (frame ∷ frames) =
      let (c', value) = decode registry codecs req c frame in value ∷ consume_all req c' frames

  module _ (ref : SchemaRef) (meta : SchemaMeta)
      (known : get_schema registry codecs (trim_space ref.subject) ref.version ≡ ok meta) where
    -- What the encoding of a value went through.
    encode_for_produce-ok :
        (text frame : Bytes) (info : SchemaValueInfo) (format : Format)
        → encode_for_produce registry codecs ref text ≡ ok (frame, info, format)
        → (is_blank ref.subject ≡ false)
          × (encoded whole : Bytes) × (encode_schema_payload registry codecs text meta.schema
                (format_of (some ref) meta)
                (trim_space ref.subject)
              ≡ ok encoded)
          × (with_indexes registry codecs
                (format_of (some ref) meta)
                meta
                (trim_space ref.subject)
                encoded
              ≡ ok whole)
          × (frame ≡ encode_wire_frame meta.id whole)
    unfolding encode_for_produce
    encode_for_produce-ok text frame info format h = elim (Bool-cases (is_blank ref.subject)) [
      | inl blank ↦ absurd (ground (arith, rw (blank, encode_for_produce) at h))
      | inr given ↦
          let subject = trim_space ref.subject in
          let same = format_of_lem ref meta in
          let form =
            normalize_confluent_schema_type (first_non_empty ref.format meta.schema_type) in
          let (encoded, coded, rest) =
            >>=-eq-ok (encode_schema_payload registry codecs text meta.schema form subject) _
              (rw (given, known, encode_for_produce) at h) in
          let (whole, fronted, framed) =
            >>=-eq-ok (with_indexes registry codecs form meta subject encoded) _ rest in
          (
            given,
            encoded,
            whole,
            rw same coded,
            rw same fronted,
            ap (λ t. t.0) (sym (ok_injective framed)),
          )
    ]

    -- One value, with whatever the cache has of the subject.
    decode-encode_for_produce :
        (r : Readable codecs) (c : SchemaMetaCache) (text frame : Bytes) (info : SchemaValueInfo)
        (format : Format)
        → Answers registry codecs
        → Agrees registry codecs (trim_space ref.subject) ref.version c
        → encode_for_produce registry codecs ref text ≡ ok (frame, info, format)
        → (c' : SchemaMetaCache) × (decode registry codecs (some ref) c frame ≡ (
          c',
          ok (
            shown r (format_of (some ref) meta) meta.schema (trim_space ref.subject) text,
            info_of meta,
          ),
        ))
          × Agrees registry codecs (trim_space ref.subject) ref.version c'
    unfolding find_meta
    decode-encode_for_produce r c text frame info format answers agrees h =
        let subject = trim_space ref.subject in
        let form = format_of (some ref) meta in
        let (given, encoded, whole, coded, fronted, framed) =
          encode_for_produce-ok text frame info format h in
        let named : meta.subject ≡ subject =
          subject-get_schema registry codecs subject ref.version meta answers known in
        let back : decode_payload registry codecs form meta whole
            ≡ ok (shown r form meta.schema subject text) =
          decode_payload-with_indexes registry codecs form meta encoded whole _
            (subst (λ t. with_indexes registry codecs form meta t encoded ≡ ok whole) (sym named)
              fronted)
            (subst
              (λ t.
                decode_schema_payload registry codecs encoded meta.schema form t
                ≡ ok (shown r form meta.schema subject text))
              (sym named)
              (decode-encode_schema_payload registry codecs r form meta.schema subject text encoded
                coded)) in
        let (c', found, agrees') =
          find_by_subject_lem registry codecs c subject ref.version meta agrees known in
        let opened : find_meta registry codecs (some ref) c (word32 meta.id) ≡ (c', ok meta) =
          rw (given, find_meta) found in
        (
          c',
          subst
              (λ f.
                decode registry codecs (some ref) c f
                ≡ (c', ok (shown r form meta.schema subject text, info_of meta)))
              (sym framed) (decode_opened (some ref) c c' meta.id meta whole _ opened back),
          agrees',
        )

    consume_all-produce_all_from :
        (r : Readable codecs) (c : SchemaMetaCache) (texts frames : List Bytes)
        → Answers registry codecs
        → Agrees registry codecs (trim_space ref.subject) ref.version c
        → produce_all ref texts ≡ ok frames
        → consume_all (some ref) c frames
          ≡ map
              (λ text. ok (
                shown r (format_of (some ref) meta) meta.schema (trim_space ref.subject) text,
                info_of meta,
              ))
              texts
    unfolding produce_all consume_all
    consume_all-produce_all_from r c [] frames answers agrees h =
        subst (λ fs. consume_all (some ref) c fs ≡ []) (ok_injective h) refl
    consume_all-produce_all_from r c (text ∷ texts) frames answers agrees h =
        let (made, coded, rest) = >>=-eq-ok (encode_for_produce registry codecs ref text) _ h in
        let (others, more, joined) = >>=-eq-ok (produce_all ref texts) _ rest in
        let (c', one, agrees') =
          decode-encode_for_produce r c text made.0 made.1 made.2 answers agrees coded in
        subst (λ fs. consume_all (some ref) c fs ≡ map expected (text ∷ texts))
          (ok_injective joined)
          (ap (λ p. p.1 ∷ consume_all (some ref) p.0 others) one
            ∙ ap (λ t. expected text ∷ t)
                (consume_all-produce_all_from r c' texts others answers agrees' more))
      where
        expected : Bytes → Result (SchemaError E) (Bytes × SchemaValueInfo)
        expected t = ok (
          shown r (format_of (some ref) meta) meta.schema (trim_space ref.subject) t,
          info_of meta,
        )

    -- The values that are produced with a schema are read again, one after another, by a decoder of the
    -- same schema that starts with an empty cache, each in the form that its codec gives back and with
    -- the schema's place, for every format that the codecs know; the registry answers with the subject that
    -- it was asked for or with none, and a codec reads what it wrote.
    pub consume_all-produce_all :
        (r : Readable codecs) (texts frames : List Bytes)
        → Answers registry codecs
        → produce_all ref texts ≡ ok frames
        → consume_all (some ref) new_schema_meta_cache frames
          ≡ map
              (λ text. ok (
                shown r (format_of (some ref) meta) meta.schema (trim_space ref.subject) text,
                info_of meta,
              ))
              texts
    consume_all-produce_all r texts frames answers h =
        consume_all-produce_all_from r new_schema_meta_cache texts frames answers
          (new_schema_meta_cache-Agrees registry codecs (trim_space ref.subject) ref.version) h
