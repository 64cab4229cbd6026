-- ===== src/Schema/Decoder/Payload.antt =====
-- The payload of a message: the form of a codec, and the indexes of a Protobuf message before it.
use dbx_plugin_kafka.Base.{
  ◌≡◌, refl, sym, ap, subst, ◌∙◌, inl, inr, String, true, none, some, List, ◌++◌, nat_eq, string_eq,
  pair_eq, arith, Bool-cases, Option-cases,
}
use dbx_plugin_kafka.Base.Int.{ℤ}
use dbx_plugin_kafka.Base.Result.{Result, ok, err, Result-cases, ok_injective}
use dbx_plugin_kafka.Base.Strings.{trim_space, trim_left, trim_right}
use dbx_plugin_kafka.Schema.Frame.{Bytes, encode_protobuf_message_indexes}
use dbx_plugin_kafka.Schema.Frame.Laws.{strip-encode_protobuf_message_indexes}
use dbx_plugin_kafka.Schema.Decoder.{
  SchemaMeta, SchemaRef, Format, avro, json, protobuf, unknown, is_blank,
  normalize_confluent_schema_type, first_non_empty, lift, json_checked, Codecs, Registry,
  encode_schema_payload, decode_schema_payload, with_indexes, format_of, without_indexes,
  decode_payload,
}

-- A codec reads what it wrote, in a form of the text that it chooses.
pub record Readable {E : Type 0} (codecs : Codecs E) : Type 0 where
  pub avro_form : String → Bytes → Bytes
  pub protobuf_form : Bytes → String → String → Bytes
  pub avro_reads :
      (schema : String) (text encoded : Bytes)
      → codecs.avro_encode schema text ≡ ok encoded
      → codecs.avro_decode schema encoded ≡ ok (avro_form schema text)
  pub protobuf_reads :
      (text : Bytes) (schema subject : String) (encoded : Bytes)
      → codecs.protobuf_encode text schema subject ≡ ok encoded
      → codecs.protobuf_decode encoded schema subject ≡ ok (protobuf_form text schema subject)

-- The text that the consumer shows for a text that was produced.
abbrev pub shown :
    {E : Type 0} {codecs : Codecs E} → Readable codecs → Format → String → String → Bytes → Bytes
shown r avro schema subject text = r.avro_form schema text
shown r protobuf schema subject text = r.protobuf_form text schema subject
shown r _ schema subject text = text

blank_is_avro : (text : String) → is_blank text ≡ true → normalize_confluent_schema_type text ≡ avro
unfolding normalize_confluent_schema_type
blank_is_avro text h = rw h refl

empty_is_blank : is_blank "" ≡ true
unfolding trim_space trim_left trim_right
empty_is_blank = refl

pub format_of_lem :
    (ref : SchemaRef) (meta : SchemaMeta)
    → format_of (some ref) meta
      ≡ normalize_confluent_schema_type (first_non_empty ref.format meta.schema_type)
unfolding format_of first_non_empty
format_of_lem ref meta = elim (Bool-cases (is_blank ref.format)) [
  | inr given ↦ rw (given, format_of) refl
  | inl left_out ↦ elim (Bool-cases (is_blank meta.schema_type)) [
    | inr typed ↦ rw (left_out, typed, format_of) refl
    | inl untyped ↦
        rw (left_out, untyped, format_of)
          (blank_is_avro meta.schema_type untyped ∙ sym (blank_is_avro "" empty_is_blank))
  ]
]

pub lift_ok : {E A : Type 0} (m : Result E A) {a : A} → lift m ≡ ok a → m ≡ ok a
lift_ok (ok b) h = ground arith
lift_ok (err e) h = absurd (ground arith)

module _ {E : Type 0} (registry : Registry E) (codecs : Codecs E) where
  pub decode-encode_schema_payload :
      (r : Readable codecs) (format : Format) (schema subject : String) (text encoded : Bytes)
      → encode_schema_payload registry codecs text schema format subject ≡ ok encoded
      → decode_schema_payload registry codecs encoded schema format subject
        ≡ ok (shown r format schema subject text)
  unfolding encode_schema_payload decode_schema_payload
  decode-encode_schema_payload r avro schema subject text encoded h =
      ap lift (r.avro_reads schema text encoded (lift_ok _ h))
  decode-encode_schema_payload r json schema subject text encoded h =
      elim (Option-cases (codecs.json_schema text schema)) [
        | inl fits ↦
            let same : text ≡ encoded = ok_injective (rw (fits, json_checked) at h) in
            subst (λ t. json_checked registry codecs t schema ≡ ok text) same
              (rw (fits, json_checked) refl)
        | inr (e, bad) ↦ absurd (ground (arith, rw (bad, json_checked) at h))
      ]
  decode-encode_schema_payload r protobuf schema subject text encoded h =
      ap lift (r.protobuf_reads text schema subject encoded (lift_ok _ h))
  decode-encode_schema_payload r (unknown name) schema subject text encoded h =
      absurd (ground arith)

  decode_stripped :
      (format : Format) (meta : SchemaMeta) (payload rest decoded : Bytes)
      → without_indexes registry codecs format meta payload ≡ some rest
      → decode_schema_payload registry codecs rest meta.schema format meta.subject ≡ ok decoded
      → decode_payload registry codecs format meta payload ≡ ok decoded
  unfolding decode_payload
  decode_stripped format meta payload rest decoded found d =
      rw (found, decode_payload) (rw (d, decode_payload) refl)

  decode_whole :
      (format : Format) (meta : SchemaMeta) (payload decoded : Bytes)
      → without_indexes registry codecs format meta payload ≡ none
      → decode_schema_payload registry codecs payload meta.schema format meta.subject ≡ ok decoded
      → decode_payload registry codecs format meta payload ≡ ok decoded
  unfolding decode_payload
  decode_whole format meta payload decoded found d = rw (found, decode_payload) d

  stripped :
      (meta : SchemaMeta) (indexes : List ℤ) (rest : Bytes)
      → codecs.message_indexes meta.schema meta.subject ≡ ok indexes
      → without_indexes registry codecs protobuf meta
          (encode_protobuf_message_indexes indexes ++ rest)
        ≡ some rest
  unfolding without_indexes
  stripped meta indexes rest found =
      rw (found, without_indexes) (strip-encode_protobuf_message_indexes indexes rest)

  pub decode_payload-with_indexes :
      (format : Format) (meta : SchemaMeta) (encoded whole decoded : Bytes)
      → with_indexes registry codecs format meta meta.subject encoded ≡ ok whole
      → decode_schema_payload registry codecs encoded meta.schema format meta.subject ≡ ok decoded
      → decode_payload registry codecs format meta whole ≡ ok decoded
  unfolding with_indexes without_indexes
  decode_payload-with_indexes avro meta encoded whole decoded h d =
      subst (λ t. decode_payload registry codecs avro meta t ≡ ok decoded) (ok_injective h)
        (decode_whole avro meta encoded decoded refl d)
  decode_payload-with_indexes json meta encoded whole decoded h d =
      subst (λ t. decode_payload registry codecs json meta t ≡ ok decoded) (ok_injective h)
        (decode_whole json meta encoded decoded refl d)
  decode_payload-with_indexes (unknown name) meta encoded whole decoded h d =
      subst (λ t. decode_payload registry codecs (unknown name) meta t ≡ ok decoded)
        (ok_injective h) (decode_whole (unknown name) meta encoded decoded refl d)
  decode_payload-with_indexes protobuf meta encoded whole decoded h d =
      elim (Result-cases (codecs.message_indexes meta.schema meta.subject)) [
        | inl (e, failed) ↦ absurd (ground (arith, rw (failed, with_indexes) at h))
        | inr (indexes, found) ↦
            subst (λ t. decode_payload registry codecs protobuf meta t ≡ ok decoded)
              (ok_injective (rw (found, with_indexes) at h))
              (decode_stripped protobuf meta (encode_protobuf_message_indexes indexes ++ encoded)
                encoded decoded (stripped meta indexes encoded found) d)
      ]
