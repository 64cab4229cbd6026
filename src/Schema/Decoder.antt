-- ===== src/Schema/Decoder.antt =====
-- backend/internal/kafkaconn/schema.go: the value of a message encoded with a schema (`encodeForProduce`) and
-- decoded (`schemaDecoder.decode`), with the decoder's cache. The calls of the registry and the codecs of the
-- three formats are parameters. A subject holds no NUL, so a key of the cache is the pair of its two parts, 0
-- for `latest`; references and version ids of the registry's answer only pass through and are left out.
-- The name of an unknown format is kept as it came, without its capitals.
pub mod Payload
pub mod Metadata
pub mod Journey
use dbx_plugin_kafka.Base.{
  ℕ, ◌+◌, String, Bool, true, false, ◌&&◌, ◌||◌, not, Option, none, some, List, [], ◌∷◌, ◌++◌,
  length, if◌then◌else◌, leb, ◌==◌, Comparable, nat_eq, string_eq, pair_eq, ◌≡◌, ◌↔◌, arith, refl,
}
use dbx_plugin_kafka.Base.Int.{ℤ, pos, negsuc, is_positive, pos_part}
use dbx_plugin_kafka.Base.Dict.{Dict, lookup, insert}
use dbx_plugin_kafka.Base.Result.{Result, ok, err, ◌>>=◌}
use dbx_plugin_kafka.Base.Strings.{trim_space, is_capital_word}
use dbx_plugin_kafka.Schema.Frame.{
  Bytes, FrameError, encode_wire_frame, decode_wire_frame, encode_protobuf_message_indexes,
  strip_protobuf_message_indexes,
}

pub record SchemaMeta : Type 0 where
  pub subject : String
  pub version : ℤ
  pub id : ℤ
  pub schema : String
  pub schema_type : String

pub record SchemaRef : Type 0 where
  pub subject : String
  pub version : ℤ
  pub format : String

pub data Format : Type 0 where
  avro json protobuf : Format
  unknown : String → Format

abbrev pub is_protobuf : Format → Bool
is_protobuf protobuf = true
is_protobuf _ = false

abbrev pub is_blank : String → Bool
is_blank text = trim_space text == ""

-- `none` is the error.
unfoldable pub normalize_kafka_schema_format : String → Option Format
normalize_kafka_schema_format text =
    let name = trim_space text in
    if is_capital_word name "" || is_capital_word name "AVRO"
    then some avro
    else if is_capital_word name "JSON"
        || is_capital_word name "JSON_SCHEMA"
        || is_capital_word name "JSONSCHEMA"
    then some json
    else if is_capital_word name "PROTOBUF" || is_capital_word name "PROTO"
    then some protobuf
    else none

unfoldable pub normalize_confluent_schema_type : String → Format
unfolding normalize_kafka_schema_format
normalize_confluent_schema_type text =
    if is_blank text then avro else elim (normalize_kafka_schema_format text) [
      | none ↦ unknown (trim_space text)
      | some format ↦ format
    ]

-- `firstNonEmpty` of two texts.
unfoldable pub first_non_empty : String → String → String
first_non_empty a b = if not (is_blank a) then a else if not (is_blank b) then b else ""

-- A version that is not positive asks for the latest one.
unfoldable pub subject_version_key : String → ℤ → String × ℕ
subject_version_key subject version = (subject, pos_part version)

pub record SchemaMetaCache : Type 0 where
  pub by_id : Dict ℕ SchemaMeta
  pub by_subject_version : Dict (String × ℕ) SchemaMeta

unfoldable pub new_schema_meta_cache : SchemaMetaCache
new_schema_meta_cache = record { by_id = []; by_subject_version = [] }

unfoldable pub lookup_by_id : SchemaMetaCache → ℤ → Option SchemaMeta
lookup_by_id c id = if is_positive id then lookup (pos_part id) c.by_id else none

unfoldable pub lookup_by_subject_version : SchemaMetaCache → String → ℤ → Option SchemaMeta
unfolding subject_version_key
lookup_by_subject_version c subject version =
    if is_blank subject
    then none
    else lookup (subject_version_key subject version) c.by_subject_version

unfoldable pub store : SchemaMetaCache → SchemaMeta → SchemaMetaCache
unfolding subject_version_key
store c meta = if not (is_positive meta.id) then c else record {
  by_id = insert (pos_part meta.id) meta c.by_id;
  by_subject_version =
      if not (is_blank meta.subject) && is_positive meta.version
      then insert (subject_version_key meta.subject meta.version) meta c.by_subject_version
      else c.by_subject_version;
}

unfoldable pub store_subject_lookup : SchemaMetaCache → String → ℤ → SchemaMeta → SchemaMetaCache
unfolding subject_version_key
store_subject_lookup c subject version meta =
    if is_blank subject || not (is_positive meta.id) then c else record {
      by_id = insert (pos_part meta.id) meta c.by_id;
      by_subject_version = insert (subject_version_key subject version) meta c.by_subject_version;
    }

pub data SchemaError (E : Type 0) : Type 0 where
  frame : FrameError → SchemaError E
  subject_required bad_format : SchemaError E
  outside : E → SchemaError E

abbrev pub lift : {E A : Type 0} → Result E A → Result (SchemaError E) A
lift (ok a) = ok a
lift (err e) = err (outside e)

-- The codecs: of Avro by schema and bytes, the validation of a JSON text against a schema (`none` if it fits),
-- those of Protobuf by bytes, schema and subject, and the path of the message that the subject selects.
pub record Codecs (E : Type 0) : Type 0 where
  pub avro_encode : String → Bytes → Result E Bytes
  pub avro_decode : String → Bytes → Result E Bytes
  pub json_schema : Bytes → String → Option E
  pub protobuf_encode : Bytes → String → String → Result E Bytes
  pub protobuf_decode : Bytes → String → String → Result E Bytes
  pub message_indexes : String → String → Result E (List ℤ)

-- The answers of the registry to a subject and a version, and to an id.
pub record Registry (E : Type 0) : Type 0 where
  pub by_version : String → ℤ → Result E SchemaMeta
  pub by_id : ℤ → Result E SchemaMeta

pub record SchemaValueInfo : Type 0 where
  pub id : ℤ
  pub subject : String
  pub version : ℤ

abbrev pub info_of : SchemaMeta → SchemaValueInfo
info_of meta = record { id = meta.id; subject = meta.subject; version = meta.version }

abbrev pub with_wire_id : SchemaMeta → ℕ → SchemaMeta
with_wire_id meta schema_id = elim meta.id [
  | pos n ↦ if n == 0 then record meta { id = pos schema_id } else meta
  | negsuc n ↦ meta
]

unfoldable pub format_of : Option SchemaRef → SchemaMeta → Format
format_of none meta = normalize_confluent_schema_type meta.schema_type
format_of (some req) meta =
    if is_blank req.format
    then normalize_confluent_schema_type meta.schema_type
    else normalize_confluent_schema_type req.format

module _ {E : Type 0} (registry : Registry E) (codecs : Codecs E) where
  unfoldable pub get_schema : String → ℤ → Result (SchemaError E) SchemaMeta
  get_schema subject version = lift (registry.by_version subject version) >>= λ meta.
      ok (if meta.subject == "" then record meta { subject = subject } else meta)

  unfoldable pub get_schema_by_id : ℤ → Result (SchemaError E) SchemaMeta
  get_schema_by_id id = lift (registry.by_id id) >>= λ meta. ok (record meta { id = id })

  abbrev pub json_checked : Bytes → String → Result (SchemaError E) Bytes
  json_checked text schema = elim (codecs.json_schema text schema) [
    | none ↦ ok text
    | some e ↦ err (outside e)
  ]

  unfoldable pub encode_schema_payload :
      Bytes → String → Format → String → Result (SchemaError E) Bytes
  encode_schema_payload text schema avro subject = lift (codecs.avro_encode schema text)
  encode_schema_payload text schema json subject = json_checked text schema
  encode_schema_payload text schema protobuf subject =
      lift (codecs.protobuf_encode text schema subject)
  encode_schema_payload text schema (unknown name) subject = err bad_format

  unfoldable pub decode_schema_payload :
      Bytes → String → Format → String → Result (SchemaError E) Bytes
  decode_schema_payload payload schema avro subject = lift (codecs.avro_decode schema payload)
  decode_schema_payload payload schema json subject = json_checked payload schema
  decode_schema_payload payload schema protobuf subject =
      lift (codecs.protobuf_decode payload schema subject)
  decode_schema_payload payload schema (unknown name) subject = err bad_format

  unfoldable pub with_indexes : Format → SchemaMeta → String → Bytes → Result (SchemaError E) Bytes
  with_indexes protobuf meta subject encoded =
      lift (codecs.message_indexes meta.schema subject) >>= λ indexes.
      ok (encode_protobuf_message_indexes indexes ++ encoded)
  with_indexes format meta subject encoded = ok encoded

  -- Also the information that goes beside the bytes; its format is the one given to the codec.
  unfoldable pub encode_for_produce :
      SchemaRef → Bytes → Result (SchemaError E) (Bytes × SchemaValueInfo × Format)
  unfolding get_schema encode_schema_payload with_indexes normalize_confluent_schema_type
      first_non_empty
  encode_for_produce ref payload =
      let subject = trim_space ref.subject in
      if subject == ""
      then err subject_required
      else (get_schema subject ref.version >>= λ meta.
          let format =
            normalize_confluent_schema_type (first_non_empty ref.format meta.schema_type) in
          encode_schema_payload payload meta.schema format subject >>= λ encoded.
          with_indexes format meta subject encoded >>= λ whole.
          ok (encode_wire_frame meta.id whole, info_of meta, format))

  -- The metadata of the request's subject, or else of the id in the frame, and the cache after that.
  unfoldable pub find_by_subject :
      SchemaMetaCache → String → ℤ → ℕ → SchemaMetaCache × Result (SchemaError E) SchemaMeta
  unfolding get_schema
  find_by_subject c subject version schema_id = elim (lookup_by_subject_version c subject version) [
    | some cached ↦ (c, ok cached)
    | none ↦ elim (get_schema subject version) [
      | err e ↦ (c, err e)
      | ok found ↦
          let meta = with_wire_id found schema_id in
          (store_subject_lookup c subject version meta, ok meta)
    ]
  ]

  unfoldable pub find_by_id :
      SchemaMetaCache → ℕ → SchemaMetaCache × Result (SchemaError E) SchemaMeta
  unfolding get_schema_by_id
  find_by_id c schema_id = elim (lookup_by_id c (pos schema_id)) [
    | some cached ↦ (c, ok cached)
    | none ↦ elim (get_schema_by_id (pos schema_id)) [
      | err e ↦ (c, err e)
      | ok meta ↦ (store c meta, ok meta)
    ]
  ]

  unfoldable pub find_meta :
      Option SchemaRef → SchemaMetaCache → ℕ → SchemaMetaCache × Result (SchemaError E) SchemaMeta
  unfolding find_by_subject find_by_id
  find_meta none c schema_id = find_by_id c schema_id
  find_meta (some req) c schema_id =
      if is_blank req.subject
      then find_by_id c schema_id
      else find_by_subject c (trim_space req.subject) req.version schema_id

  unfoldable pub without_indexes : Format → SchemaMeta → Bytes → Option Bytes
  without_indexes protobuf meta payload = elim (codecs.message_indexes meta.schema meta.subject) [
    | err e ↦ none
    | ok indexes ↦ strip_protobuf_message_indexes payload (pos (length indexes))
  ]
  without_indexes format meta payload = none

  -- A payload that fails without its front is tried once more with it.
  unfoldable pub decode_payload : Format → SchemaMeta → Bytes → Result (SchemaError E) Bytes
  unfolding without_indexes decode_schema_payload
  decode_payload format meta payload =
      let whole = decode_schema_payload payload meta.schema format meta.subject in
      elim (without_indexes format meta payload) [
        | none ↦ whole
        | some rest ↦ elim (decode_schema_payload rest meta.schema format meta.subject) [
          | ok decoded ↦ ok decoded
          | err e ↦ elim whole [ ok decoded ↦ ok decoded | err _ ↦ err e ]
        ]
      ]

  abbrev decode_found :
      Option SchemaRef
      → Bytes
      → SchemaMetaCache × Result (SchemaError E) SchemaMeta
      → SchemaMetaCache × Result (SchemaError E) (Bytes × SchemaValueInfo)
  unfolding decode_payload format_of
  decode_found req payload (c, err e) = (c, err e)
  decode_found req payload (c, ok meta) = (
    c,
    decode_payload (format_of req meta) meta payload >>= λ decoded. ok (decoded, info_of meta),
  )

  unfoldable pub decode :
      Option SchemaRef
      → SchemaMetaCache
      → Bytes
      → SchemaMetaCache × Result (SchemaError E) (Bytes × SchemaValueInfo)
  unfolding find_meta decode_found
  decode req c value = elim (decode_wire_frame value) [
    | err e ↦ (c, err (frame e))
    | ok (schema_id, payload) ↦ decode_found req payload (find_meta req c schema_id)
  ]
