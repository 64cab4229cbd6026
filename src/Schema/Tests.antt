-- ===== src/Schema/Tests.antt =====
-- Runs of the schema functions of backend/internal/kafkaconn/schema.go on small inputs.
use mathlib.Core.List.{Sublistᴰ}
use dbx_plugin_kafka.Base.{
  ℕ, ◌+◌, ◌≤◌, ◌≡◌, refl, sym, ap, subst, inr, String, none, some, List, [], ◌∷◌, length, All,
  string_eq, nat_eq, pair_eq,
}
use dbx_plugin_kafka.Base.Int.{pos}
use dbx_plugin_kafka.Base.Result.{Result, ok, err, ok_injective}
use dbx_plugin_kafka.Base.Strings.{
  trim_space, trim_left, trim_right, upper_codes, same_codes, is_capital_word,
}
use dbx_plugin_kafka.Schema.Lines.{
  replace_crlf, replace_cr, split_lf, split_schema_lines, join_lines, AllLack,
  split_schema_lines_lem,
}
use dbx_plugin_kafka.Schema.Diff.{
  equal, remove, add, modify, SchemaDiffSummary, SchemaDiffHunk, fill_row, fill, cell, rest_ops,
  walk, texts, join_diff_lines, run_of, past_run, add_hunk, merge, diff_ops, schema_text_diff,
}
use dbx_plugin_kafka.Schema.Diff.Edits.{side, Shows, diff_ops_lem}
use dbx_plugin_kafka.Schema.Diff.Hunks.{count, schema_text_diff-counts}
use dbx_plugin_kafka.Schema.Diff.Table.{kept, diff_ops-IsLongest}
use dbx_plugin_kafka.Schema.Frame.{
  Bytes, put_uint32, encode_wire_frame, uvarint_bytes, append_uvarint, append_indexes,
  encode_protobuf_message_indexes, uvarint_count, strip_rounds, strip_protobuf_message_indexes,
}
use dbx_plugin_kafka.Schema.Decoder.{
  SchemaMeta, SchemaRef, Codecs, Registry, info_of, normalize_confluent_schema_type,
  normalize_kafka_schema_format, first_non_empty, new_schema_meta_cache, get_schema,
  encode_schema_payload, with_indexes, encode_for_produce, format_of,
}
use dbx_plugin_kafka.Schema.Decoder.Payload.{Readable}
use dbx_plugin_kafka.Schema.Decoder.Journey.{produce_all, consume_all, consume_all-produce_all}

abbrev before : String
before = "a\r\nb\nc"

abbrev after : String
after = "a\nx\nc\ny"

abbrev before_lines : List String
before_lines = "a" ∷ "b" ∷ "c" ∷ []

abbrev after_lines : List String
after_lines = "a" ∷ "x" ∷ "c" ∷ "y" ∷ []

lines : split_schema_lines before ≡ before_lines
unfolding split_schema_lines split_lf replace_cr replace_crlf
lines = refl

abbrev hunks : List SchemaDiffHunk
hunks =
    record { kind = modify; path = 2; before = "b"; after = "x" }
    ∷ record { kind = add; path = 4; before = ""; after = "y" }
    ∷ []

abbrev summary : SchemaDiffSummary
summary = record { before_lines = 3; after_lines = 4; added = 2; removed = 1; unchanged = 2 }

diffed : schema_text_diff before after ≡ some (hunks, summary)
unfolding schema_text_diff diff_ops fill fill_row walk cell rest_ops merge add_hunk run_of past_run
    join_diff_lines texts join_lines split_schema_lines split_lf replace_cr replace_crlf
diffed = refl

split_schema_lines_lem_example :
    (join_lines (split_schema_lines before) ≡ replace_cr (replace_crlf before))
    × AllLack 10 (split_schema_lines before)
    × AllLack 13 (split_schema_lines before)
split_schema_lines_lem_example = split_schema_lines_lem before

diff_ops_lem_example :
    (side add (diff_ops before_lines after_lines) ≡ before_lines)
    × (side remove (diff_ops before_lines after_lines) ≡ after_lines)
    × All (Shows before_lines after_lines) (diff_ops before_lines after_lines)
diff_ops_lem_example = diff_ops_lem before_lines after_lines

schema_text_diff-counts_example :
    (hs : List SchemaDiffHunk) × (s : SchemaDiffSummary) × (schema_text_diff before after
      ≡ some (hs, s))
    × (s.before_lines ≡ length (split_schema_lines before))
    × (s.after_lines ≡ length (split_schema_lines after))
    × (s.unchanged + s.removed ≡ s.before_lines)
    × (s.unchanged + s.added ≡ s.after_lines)
    × (s.unchanged ≡ count equal (diff_ops (split_schema_lines before) (split_schema_lines after)))
schema_text_diff-counts_example = schema_text_diff-counts before after

diff_ops-IsLongest_example :
    Sublistᴰ (kept (diff_ops before_lines after_lines)) before_lines
    × Sublistᴰ (kept (diff_ops before_lines after_lines)) after_lines
    × ((common : List String)
        → Sublistᴰ common before_lines
        → Sublistᴰ common after_lines
        → length common ≤ length (kept (diff_ops before_lines after_lines)))
diff_ops-IsLongest_example = diff_ops-IsLongest before_lines after_lines

framed : encode_wire_frame (pos 258) (7 ∷ []) ≡ 0 ∷ 0 ∷ 0 ∷ 1 ∷ 2 ∷ 7 ∷ []
unfolding encode_wire_frame put_uint32
framed = refl

indexed :
    strip_protobuf_message_indexes (encode_protobuf_message_indexes (pos 300 ∷ pos 0 ∷ [])) (pos 2)
    ≡ some []
unfolding strip_protobuf_message_indexes strip_rounds uvarint_count encode_protobuf_message_indexes
    append_indexes append_uvarint uvarint_bytes
indexed = refl

-- The first byte goes.
abbrev unmarked : Bytes → Result ℕ Bytes
unmarked [] = err 400
unmarked (_ ∷ rest) = ok rest

-- A registry with one schema and codecs that mark the bytes.
abbrev order_meta : SchemaMeta
order_meta = record {
  subject = "order";
  version = pos 3;
  id = pos 9;
  schema = "message Order {}";
  schema_type = "PROTOBUF";
}

abbrev registry : Registry ℕ
registry = record {
  by_version = λ subject version. ok (record order_meta { subject = subject });
  by_id = λ id. err 404;
}

abbrev codecs : Codecs ℕ
codecs = record {
  avro_encode = λ schema text. ok (65 ∷ text);
  avro_decode = λ schema bytes. unmarked bytes;
  json_schema = λ text schema. none;
  protobuf_encode = λ text schema subject. ok (80 ∷ text);
  protobuf_decode = λ bytes schema subject. unmarked bytes;
  message_indexes = λ schema subject. ok (pos 1 ∷ pos 0 ∷ []);
}

unmarked_lem :
    (mark : ℕ) (text encoded : Bytes)
    → ◌≡◌ {A = Result ℕ Bytes} (ok (mark ∷ text)) (ok encoded)
    → unmarked encoded ≡ ok text
unmarked_lem mark text encoded h = subst (λ t. unmarked t ≡ ok text) (ok_injective h) refl

abbrev codec_lem : Readable codecs
codec_lem = record {
  avro_form = λ schema text. text;
  protobuf_form = λ text schema subject. text;
  avro_reads = λ schema text encoded h. unmarked_lem 65 text encoded h;
  protobuf_reads = λ text schema subject encoded h. unmarked_lem 80 text encoded h;
}

abbrev order_ref : SchemaRef
order_ref = record { subject = " order "; version = pos 0; format = "" }

abbrev frames : List Bytes
frames =
    (0 ∷ 0 ∷ 0 ∷ 0 ∷ 9 ∷ 1 ∷ 0 ∷ 80 ∷ 5 ∷ []) ∷ (0 ∷ 0 ∷ 0 ∷ 0 ∷ 9 ∷ 1 ∷ 0 ∷ 80 ∷ 6 ∷ 7 ∷ []) ∷ []

consume_all-produce_all_example :
    consume_all registry codecs (some order_ref) new_schema_meta_cache frames
    ≡ ok ((5 ∷ []), info_of order_meta) ∷ ok ((6 ∷ 7 ∷ []), info_of order_meta) ∷ []
unfolding produce_all encode_for_produce get_schema encode_schema_payload with_indexes
    normalize_confluent_schema_type normalize_kafka_schema_format first_non_empty format_of
    trim_space trim_left trim_right is_capital_word upper_codes same_codes encode_wire_frame
    put_uint32 encode_protobuf_message_indexes append_indexes append_uvarint uvarint_bytes
consume_all-produce_all_example =
    consume_all-produce_all registry codecs order_ref order_meta refl codec_lem
      ((5 ∷ []) ∷ (6 ∷ 7 ∷ []) ∷ []) frames
      (λ subject version meta h. inr (ap (λ m. m.subject) (sym (ok_injective h)))) refl
