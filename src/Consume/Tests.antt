-- ===== src/Consume/Tests.antt =====
-- backend/internal/kafkaconn/messages.go: runs of a scan, of its filters and of paths into JSON values, on
-- small inputs.
use dbx_plugin_kafka.Base.{
  ℕ, ◌*◌, ◌^◌, ◌≤◌, ◌<◌, ◌≡◌, ◌↔◌, refl, String, Bool, true, false, none, some, List, [], ◌∷◌, map,
  length, length-take, take, keep_if, get_elem?, ◌==◌, nat_eq, string_eq, arith,
}
use dbx_plugin_kafka.Base.Int.{pos}
use dbx_plugin_kafka.Base.Dict.{lookup, insert}
use dbx_plugin_kafka.Base.Result.{Result, ok, err}
use dbx_plugin_kafka.Base.Strings.{
  trim_space, trim_left, trim_right, is_word, lower_codes, same_codes,
}
use dbx_plugin_kafka.Offsets.{consume_max_scan_records}
use dbx_plugin_kafka.Consume.{
  KafkaRecord, deadline, Fetches, ConsumeResult, Failure, panics, limit_of, next_partition_offset,
  consume_scan_batch_size, scan_record, scan_records, scan_loop, consume_messages,
}
use dbx_plugin_kafka.Consume.Records.{after_last}
use dbx_plugin_kafka.Consume.Ending.{reads}
use dbx_plugin_kafka.Consume.Answer.{
  consume_messages-ends, consume_messages_lem, consume_messages_skips,
}
use dbx_plugin_kafka.Consume.Filters.{
  ConsumeParams, GoText, normalize_match_mode, has_consume_filter, has_field_filters,
  validate_range, prefix,
}
use dbx_plugin_kafka.Consume.Filters.Match.{
  has_prefix, match, partition_allowed, record_matches, passes, field_filters_match,
  field_filters_need_value, wanted,
}
use dbx_plugin_kafka.Consume.Filters.Validate.{
  validate_field_filters, new_consume_text_matcher, validate_consume_params,
}
use dbx_plugin_kafka.Consume.JsonPath.{
  Json, text, array, object, no_items, item, no_entries, entry, key, index, index_value, digits,
  split_dot, parse_part, parse_parts, parse_json_path, at_path, json_value_string, json_path_value,
}
use dbx_plugin_kafka.Consume.Decode.{
  Codecs, from_base64, snappy, decode_consume_value, decompressed, decompress_payload,
  decompress_snappy, encode_base64_with_limit,
}
use dbx_plugin_kafka.Consume.Filters.Commit.{consume_messages-commit}

abbrev at : ℕ → String → KafkaRecord
at n v = record {
  topic = "t";
  partition = 0;
  offset = n;
  timestamp = pos 0;
  key = none;
  value = some v;
  headers = [];
}

abbrev log : List KafkaRecord
log = at 5 "alpha" ∷ at 6 "beta" ∷ at 7 "alps" ∷ at 8 "almond" ∷ []

-- One poll gives the log, and the time is over.
abbrev poll : ℕ → ℕ → Fetches String
poll round size = record { records = take size log; ended = deadline; expired = false }

abbrev go : GoText
go = record {
  lower = λ s. s;
  equal_fold = λ s t. s == t;
  regex = λ s. none;
  is_number = λ s. false;
  less = λ s t. false;
  less_eq = λ s t. false;
  format_int = λ n. "";
  unmarshal = λ s. none;
  marshal = λ v. "";
}

abbrev params : ConsumeParams
params = record {
  partitions = [];
  group_id = "g";
  commit = true;
  filter = "";
  key_filter = "";
  value_filter = " ";
  header_filter = "";
  match_mode = "";
  field_filters = [];
  timestamp_from = none;
  timestamp_to = none;
  offset_from = none;
  offset_to = none;
  max_scan_records = pos 0;
}

abbrev starts_al : KafkaRecord → Bool
starts_al r = wanted go (record params { value_filter = "al" }) prefix (λ k. k.value) r

abbrev two : ConsumeResult ℕ
two = record {
  messages = 5 ∷ 7 ∷ [];
  scanned = 4;
  matched = 3;
  limited = true;
  has_more = true;
  next_partition_offsets = (0, 9) ∷ [];
}

scanned : consume_messages starts_al (λ r. r.offset) poll (pos 2) (pos 0) none ≡ some (ok two)
unfolding consume_messages scan_loop limit_of consume_max_scan_records consume_scan_batch_size
    scan_records scan_record next_partition_offset lookup insert wanted record_matches passes match
    has_prefix partition_allowed field_filters_match field_filters_need_value trim_space trim_left
    trim_right
scanned = refl

consume_messages_lem_example :
    (sizes : List ℕ) × (two.messages
      ≡ map (λ r. r.offset) (take (limit_of (pos 2)) (keep_if starts_al (reads poll 0 sizes))))
    × (two.scanned ≡ length (reads poll 0 sizes))
    × (two.matched ≡ length (keep_if starts_al (reads poll 0 sizes)))
    × ((p : ℕ) → lookup p two.next_partition_offsets ≡ after_last p (reads poll 0 sizes))
consume_messages_lem_example =
    consume_messages_lem starts_al (λ r. r.offset) poll (pos 2) (pos 0) none two scanned

consume_messages_skips_example :
    (sizes : List ℕ) × (r : KafkaRecord) × (n : ℕ) × (get_elem?
        (keep_if starts_al (reads poll 0 sizes))
        (limit_of (pos 2))
      ≡ some r)
    × (two.messages
        ≡ map (λ k. k.offset) (take (limit_of (pos 2)) (keep_if starts_al (reads poll 0 sizes))))
    × (lookup r.partition two.next_partition_offsets ≡ some n)
    × (r.offset < n)
unfolding limit_of
consume_messages_skips_example =
    consume_messages_skips starts_al (λ k. k.offset) poll (pos 2) (pos 0) none two scanned
      (omega arith)

consume_messages-ends_example :
    ((consume_messages starts_al (λ r. r.offset) poll (pos 2) (pos 0) none ≡ some (err panics))
      ↔ (2 ^ 48 < limit_of (pos 2) * 176))
    × (outcome : Result (Failure String) (ConsumeResult ℕ)) × (consume_messages starts_al
          (λ r. r.offset)
          poll
          (pos 2)
          (pos 0)
          none
        ≡ some outcome)
    × ((result : ConsumeResult ℕ)
        → outcome ≡ ok result
        → (result.scanned ≤ consume_max_scan_records (limit_of (pos 2)) (pos 0))
          × (length result.messages ≤ limit_of (pos 2))
          × (result.has_more ≡ true))
consume_messages-ends_example =
    consume_messages-ends starts_al (λ r. r.offset) poll (pos 2) (pos 0) none
      (λ round size. omega (arith, length-take size log))
      (λ round size positive fine running. absurd (ground arith))

abbrev committed : ConsumeResult ℕ
committed = record {
  messages = 5 ∷ 6 ∷ [];
  scanned = 4;
  matched = 4;
  limited = true;
  has_more = true;
  next_partition_offsets = (0, 9) ∷ [];
}

commit_run :
    consume_messages
      (wanted go params prefix (λ r. r.value))
      (λ r. r.offset)
      poll
      (pos 2)
      (pos 0)
      none
    ≡ some (ok committed)
unfolding consume_messages scan_loop limit_of consume_max_scan_records consume_scan_batch_size
    scan_records scan_record next_partition_offset lookup insert wanted record_matches passes match
    has_prefix partition_allowed field_filters_match field_filters_need_value trim_space trim_left
    trim_right
commit_run = refl

valid : validate_consume_params go params ≡ none
unfolding validate_consume_params validate_range has_consume_filter has_field_filters
    validate_field_filters new_consume_text_matcher normalize_match_mode trim_space trim_left
    trim_right is_word lower_codes same_codes
valid = refl

consume_messages-commit_example :
    (sizes : List ℕ) × (committed.messages
      ≡ map (λ r. r.offset) (take (limit_of (pos 2)) (reads poll 0 sizes)))
    × (committed.scanned ≡ length (reads poll 0 sizes))
    × (committed.matched ≡ committed.scanned)
consume_messages-commit_example =
    consume_messages-commit go params prefix (λ r. r.value) (λ r. r.offset) poll (pos 2) none
      committed valid refl refl commit_run

tokens_of_path :
    parse_json_path " $.user.items[0][12]"
    ≡ some (key "user" ∷ key "items" ∷ index 0 ∷ index 12 ∷ [])
unfolding parse_json_path split_dot parse_parts parse_part index_value digits trim_space trim_left
    trim_right
tokens_of_path = refl

no_tokens_behind_brackets : parse_json_path "items[0]x" ≡ none
unfolding parse_json_path split_dot parse_parts parse_part index_value digits trim_space trim_left
    trim_right
no_tokens_behind_brackets = refl

abbrev items_ab : Json
items_ab = object (entry "items" (array (item (text "a") (item (text "b") no_items))) no_entries)

value_of_path : json_path_value (λ s. some items_ab) (λ v. "") (some "bytes") "items[1]" ≡ some "b"
unfolding json_path_value at_path json_value_string parse_json_path split_dot parse_parts parse_part
    index_value digits trim_space trim_left trim_right
value_of_path = refl

-- Of these codecs only base64 and the framed form of snappy are read.
abbrev codecs : Codecs
codecs = record {
  decode_base64 = λ bytes. ok (7 ∷ bytes);
  gzip_reader = λ bytes. err "gzip";
  lz4_reader = λ bytes. err "lz4";
  zstd_decoder = λ bytes. err "zstd";
  snappy_block = λ bytes. err "block";
  snappy_framed = λ bytes. ok (take 1 bytes);
  encode_base64 = λ bytes. "text";
}

framed_after_base64 :
    decode_consume_value codecs (1 ∷ 2 ∷ []) from_base64 snappy
    ≡ record { bytes = 7 ∷ []; decoded = true; error = "" }
unfolding decode_consume_value decompressed decompress_payload decompress_snappy
framed_after_base64 = refl

cut_text : encode_base64_with_limit codecs (1 ∷ 2 ∷ 3 ∷ []) 2 ≡ ("text", true)
unfolding encode_base64_with_limit
cut_text = refl

huge_limit :
    consume_messages starts_al (λ r. r.offset) poll (pos (2 ^ 60)) (pos 0) none ≡ some (err panics)
unfolding consume_messages limit_of
huge_limit = refl
