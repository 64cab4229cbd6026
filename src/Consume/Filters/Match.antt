-- ===== src/Consume/Filters/Match.antt =====
-- backend/internal/kafkaconn/messages.go: the tests on a record, `recordMatches` and `fieldFiltersMatch`.
use Prim.Native.Char.{code}
use Prim.Native.String.{[] as nil, ◌∷◌ as cons, ◌++◌ as cat}
use dbx_plugin_kafka.Base.{
  ℕ, String, Bool, true, false, ◌&&◌, ◌||◌, not, Option, none, some, List, [], ◌∷◌, if◌then◌else◌,
  ◌==◌, contains as holds, nat_eq, string_eq,
}
use dbx_plugin_kafka.Base.Int.{ℤ, pos, ltb_ℤ}
use dbx_plugin_kafka.Base.Strings.{trim_space}
use dbx_plugin_kafka.Consume.{KafkaRecord}
use dbx_plugin_kafka.Consume.JsonPath.{text_of, json_path_value}
use dbx_plugin_kafka.Consume.Filters.{
  ConsumeFieldFilter, ConsumeParams, GoText, MatchMode, prefix, exact, regex, FieldOperator, exists,
  not_exists, gt, gte, lt, lte, FieldSource, value, key, header, topic, partition, offset,
  timestamp, normalize_field_operator, normalize_field_source, is_blank, is_given,
  field_filter_enabled,
}

abbrev begins : String → String → Bool
begins text nil = true
begins nil (cons d word) = false
begins (cons c text) (cons d word) = code c == code d && begins text word

unfoldable pub has_prefix : String → String → Bool
has_prefix text word = begins text word

unfoldable pub contains_text : String → String → Bool
unfolding has_prefix
contains_text nil word = has_prefix nil word
contains_text (cons c text) word = has_prefix (cons c text) word || contains_text text word

-- `headersText`; a header with neither key nor value still writes its `=`.
unfoldable pub headers_text : List (String × String) → String
headers_text [] = ""
headers_text ((k, v) ∷ []) = cat k (cat "=" v)
headers_text ((k, v) ∷ h ∷ hs) = cat k (cat "=" (cat v (cat " " (headers_text (h ∷ hs)))))

-- The loop over the headers.
unfoldable pub named : List (String × String) → String → Option String
named [] path = none
named ((k, v) ∷ hs) path = if k == path then some v else named hs path

unfoldable pub header_path_value : List (String × String) → String → Option String
unfolding headers_text named
header_path_value headers path =
    if is_blank path || trim_space path == "$"
    then elim headers [ [] ↦ none | h ∷ hs ↦ some (headers_text (h ∷ hs)) ]
    else named headers path

unfoldable pub partition_allowed : List ℕ → ℕ → Bool
partition_allowed [] n = true
partition_allowed (p ∷ ps) n = holds n (p ∷ ps)

abbrev pub not_below : ℤ → Option ℤ → Bool
not_below n none = true
not_below n (some lo) = not (ltb_ℤ n lo)

abbrev pub not_above : ℤ → Option ℤ → Bool
not_above n none = true
not_above n (some hi) = not (ltb_ℤ hi n)

abbrev is_value : Option FieldSource → Bool
is_value (some value) = true
is_value _ = false

unfoldable pub field_filters_need_value : List ConsumeFieldFilter → Bool
unfolding field_filter_enabled normalize_field_source
field_filters_need_value [] = false
field_filters_need_value (f ∷ fs) =
    (field_filter_enabled f && is_value (normalize_field_source f.source))
    || field_filters_need_value fs

module _ (go : GoText) where
  unfoldable pub match : MatchMode → String → String → Bool
  unfolding has_prefix contains_text
  match mode text query =
      let word = trim_space query in
      if word == "" then true else elim mode [
        | prefix ↦ has_prefix (go.lower text) (go.lower word)
        | exact ↦ go.equal_fold text word
        | regex ↦ elim (go.regex word) [ none ↦ false | some test ↦ test text ]
        | MatchMode.contains ↦ contains_text (go.lower text) (go.lower word)
      ]

  unfoldable pub record_search_text : KafkaRecord → String
  unfolding headers_text
  record_search_text r = cat r.topic (
      cat " " (
        cat (go.format_int (pos r.partition)) (
          cat " " (
            cat (go.format_int (pos r.offset)) (
              cat " " (
                cat (go.format_int r.timestamp) (
                  cat " " (
                    cat (text_of r.key)
                      (cat " " (cat (text_of r.value) (cat " " (headers_text r.headers))))))))))))

  unfoldable pub passes : MatchMode → String → String → Bool
  unfolding match
  passes mode query text = is_blank query || match mode text (trim_space query)

  unfoldable pub record_matches : ConsumeParams → MatchMode → KafkaRecord → Bool
  record_matches p mode r =
      partition_allowed p.partitions r.partition
      && not_below r.timestamp p.timestamp_from
      && not_above r.timestamp p.timestamp_to
      && not_below (pos r.offset) p.offset_from
      && not_above (pos r.offset) p.offset_to
      && passes mode p.filter (record_search_text r)
      && passes mode p.key_filter (text_of r.key)
      && passes mode p.value_filter (text_of r.value)
      && passes mode p.header_filter (headers_text r.headers)

  unfoldable pub field_filter_value :
      ConsumeFieldFilter → KafkaRecord → Option String → Option String
  unfolding json_path_value header_path_value normalize_field_source
  field_filter_value f r decoded = elim (normalize_field_source f.source) [
    | none ↦ none
    | some source ↦ elim source [
      | key ↦ json_path_value go.unmarshal go.marshal r.key (trim_space f.path)
      | header ↦ header_path_value r.headers (trim_space f.path)
      | topic ↦ some r.topic
      | partition ↦ some (go.format_int (pos r.partition))
      | offset ↦ some (go.format_int (pos r.offset))
      | timestamp ↦ some (go.format_int r.timestamp)
      | value ↦ json_path_value go.unmarshal go.marshal decoded (trim_space f.path)
    ]
  ]

  unfoldable pub field_value_matches : String → String → FieldOperator → MatchMode → Bool
  unfolding match has_prefix
  field_value_matches text query operator mode =
      let word = trim_space query in
      elim operator [
        | prefix ↦ has_prefix (go.lower text) (go.lower word)
        | exact ↦ go.equal_fold text word
        | regex ↦
            if word == ""
            then true
            else elim (go.regex word) [ none ↦ false | some test ↦ test text ]
        | gt ↦ go.less word (trim_space text)
        | gte ↦ go.less_eq word (trim_space text)
        | lt ↦ go.less (trim_space text) word
        | lte ↦ go.less_eq (trim_space text) word
        | _ ↦ match mode text word
      ]

  unfoldable pub field_filter_matches :
      ConsumeFieldFilter → MatchMode → KafkaRecord → Option String → Bool
  unfolding field_filter_value field_value_matches normalize_field_operator
  field_filter_matches f mode r decoded = elim (normalize_field_operator f.operator) [
    | exists ↦ is_given (field_filter_value f r decoded)
    | not_exists ↦ not (is_given (field_filter_value f r decoded))
    | operator ↦ elim (field_filter_value f r decoded) [
      | none ↦ false
      | some text ↦ field_value_matches text f.value operator mode
    ]
  ]

  unfoldable pub field_filters_match :
      List ConsumeFieldFilter → MatchMode → KafkaRecord → Option String → Bool
  field_filters_match [] mode r decoded = true
  field_filters_match (f ∷ fs) mode r decoded =
      (not (field_filter_enabled f) || field_filter_matches f mode r decoded)
      && field_filters_match fs mode r decoded

  -- Both tests of the loop, where the value is decoded before the second if a filter needs it.
  unfoldable pub wanted :
      ConsumeParams → MatchMode → (KafkaRecord → Option String) → KafkaRecord → Bool
  wanted p mode decoded r =
      record_matches p mode r
      && field_filters_match p.field_filters mode r
          (if field_filters_need_value p.field_filters then decoded r else r.value)
