-- ===== src/Consume/Filters/Validate.antt =====
-- backend/internal/kafkaconn/messages.go: the checks of a request, `validateConsumeParams`.
use dbx_plugin_kafka.Base.{
  String, Bool, true, false, ◌&&◌, ◌||◌, not, Option, none, some, List, [], ◌∷◌, if◌then◌else◌,
  nat_eq, string_eq,
}
use dbx_plugin_kafka.Base.Int.{is_neg}
use dbx_plugin_kafka.Base.Result.{Result, ok, err}
use dbx_plugin_kafka.Base.Strings.{trim_space}
use dbx_plugin_kafka.Consume.JsonPath.{parse_json_path}
use dbx_plugin_kafka.Consume.Filters.{
  ConsumeFieldFilter, ConsumeParams, GoText, MatchMode, regex, FieldOperator, gt, gte, lt, lte,
  unknown, FieldSource, value, key, normalize_match_mode, normalize_field_operator,
  normalize_field_source, is_blank, is_given, field_filter_enabled, has_consume_filter,
  validate_range, ParamsError, timestamp_range, offset_range, negative_max_scan, group_required,
  commit_with_filter, bad_source, bad_operator, bad_expression, not_numeric, bad_path, bad_mode,
  ◌or_else◌,
}

module _ (go : GoText) where
  abbrev compiles : String → Bool
  compiles query = is_blank query || is_given (go.regex (trim_space query))

  abbrev numeric : FieldOperator → Bool
  numeric gt = true
  numeric gte = true
  numeric lt = true
  numeric lte = true
  numeric _ = false

  abbrev is_regex : FieldOperator → Bool
  is_regex regex = true
  is_regex _ = false

  abbrev has_path : FieldSource → Bool
  has_path value = true
  has_path key = true
  has_path _ = false

  abbrev pub if_error : Bool → ParamsError → Option ParamsError
  if_error bad e = if bad then some e else none

  unfoldable pub validate_field_filter : ConsumeFieldFilter → Option ParamsError
  unfolding normalize_field_source normalize_field_operator field_filter_enabled parse_json_path
  validate_field_filter f =
      if not (field_filter_enabled f) then none else elim (normalize_field_source f.source) [
        | none ↦ some bad_source
        | some source ↦ elim (normalize_field_operator f.operator) [
          | unknown ↦ some bad_operator
          | operator ↦
              if_error (is_regex operator && not (compiles f.value)) bad_expression
              or_else if_error (numeric operator && not (go.is_number (trim_space f.value)))
                  not_numeric
              or_else if_error
                  (has_path source
                    && not (is_blank f.path)
                    && not (is_given (parse_json_path f.path)))
                  bad_path
        ]
      ]

  unfoldable pub validate_field_filters : List ConsumeFieldFilter → Option ParamsError
  unfolding validate_field_filter
  validate_field_filters [] = none
  validate_field_filters (f ∷ fs) = validate_field_filter f or_else validate_field_filters fs

  unfoldable pub field_queries_compile : List ConsumeFieldFilter → Bool
  unfolding field_filter_enabled normalize_field_operator
  field_queries_compile [] = true
  field_queries_compile (f ∷ fs) =
      (not (field_filter_enabled f)
        || not (is_regex (normalize_field_operator f.operator))
        || compiles f.value)
      && field_queries_compile fs

  -- The mode of the matcher; the expressions that it keeps are compiled again where they are used.
  unfoldable pub new_consume_text_matcher : ConsumeParams → Result ParamsError MatchMode
  unfolding normalize_match_mode field_queries_compile
  new_consume_text_matcher p = elim (normalize_match_mode p.match_mode) [
    | none ↦ err bad_mode
    | some mode ↦ elim mode [
      | regex ↦
          if compiles p.filter
            && compiles p.key_filter
            && compiles p.value_filter
            && compiles p.header_filter
            && field_queries_compile p.field_filters
          then ok regex
          else err bad_expression
      | other ↦ ok other
    ]
  ]

  abbrev error_of : Result ParamsError MatchMode → Option ParamsError
  error_of (ok mode) = none
  error_of (err e) = some e

  unfoldable pub validate_consume_params : ConsumeParams → Option ParamsError
  validate_consume_params p =
      validate_range p.timestamp_from p.timestamp_to timestamp_range
      or_else validate_range p.offset_from p.offset_to offset_range
      or_else if_error (is_neg p.max_scan_records) negative_max_scan
      or_else if_error (p.commit && is_blank p.group_id) group_required
      or_else if_error (p.commit && has_consume_filter p) commit_with_filter
      or_else validate_field_filters p.field_filters
      or_else error_of (new_consume_text_matcher p)
