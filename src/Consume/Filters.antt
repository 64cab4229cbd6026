-- ===== src/Consume/Filters.antt =====
-- backend/internal/kafkaconn/messages.go: which records a request wants (`validateConsumeParams`,
-- `recordMatches`, `fieldFiltersMatch`). Of Go's library the lower case of a text, the comparison without case, the regular
-- expressions, numbers and the reading and writing of JSON are parameters. The bytes of a key, a value and a header are
-- texts here.
pub mod Match
pub mod Validate
pub mod Commit
use Prim.Native.Char.{Char, code}
use Prim.Native.String.{[] as nil, ◌∷◌ as cons, ◌++◌ as cat}
use dbx_plugin_kafka.Base.{
  ℕ, String, Bool, true, false, ◌&&◌, ◌||◌, not, Option, none, some, List, [], ◌∷◌, if◌then◌else◌,
  ◌==◌, contains as holds, nat_eq, string_eq,
}
use dbx_plugin_kafka.Base.Int.{ℤ, pos, ltb_ℤ, is_neg}
use dbx_plugin_kafka.Base.Result.{Result, ok, err}
use dbx_plugin_kafka.Base.Strings.{trim_space, is_word}
use dbx_plugin_kafka.Consume.{KafkaRecord}
use dbx_plugin_kafka.Consume.JsonPath.{Json}

pub record ConsumeFieldFilter : Type 0 where
  pub source : String
  pub path : String
  pub operator : String
  pub value : String
  pub enabled : Option Bool

-- The parameters that the tests read.
pub record ConsumeParams : Type 0 where
  pub partitions : List ℕ
  pub group_id : String
  pub commit : Bool
  pub filter : String
  pub key_filter : String
  pub value_filter : String
  pub header_filter : String
  pub match_mode : String
  pub field_filters : List ConsumeFieldFilter
  pub timestamp_from : Option ℤ
  pub timestamp_to : Option ℤ
  pub offset_from : Option ℤ
  pub offset_to : Option ℤ
  pub max_scan_records : ℤ

-- `less` and `less_eq` hold only of two texts that are numbers, and `is_number` says which are. An expression that does not compile
-- is `none`, and so is a text that is no JSON.
pub record GoText : Type 0 where
  pub lower : String → String
  pub equal_fold : String → String → Bool
  pub regex : String → Option (String → Bool)
  pub is_number : String → Bool
  pub less : String → String → Bool
  pub less_eq : String → String → Bool
  pub format_int : ℤ → String
  pub unmarshal : String → Option Json
  pub marshal : Json → String

pub data MatchMode : Type 0 where
  contains prefix exact regex : MatchMode

unfoldable pub normalize_match_mode : String → Option MatchMode
normalize_match_mode mode =
    let name = trim_space mode in
    if is_word name "" || is_word name "contains"
    then some contains
    else if is_word name "prefix" || is_word name "starts_with" || is_word name "starts-with"
    then some prefix
    else if is_word name "exact" || is_word name "equals"
    then some exact
    else if is_word name "regex" || is_word name "regexp"
    then some regex
    else none

pub data FieldOperator : Type 0 where
  contains prefix exact regex exists not_exists gt gte lt lte unknown : FieldOperator

unfoldable pub normalize_field_operator : String → FieldOperator
normalize_field_operator operator =
    let name = trim_space operator in
    if is_word name "" || is_word name "contains"
    then contains
    else if is_word name "prefix" || is_word name "starts_with" || is_word name "starts-with"
    then prefix
    else if is_word name "exact" || is_word name "equals" || is_word name "eq"
    then exact
    else if is_word name "regexp" || is_word name "regex"
    then regex
    else if is_word name "not_exists" || is_word name "not-exists" || is_word name "missing"
    then not_exists
    else if is_word name "exists"
    then exists
    else if is_word name ">" || is_word name "gt"
    then gt
    else if is_word name ">=" || is_word name "gte"
    then gte
    else if is_word name "<" || is_word name "lt"
    then lt
    else if is_word name "<=" || is_word name "lte"
    then lte
    else unknown

pub data FieldSource : Type 0 where
  value key header topic partition offset timestamp : FieldSource

unfoldable pub normalize_field_source : String → Option FieldSource
normalize_field_source source =
    let name = trim_space source in
    if is_word name "" || is_word name "value" || is_word name "payload" || is_word name "message"
    then some value
    else if is_word name "key"
    then some key
    else if is_word name "header" || is_word name "headers"
    then some header
    else if is_word name "topic"
    then some topic
    else if is_word name "partition"
    then some partition
    else if is_word name "offset"
    then some offset
    else if is_word name "timestamp"
    then some timestamp
    else none

abbrev pub is_blank : String → Bool
is_blank text = trim_space text == ""

unfoldable pub field_filter_enabled : ConsumeFieldFilter → Bool
field_filter_enabled f = elim f.enabled [ none ↦ true | some on ↦ on ]

unfoldable pub has_field_filters : List ConsumeFieldFilter → Bool
unfolding field_filter_enabled
has_field_filters [] = false
has_field_filters (f ∷ fs) = field_filter_enabled f || has_field_filters fs

abbrev pub is_given : {A : Type 0} → Option A → Bool
is_given none = false
is_given (some a) = true

unfoldable pub has_consume_filter : ConsumeParams → Bool
unfolding has_field_filters
has_consume_filter p =
    not (is_blank p.filter)
    || not (is_blank p.key_filter)
    || not (is_blank p.value_filter)
    || not (is_blank p.header_filter)
    || has_field_filters p.field_filters
    || is_given p.timestamp_from
    || is_given p.timestamp_to
    || is_given p.offset_from
    || is_given p.offset_to

pub data ParamsError : Type 0 where
  timestamp_range offset_range negative_max_scan group_required commit_with_filter : ParamsError
  bad_source bad_operator bad_expression not_numeric bad_path bad_mode : ParamsError

-- `none` is no error.
unfoldable pub validate_range : Option ℤ → Option ℤ → ParamsError → Option ParamsError
validate_range (some lo) (some hi) e = if ltb_ℤ hi lo then some e else none
validate_range _ _ e = none

-- The first error of a chain of checks.
infixr 20 ◌or_else◌
abbrev pub ◌or_else◌ : Option ParamsError → Option ParamsError → Option ParamsError
none or_else e = e
(some e) or_else _ = some e
