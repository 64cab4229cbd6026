-- ===== src/Gate.antt =====
-- backend/internal/mcp/server.go (`topicsDelete`, `groupsOffsetsReset`, `topicsRecordsClear`, `twoPhase`):
-- the write tools, each of them behind the connection's policy and a one-time token. An argument is
-- `none` where the request lacks it or has `null`; a text of the wrong type arrives as the empty one.
-- An element of a list that is no text is `none`, and a value that is no list has no elements.
-- How `parsePartitionOffsets` and `coerceInt64` read JSON is not modelled: their results are arguments, with
-- `none` for an error. The text of `HashParams(json.Marshal(req))` is a parameter `hash`.
pub mod Confirmations
pub mod Refusals
pub mod Deletion
mod Tests
use dbx_plugin_kafka.Base.{
  ℕ, String, Bool, true, false, not, ◌||◌, Option, none, some, List, [], ◌∷◌, map, if◌then◌else◌,
  ◌==◌, nat_eq, string_eq,
}
use dbx_plugin_kafka.Base.Int.{ℤ, pos, is_positive}
use dbx_plugin_kafka.Base.Dict.{Dict}
use dbx_plugin_kafka.Base.Result.{Result, ok, err, ◌>>=◌}
use dbx_plugin_kafka.Base.Strings.{trim_space, is_word}
use dbx_plugin_kafka.Confirm
use dbx_plugin_kafka.Confirm.{ConfirmStore, ConfirmResult}
use dbx_plugin_kafka.Policy.{Profile}

pub record DeleteArgs : Type 0 where
  pub connection_id : String
  pub topics : List String
  pub confirm_topic : String
  pub confirm_topics : List String

pub record OffsetsResetArgs : Type 0 where
  pub connection_id : String
  pub group : String
  pub topics : List String
  pub reset_to : String
  pub timestamp_ms : ℤ
  pub partition_offsets : Dict String (Dict ℕ ℤ)

pub record ClearArgs : Type 0 where
  pub connection_id : String
  pub topic : String

-- What is previewed, hashed and executed.
pub data WriteRequest : Type 0 where
  delete_topics : DeleteArgs → WriteRequest
  reset_offsets : OffsetsResetArgs → WriteRequest
  clear_records : ClearArgs → WriteRequest

-- The arguments of the three tools, but for the token.
pub data WriteArgs : Type 0 where
  topics_delete : Option String → Option (List (Option String)) → WriteArgs
  groups_offsets_reset :
      Option String
      → Option String
      → Option String
      → List (Option String)
      → Option (Option ℤ)
      → Option (Dict String (Dict ℕ ℤ))
      → WriteArgs
  topics_records_clear : Option String → Option String → WriteArgs

pub data WriteError : Type 0 where
  missing : List String → WriteError
  is_required : String → WriteError
  read_only delete_not_allowed bad_timestamp bad_offsets bad_reset_to : WriteError

-- Nothing, or the error.
abbrev Check : Type 0
Check = Result {0, 0} WriteError Unit

abbrev is_present : {A : Type 0} → Option A → Bool
is_present none = false
is_present (some a) = true

abbrev value : Option String → String
value none = ""
value (some s) = s

-- The keys that are missing, in their order.
unfoldable pub missing_keys : List (String × Bool) → List String
missing_keys [] = []
missing_keys ((key, present) ∷ keys) =
    let rest = missing_keys keys in if present then rest else key ∷ rest

unfoldable pub missing_required : List (String × Bool) → Check
unfolding missing_keys
missing_required keys = elim (missing_keys keys) [
  | [] ↦ ok tt
  | key ∷ more ↦ err (missing (key ∷ more))
]

abbrev require : String → String → Check
require name text = if text == "" then err (is_required name) else ok tt

abbrev is_empty : {A : Type 0} → List A → Bool
is_empty [] = true
is_empty (_ ∷ _) = false

abbrev require_some : String → List String → Check
require_some name texts = if is_empty texts then err (is_required name) else ok tt

unfoldable pub ensure_writable : Profile → Check
ensure_writable p = if p.read_only then err read_only else ok tt

unfoldable pub ensure_delete_allowed : Profile → Check
ensure_delete_allowed p =
    if p.read_only
    then err read_only
    else if not p.allow_delete
    then err delete_not_allowed
    else ok tt

-- The topics are their own confirmation.
unfoldable pub delete_request : String → List String → DeleteArgs
delete_request connection_id (topic ∷ []) = record {
  connection_id = connection_id;
  topics = topic ∷ [];
  confirm_topic = topic;
  confirm_topics = [];
}
delete_request connection_id topics = record {
  connection_id = connection_id;
  topics = topics;
  confirm_topic = "";
  confirm_topics = topics;
}

abbrev list_value : {A : Type 0} → Option (List A) → List A
list_value none = []
list_value (some elements) = elements

-- The names without white space around them, and none that is blank.
unfoldable pub string_slice : List (Option String) → List String
string_slice [] = []
string_slice (none ∷ items) = string_slice items
string_slice (some text ∷ items) =
    let rest = string_slice items in if trim_space text == "" then rest else trim_space text ∷ rest

unfoldable pub check_topics_delete :
    Profile → Option String → Option (List (Option String)) → Result WriteError WriteRequest
unfolding missing_required ensure_delete_allowed delete_request string_slice
check_topics_delete p connection topics =
    let connection_id = trim_space (value connection) in
    missing_required (("connectionId", is_present connection) ∷ ("topics", is_present topics) ∷ [])
    >>= λ _. require "connectionId" connection_id >>= λ _.
        require_some "topics" (string_slice (list_value topics)) >>= λ _.
        ensure_delete_allowed p >>= λ _.
        ok (delete_topics (delete_request connection_id (string_slice (list_value topics))))

-- The `switch` of `validateResetRequest`.
pub data ResetMode : Type 0 where
  to_boundary to_timestamp to_partitions no_mode : ResetMode

unfoldable pub reset_mode : String → ResetMode
reset_mode text =
    if is_word text "earliest" || is_word text "latest"
    then to_boundary
    else if is_word text "timestamp"
    then to_timestamp
    else if is_word text "partitionoffset"
        || is_word text "partition_offset"
        || is_word text "partitionoffsets"
    then to_partitions
    else no_mode

unfoldable pub validate_mode : ResetMode → OffsetsResetArgs → Check
validate_mode to_boundary req = if is_empty req.topics then err (is_required "topics") else ok tt
validate_mode to_timestamp req =
    if is_empty req.topics
    then err (is_required "topics")
    else if is_positive req.timestamp_ms
    then ok tt
    else err (is_required "timestampMs")
validate_mode to_partitions req =
    if is_empty req.partition_offsets then err (is_required "partitionOffsets") else ok tt
validate_mode no_mode req = err bad_reset_to

unfoldable pub validate_reset_request : OffsetsResetArgs → Check
unfolding reset_mode validate_mode
validate_reset_request req = validate_mode (reset_mode req.reset_to) req

abbrev timestamp : Option (Option ℤ) → Result WriteError ℤ
timestamp none = ok (pos 0)
timestamp (some none) = err bad_timestamp
timestamp (some (some ms)) = ok ms

abbrev offsets : Option (Dict String (Dict ℕ ℤ)) → Result WriteError (Dict String (Dict ℕ ℤ))
offsets none = err bad_offsets
offsets (some parsed) = ok parsed

unfoldable pub check_offsets_reset :
    Profile
    → Option String
    → Option String
    → Option String
    → List (Option String)
    → Option (Option ℤ)
    → Option (Dict String (Dict ℕ ℤ))
    → Result WriteError WriteRequest
unfolding missing_required ensure_writable validate_reset_request string_slice
check_offsets_reset p connection group reset_to topics ms parsed =
    let connection_id = trim_space (value connection) in
    let group_id = trim_space (value group) in
    let mode = trim_space (value reset_to) in
    missing_required (
      ("connectionId", is_present connection)
      ∷ ("group", is_present group)
      ∷ ("resetTo", is_present reset_to)
      ∷ [])
    >>= λ _. require "connectionId" connection_id >>= λ _. require "group" group_id >>= λ _.
        ensure_writable p >>= λ _. timestamp ms >>= λ timestamp_ms. require "resetTo" mode >>= λ _.
        offsets parsed >>= λ partition_offsets.
        let req : OffsetsResetArgs = record {
          connection_id = connection_id;
          group = group_id;
          topics = string_slice topics;
          reset_to = mode;
          timestamp_ms = timestamp_ms;
          partition_offsets = partition_offsets;
        } in
        validate_reset_request req >>= λ _. ok (reset_offsets req)

unfoldable pub check_records_clear :
    Profile → Option String → Option String → Result WriteError WriteRequest
unfolding missing_required ensure_delete_allowed
check_records_clear p connection topic =
    let connection_id = trim_space (value connection) in
    let name = trim_space (value topic) in
    missing_required (("connectionId", is_present connection) ∷ ("topic", is_present topic) ∷ [])
    >>= λ _. require "connectionId" connection_id >>= λ _. require "topic" name >>= λ _.
        ensure_delete_allowed p >>= λ _.
        ok (clear_records (record { connection_id = connection_id; topic = name }))

unfoldable pub check : Profile → WriteArgs → Result WriteError WriteRequest
unfolding check_topics_delete check_offsets_reset check_records_clear
check p (topics_delete connection topics) = check_topics_delete p connection topics
check p (groups_offsets_reset connection group reset_to topics ms parsed) =
    check_offsets_reset p connection group reset_to topics ms parsed
check p (topics_records_clear connection topic) = check_records_clear p connection topic

-- A call of a tool: its arguments, the policy of the connection at that moment, the token that the
-- random source would draw, and the time.
pub record WriteCall : Type 0 where
  pub args : WriteArgs
  pub confirm_token : String
  pub profile : Profile
  pub drawn : String
  pub now : ℕ

pub data Outcome : Type 0 where
  refused : WriteError → Outcome
  -- the request, the token and the time it expires at
  preview : WriteRequest → String → ℕ → Outcome
  -- `execute` is called for the request
  executed : WriteRequest → Outcome
  token_expired arguments_changed token_unknown : Outcome

-- The `switch` on the verdict of `Consume`.
abbrev pub answer : WriteRequest → ConfirmResult → Outcome
answer req ConfirmResult.ok = executed req
answer req ConfirmResult.expired = token_expired
answer req ConfirmResult.hash_mismatch = arguments_changed
answer req ConfirmResult.unknown = token_unknown

module _ (hash : WriteRequest → String) where
  unfoldable pub two_phase : WriteRequest → WriteCall → ConfirmStore → ConfirmStore × Outcome
  two_phase req c s =
      let token = trim_space c.confirm_token in
      let issued = Confirm.issue c.drawn (hash req) c.now s in
      let consumed = Confirm.consume token (hash req) c.now s in
      if token == ""
      then (issued.0, preview req c.drawn issued.1)
      else (consumed.0, answer req consumed.1)

  unfoldable pub write : WriteCall → ConfirmStore → ConfirmStore × Outcome
  unfolding two_phase
  write c s = elim (check c.profile c.args) [ err e ↦ (s, refused e) | ok req ↦ two_phase req c s ]
