-- ===== src/Intent.antt =====
-- backend/internal/mcp/intent.go: the requests to the UI that wait for a report, and the last snapshot
-- of the UI's state. Times are nanoseconds as plain numbers; a JSON object is a text, which the table
-- only stores. The mutex is not modelled: every method runs under it from start to end.

pub mod Laws
pub mod Lifecycle
mod Tests
use dbx_plugin_kafka.Base.{
  ℕ, ◌+◌, ◌*◌, String, Bool, true, false, not, ◌||◌, Option, none, some, List, [], ◌∷◌, ◌++◌,
  if◌then◌else◌, ltb, string_eq, remove_first,
}
use dbx_plugin_kafka.Base.Int.{ℤ, pos_part, is_positive}
use dbx_plugin_kafka.Base.Dict.{Dict, lookup, insert, delete}
use dbx_plugin_kafka.Lru.{prune_order, evict_order}

-- A JSON object in the store's keeping.
abbrev pub Object : Type 0
Object = Dict String String

-- `other` is any text that a caller may pass besides the two that end an intent.
pub data IntentState : Type 0 where
  pending applied rejected other : IntentState

pub record Intent : Type 0 where
  pub id : String
  pub action : String
  pub params : Object
  pub state : IntentState
  pub summary : Option Object
  pub reason : String
  pub expires_at : ℕ

pub record IntentStore : Type 0 where
  pub ttl : ℕ
  pub capacity : ℕ
  pub items : Dict String Intent
  pub order : List String
  pub snapshot : Option Object

-- The defaults are 60 seconds and 20 intents.
pub new_intent_store : ℤ → ℤ → IntentStore
new_intent_store ttl capacity = record {
  ttl = if is_positive ttl then pos_part ttl else 60 * 1000000000;
  capacity = if is_positive capacity then pos_part capacity else 20;
  items = [];
  order = [];
  snapshot = none;
}

-- `now.Before(intent.ExpiresAt)`
abbrev pub is_live : ℕ → Intent → Bool
is_live now intent = ltb now intent.expires_at

pub prune_locked : ℕ → IntentStore → IntentStore
prune_locked now s =
    let (items, order) = prune_order (is_live now) s.items s.order in
    record s { items = items; order = order }

pub remove_locked : String → IntentStore → IntentStore
remove_locked id s = record s { items = delete id s.items; order = remove_first id s.order }

-- The eviction loop of `Register`.
pub evict : IntentStore → IntentStore
evict s =
    let (items, order) = evict_order s.capacity s.items s.order in
    record s { items = items; order = order }

-- An intent of that id makes way for the new one.
pub make_way : String → IntentStore → IntentStore
make_way id s = elim (lookup id s.items) [ none ↦ s | some _ ↦ remove_locked id s ]

pub new_intent : String → String → Object → ℕ → Intent
new_intent id action params expires_at = record {
  id = id;
  action = action;
  params = params;
  state = pending;
  summary = none;
  reason = "";
  expires_at = expires_at;
}

pub register : String → String → Object → ℕ → IntentStore → IntentStore × Intent
register id action params now s =
    let cleared = make_way id (prune_locked now s) in
    let intent = new_intent id action params (now + cleared.ttl) in
    (
      evict (record cleared {
        items = insert id intent cleared.items;
        order = cleared.order ++ (id ∷ []);
      }),
      intent,
    )

abbrev pub is_final : IntentState → Bool
is_final applied = true
is_final rejected = true
is_final _ = false

pub report : String → IntentState → Option Object → String → ℕ → IntentStore → IntentStore × Bool
report id state summary reason now s = elim (lookup id s.items) [
  | none ↦ (s, false)
  | some intent ↦
      if not (is_live now intent)
      then (remove_locked id s, false)
      else if not (is_final state)
      then (s, false)
      else (
        record s {
          items =
              insert id (record intent { state = state; summary = summary; reason = reason })
                s.items;
        },
        true,
      )
]

pub data LookupStatus : Type 0 where
  found expired unknown : LookupStatus

pub get : String → ℕ → IntentStore → IntentStore × Option Intent × LookupStatus
get id now s = elim (lookup id s.items) [
  | none ↦ (s, none, unknown)
  | some intent ↦
      if not (is_live now intent)
      then (remove_locked id s, none, expired)
      else (s, some intent, found)
]

-- A copy is a value, so a later change by the caller does not reach the store.
pub set_snapshot : Option Object → IntentStore → IntentStore
set_snapshot snapshot s = record s { snapshot = snapshot }
