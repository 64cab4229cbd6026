-- ===== src/Cursor/Invariant.antt =====
-- What holds of the session table between two calls.
use dbx_plugin_kafka.Base.{
  ℕ, ◌≤◌, ◌<◌, ◌≡◌, refl, String, true, false, none, some, List, ltb→lt, length, arith, string_eq,
  contains, Bool-cases, Option-cases, inl, inr,
}
use dbx_plugin_kafka.Base.Int.{ℤ, pos_part, is_positive}
use dbx_plugin_kafka.Base.Dict.{AllAt, AllAt-insert, AllAt-delete, lookup}
use dbx_plugin_kafka.Lru.{touch_order}
use dbx_plugin_kafka.Lru.Laws.{
  InStep, prune_order-InStep, length-prune_order-le, lookup-prune_order, evict_order-InStep,
  length-evict_order-le, lookup-evict_order, append-InStep, update-InStep, remove-InStep,
  touch_order-InStep, length-touch_order, contains-prune_order, contains-touch_order,
  length-remove_first-le,
}
use dbx_plugin_kafka.Cursor.{
  CursorRow, CursorSession, CursorStore, NextRequest, new_cursor_store, is_live, prune_locked,
  evict, new_session, put, set_ttl, set_capacity, remove_locked, touch_locked, read_page, next_live,
  next,
}

-- A session stands under its own id, and its position is within its rows.
pub record IsSession (k : String) (session : CursorSession) : Type 0 where
  pub own_id : session.id ≡ k
  pub within : session.offset ≤ length session.rows

pub record Inv (s : CursorStore) : Type 0 where
  pub in_step : InStep s.sessions s.order
  pub has_room : 0 < s.capacity
  pub bounded : length s.order ≤ s.capacity
  pub sessions_valid : AllAt IsSession s.sessions

pub new_cursor_store-Inv :
    (ttl capacity max_rows : ℤ) → Inv (new_cursor_store ttl capacity max_rows)
unfolding new_cursor_store lookup contains
new_cursor_store-Inv ttl capacity max_rows = record {
  in_step = record { distinct = tt; listed = λ k. refl };
  has_room = ground arith;
  bounded = omega arith;
  sessions_valid = λ k session e. cc;
}

pub prune_locked-Inv : (now : ℕ) (s : CursorStore) → Inv s → Inv (prune_locked now s)
unfolding prune_locked
prune_locked-Inv now s h = record {
  in_step = prune_order-InStep (is_live now) s.sessions s.order h.in_step;
  has_room = h.has_room;
  bounded = omega (arith, length-prune_order-le (is_live now) s.sessions s.order, h.bounded);
  sessions_valid = λ k session e.
      h.sessions_valid k session
        (ground (arith, lookup-prune_order (is_live now) s.sessions s.order k));
}

-- All of the invariant but the bound, which the eviction loop brings about.
evict-Inv :
    (s : CursorStore)
    → InStep s.sessions s.order
    → 0 < s.capacity
    → AllAt IsSession s.sessions
    → Inv (evict s)
unfolding evict
evict-Inv s in_step has_room valid = record {
  in_step = evict_order-InStep s.capacity s.sessions s.order in_step;
  has_room = has_room;
  bounded = length-evict_order-le s.capacity s.sessions s.order;
  sessions_valid = λ k session e.
      valid k session (ground (arith, lookup-evict_order s.capacity s.sessions s.order k in_step));
}

pub set_ttl-Inv : (ttl : ℤ) (s : CursorStore) → Inv s → Inv (set_ttl ttl s)
unfolding set_ttl
set_ttl-Inv ttl s h = elim (Bool-cases (is_positive ttl)) [
  | inl set ↦
      rw (set, set_ttl)
        (record {
          in_step = h.in_step;
          has_room = h.has_room;
          bounded = h.bounded;
          sessions_valid = h.sessions_valid;
        })
  | inr ignored ↦ rw (ignored, set_ttl) h
]

pub set_capacity-Inv : (capacity : ℤ) (s : CursorStore) → Inv s → Inv (set_capacity capacity s)
unfolding set_capacity
set_capacity-Inv capacity s h = elim (Bool-cases (is_positive capacity)) [
  | inl set ↦
      rw (set, set_capacity)
        (evict-Inv (record s { capacity = pos_part capacity }) h.in_step
          (ltb→lt 0 (pos_part capacity) set) h.sessions_valid)
  | inr ignored ↦ rw (ignored, set_capacity) h
]

new_session-IsSession :
    (id : String) (rows : List CursorRow) (topic : String) (now : ℕ) (s : CursorStore)
    → IsSession id (new_session id rows topic now s)
unfolding new_session
new_session-IsSession id rows topic now s = record { own_id = refl; within = omega arith }

-- Pruning brings no id in.
pub pruned_fresh :
    (id : String) (now : ℕ) (s : CursorStore)
    → lookup id s.sessions ≡ none
    → Inv s
    → contains id (prune_locked now s).order ≡ false
unfolding prune_locked
pruned_fresh id now s fresh h =
    ground (arith, contains-prune_order (is_live now) s.sessions s.order id, h.in_step.listed id)

pub put-Inv :
    (id : String) (rows : List CursorRow) (topic : String) (now : ℕ) (s : CursorStore)
    → lookup id s.sessions ≡ none
    → Inv s
    → Inv (put id rows topic now s).0
unfolding put
put-Inv id rows topic now s fresh h =
    evict-Inv _
      (append-InStep pruned.sessions pruned.order id _ v.in_step (pruned_fresh id now s fresh h))
      v.has_room
      (AllAt-insert IsSession id _ pruned.sessions (new_session-IsSession id rows topic now pruned)
        v.sessions_valid)
  where
    pruned : CursorStore
    pruned = prune_locked now s

    v : Inv pruned
    v = prune_locked-Inv now s h

pub read_page_within :
    (req : NextRequest) (session : CursorSession)
    → (read_page req session).next_offset ≤ length session.rows
unfolding read_page
read_page_within req session = ground arith

pub remove_locked-Inv : (id : String) (s : CursorStore) → Inv s → Inv (remove_locked id s)
unfolding remove_locked
remove_locked-Inv id s h = record {
  in_step = remove-InStep s.sessions s.order id h.in_step;
  has_room = h.has_room;
  bounded = omega (arith, length-remove_first-le id s.order, h.bounded);
  sessions_valid = AllAt-delete IsSession id s.sessions h.sessions_valid;
}

next_live-Inv :
    (id : String) (req : NextRequest) (session : CursorSession) (s : CursorStore)
    → lookup id s.sessions ≡ some session
    → Inv s
    → Inv (next_live id req session s).0
unfolding next_live touch_locked
next_live-Inv id req session s there h = record {
  in_step =
      update-InStep s.sessions (touch_order id s.order) id _
        (touch_order-InStep s.sessions s.order id h.in_step listed)
        (contains-touch_order id s.order);
  has_room = h.has_room;
  bounded = omega (arith, length-touch_order id s.order listed, h.bounded);
  sessions_valid =
      AllAt-insert IsSession id _ s.sessions
        (record {
          own_id = (h.sessions_valid id session there).own_id;
          within = read_page_within req session;
        })
        h.sessions_valid;
}
  where
    listed : contains id s.order ≡ true
    listed = ground (arith, h.in_step.listed id)

pub next-Inv :
    (id : String) (req : NextRequest) (now : ℕ) (s : CursorStore)
    → Inv s
    → Inv (next id req now s).0
unfolding next
next-Inv id req now s h = elim (Option-cases (lookup id s.sessions)) [
  | inl missing ↦ rw (missing, next) h
  | inr (session, there) ↦ elim (Bool-cases (is_live now session)) [
    | inl live ↦ rw (there, next) (rw live (next_live-Inv id req session s there h))
    | inr dead ↦ rw (there, next) (rw dead (remove_locked-Inv id s h))
  ]
]
