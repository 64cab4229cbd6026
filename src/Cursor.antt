-- ===== src/Cursor.antt =====
-- backend/internal/mcp/cursor.go: digest sessions that are read page by page. A method returns the new
-- store beside its result. Times are nanoseconds as plain numbers, the id of a new session is the text
-- that `newCursorID` drew, and the mutex is not modelled: every method runs under it from start to end.
-- A session is reached through its id only, so the pointers to sessions are values here.
pub mod Invariant
pub mod Paging
pub mod Recency
pub mod History
mod Tests
use dbx_plugin_kafka.Base.{
  ℕ, ◌+◌, ◌-◌, ◌*◌, String, Bool, true, false, Option, none, some, List, [], ◌∷◌, ◌++◌,
  if◌then◌else◌, ltb, leb, length, take, drop, string_eq, remove_first,
}
use dbx_plugin_kafka.Base.Int.{ℤ, pos_part, is_positive, is_neg}
use dbx_plugin_kafka.Base.Dict.{Dict, lookup, insert, delete}
use dbx_plugin_kafka.Lru.{prune_order, evict_order, touch_order}

pub record CursorRow : Type 0 where
  pub topic : String
  pub partition : ℤ
  pub offset : ℤ
  pub key : String
  pub fields : Dict String String

pub record CursorSession : Type 0 where
  pub id : String
  pub topic : String
  pub rows : List CursorRow
  pub truncated : Bool
  pub offset : ℕ
  pub expires_at : ℕ

pub record CursorStore : Type 0 where
  pub ttl : ℕ
  pub capacity : ℕ
  pub max_rows : ℕ
  pub sessions : Dict String CursorSession
  pub order : List String

abbrev positive_or : ℤ → ℕ → ℕ
positive_or x fallback = if is_positive x then pos_part x else fallback

-- The defaults are 10 minutes, 8 sessions and 10,000 rows.
unfoldable pub new_cursor_store : ℤ → ℤ → ℤ → CursorStore
new_cursor_store ttl capacity max_rows = record {
  ttl = positive_or ttl (600 * 1000000000);
  capacity = positive_or capacity 8;
  max_rows = positive_or max_rows 10000;
  sessions = [];
  order = [];
}

-- `now.Before(session.ExpiresAt)`
abbrev pub is_live : ℕ → CursorSession → Bool
is_live now session = ltb now session.expires_at

pub prune_locked : ℕ → CursorStore → CursorStore
prune_locked now s =
    let (sessions, order) = prune_order (is_live now) s.sessions s.order in
    record s { sessions = sessions; order = order }

-- The eviction loop of `Put` and `SetCapacity`.
unfoldable pub evict : CursorStore → CursorStore
evict s =
    let (sessions, order) = evict_order s.capacity s.sessions s.order in
    record s { sessions = sessions; order = order }

pub new_session : String → List CursorRow → String → ℕ → CursorStore → CursorSession
new_session id rows topic now s = record {
  id = id;
  topic = topic;
  rows = if ltb s.max_rows (length rows) then take s.max_rows rows else rows;
  truncated = ltb s.max_rows (length rows);
  offset = 0;
  expires_at = now + s.ttl;
}

pub put : String → List CursorRow → String → ℕ → CursorStore → CursorStore × CursorSession
put id rows topic now s =
    let pruned = prune_locked now s in
    let session = new_session id rows topic now pruned in
    (
      evict (record pruned {
        sessions = insert id session pruned.sessions;
        order = pruned.order ++ (id ∷ []);
      }),
      session,
    )

unfoldable pub set_ttl : ℤ → CursorStore → CursorStore
set_ttl ttl s = if is_positive ttl then record s { ttl = pos_part ttl } else s

unfoldable pub set_capacity : ℤ → CursorStore → CursorStore
set_capacity capacity s =
    if is_positive capacity then evict (record s { capacity = pos_part capacity }) else s

pub remove_locked : String → CursorStore → CursorStore
remove_locked id s = record s { sessions = delete id s.sessions; order = remove_first id s.order }

pub touch_locked : String → CursorStore → CursorStore
touch_locked id s = record s { order = touch_order id s.order }

-- `N` and `Offset` of the request; a negative offset goes on where the session stands.
pub record NextRequest : Type 0 where
  pub n : ℤ
  pub offset : ℤ

pub record NextResult : Type 0 where
  pub rows : List CursorRow
  pub offset : ℕ
  pub next_offset : ℕ
  pub done : Bool

pub data LookupStatus : Type 0 where
  found expired unknown : LookupStatus

-- 20 if not positive, and at most 20.
abbrev pub page_size : ℤ → ℕ
page_size n = if is_positive n then if ltb 20 (pos_part n) then 20 else pos_part n else 20

-- The smaller of the wanted offset and the number of rows.
abbrev pub start_offset : ℤ → CursorSession → ℕ
start_offset wanted session =
    let offset = if is_neg wanted then session.offset else pos_part wanted in
    if ltb (length session.rows) offset then length session.rows else offset

abbrev pub end_offset : ℕ → ℕ → CursorSession → ℕ
end_offset offset n session =
    if ltb (length session.rows) (offset + n) then length session.rows else offset + n

-- `session.Rows[offset:end]` with the position after it.
pub read_page : NextRequest → CursorSession → NextResult
read_page req session =
    let offset = start_offset req.offset session in
    let end = end_offset offset (page_size req.n) session in
    record {
      rows = take (end - offset) (drop offset session.rows);
      offset = offset;
      next_offset = end;
      done = leb (length session.rows) end;
    }

-- The branch of `Next` for a session that is found and has not expired.
pub next_live :
    String
    → NextRequest
    → CursorSession
    → CursorStore
    → CursorStore × Option NextResult × LookupStatus
next_live id req session s =
    let touched = touch_locked id s in
    let page = read_page req session in
    (
      record touched {
        sessions = insert id (record session { offset = page.next_offset }) touched.sessions;
      },
      some page,
      found,
    )

pub next : String → NextRequest → ℕ → CursorStore → CursorStore × Option NextResult × LookupStatus
unfolding next_live
next id req now s = elim (lookup id s.sessions) [
  | none ↦ (s, none, unknown)
  | some session ↦
      if is_live now session
      then next_live id req session s
      else (remove_locked id s, none, expired)
]
