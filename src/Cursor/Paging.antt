-- ===== src/Cursor/Paging.antt =====
-- Reading a session from its first row to its last.
use dbx_plugin_kafka.Base.{
  ℕ, ◌+◌, ◌*◌, ◌≤◌, ◌<◌, ◌≡◌, sym, ap, ap₂, ◌∙◌, min, String, false, none, some, List, [], ◌∷◌,
  ◌++◌, lt→ltb, le→ltb, length, take, drop, All, arith, string_eq, beq_refl, contains,
  contains-append, length-drop, take-add, drop-add, take_clip, drop_clip, take_all,
}
use dbx_plugin_kafka.Base.Int.{ℤ, negsuc}
use dbx_plugin_kafka.Base.Dict.{lookup, lookup-insert}
use dbx_plugin_kafka.Lru.Laws.{append-InStep, contains-singleton}
use dbx_plugin_kafka.Lru.Recency.{evict_order_spares, used_after-append_self}
use dbx_plugin_kafka.Cursor.{
  CursorRow, CursorSession, CursorStore, NextRequest, page_size, start_offset, end_offset, evict,
  new_session, put, read_page, next_live, next, prune_locked, touch_locked,
}
use dbx_plugin_kafka.Cursor.Invariant.{Inv, read_page_within, prune_locked-Inv, pruned_fresh}

-- A request that goes on where the session stands.
abbrev pub more : ℤ → NextRequest
more n = record { n = n; offset = negsuc 0 }

start_offset_more :
    (session : CursorSession)
    → session.offset ≤ length session.rows
    → start_offset (negsuc 0) session ≡ session.offset
start_offset_more session within = ground arith

-- The end of a page, told by what is left of the rows.
end_offset_rest :
    (offset n : ℕ) (session : CursorSession)
    → offset ≤ length session.rows
    → end_offset offset n session ≡ offset + min n (length (drop offset session.rows))
end_offset_rest offset n session within = ground (arith, length-drop offset session.rows)

page_rows :
    (n : ℤ) (session : CursorSession)
    → session.offset ≤ length session.rows
    → (read_page (more n) session).rows ≡ take (page_size n) (drop session.offset session.rows)
unfolding read_page
page_rows n session within =
    rw
      (
        start_offset_more session within,
        end_offset_rest session.offset (page_size n) session within,
      )
      (ap (λ k. take k rest) {y = min (page_size n) (length rest)} (omega arith)
        ∙ take_clip (page_size n) rest)
  where
    rest : List CursorRow
    rest = drop session.offset session.rows

page_next :
    (n : ℤ) (session : CursorSession)
    → session.offset ≤ length session.rows
    → drop (read_page (more n) session).next_offset session.rows
      ≡ drop (page_size n) (drop session.offset session.rows)
unfolding read_page
page_next n session within =
    rw
      (
        start_offset_more session within,
        end_offset_rest session.offset (page_size n) session within,
      )
      (drop-add session.offset (min (page_size n) (length rest)) session.rows
        ∙ drop_clip (page_size n) rest)
  where
    rest : List CursorRow
    rest = drop session.offset session.rows

-- The rows that successive calls of `Next` hand out, one call at each of the times.
unfoldable pub read_on : String → ℤ → List ℕ → CursorStore → List CursorRow
read_on id n [] s = []
read_on id n (now ∷ times) s =
    let (s', result, _) = next id (more n) now s in
    (elim result [ none ↦ [] | some page ↦ page.rows ]) ++ read_on id n times s'

-- A call on a session that has not expired, told by the session.
pub next_of_live :
    (id : String) (req : NextRequest) (now : ℕ) (s : CursorStore) (session : CursorSession)
    → lookup id s.sessions ≡ some session
    → now < session.expires_at
    → next id req now s ≡ next_live id req session s
unfolding next
next_of_live id req now s session there live =
    rw (there, next) (rw (lt→ltb now session.expires_at live))

after_page : ℤ → CursorSession → CursorSession
after_page n session = record session { offset = (read_page (more n) session).next_offset }

pub lookup-next_live :
    (id : String) (req : NextRequest) (session : CursorSession) (s : CursorStore)
    → lookup id (next_live id req session s).0.sessions
      ≡ some (record session { offset = (read_page req session).next_offset })
unfolding next_live touch_locked
lookup-next_live id req session s = rw (lookup-insert, beq_refl id)

-- Pages in a row, from where a live session stands: together they are its next rows.
pub read_on_lem :
    (id : String) (n : ℤ) (times : List ℕ) (s : CursorStore) (session : CursorSession)
    → lookup id s.sessions ≡ some session
    → session.offset ≤ length session.rows
    → All (λ now. now < session.expires_at) times
    → read_on id n times s ≡ take (length times * page_size n) (drop session.offset session.rows)
unfolding read_on after_page next_live
read_on_lem id n [] s session there within live =
    ap (λ k. take k (drop session.offset session.rows)) {x = 0} (omega arith)
read_on_lem id n (now ∷ times) s session there within live =
    rw (next_of_live id (more n) now s session there live.0) (
      ap₂ ◌++◌ (page_rows n session within) (
        read_on_lem id n times (next_live id (more n) session s).0 (after_page n session)
          (lookup-next_live id (more n) session s) (read_page_within (more n) session) live.1
        ∙ ap (take (length times * page_size n)) (page_next n session within))
      ∙ sym (take-add (page_size n) (length times * page_size n) rest)
      ∙ ap (λ k. take k rest) {x = page_size n + length times * page_size n} (omega arith))
  where
    rest : List CursorRow
    rest = drop session.offset session.rows

-- The new session stands in the table right after `Put`.
pub lookup-put :
    (id : String) (rows : List CursorRow) (topic : String) (now : ℕ) (s : CursorStore)
    → Inv s
    → lookup id s.sessions ≡ none
    → lookup id (put id rows topic now s).0.sessions ≡ some (put id rows topic now s).1
unfolding put evict
lookup-put id rows topic now s h fresh =
    (evict_order_spares pruned.capacity _ id _
      (append-InStep pruned.sessions pruned.order id session (prune_locked-Inv now s h).in_step
        gone)
      (ground
        (arith, contains-append id pruned.order (id ∷ []), contains-singleton id id, beq_refl id))
      (ground (
        arith,
        used_after-append_self id pruned.order gone,
        (prune_locked-Inv now s h).has_room,
      ))).0
    ∙ rw (lookup-insert, beq_refl id)
  where
    pruned : CursorStore
    pruned = prune_locked now s

    session : CursorSession
    session = new_session id rows topic now pruned

    gone : contains id pruned.order ≡ false
    gone = pruned_fresh id now s fresh h

-- After `Put`, calls of `Next` before the session expires hand out its rows, each once and in order;
-- enough calls for the page size hand out all of them. The rows must fit the store's limit.
pub read_on-put :
    (id : String) (rows : List CursorRow) (topic : String) (now : ℕ) (n : ℤ) (times : List ℕ)
    (s : CursorStore)
    → Inv s
    → lookup id s.sessions ≡ none
    → length rows ≤ s.max_rows
    → All (λ t. t < now + s.ttl) times
    → length rows ≤ length times * page_size n
    → read_on id n times (put id rows topic now s).0 ≡ rows
unfolding put new_session prune_locked
read_on-put id rows topic now n times s h fresh fits live enough =
    read_on_lem id n times (put id rows topic now s).0 (put id rows topic now s).1
      (lookup-put id rows topic now s h fresh) (omega arith) live
    ∙ rw (le→ltb s.max_rows (length rows) fits) (take_all (length times * page_size n) rows enough)
