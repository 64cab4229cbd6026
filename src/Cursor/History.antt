-- ===== src/Cursor/History.antt =====
-- The session table over any sequence of calls.
use dbx_plugin_kafka.Base.{ℕ, ◌≡◌, String, none, List, [], ◌∷◌, string_eq}
use dbx_plugin_kafka.Base.Int.{ℤ}
use dbx_plugin_kafka.Base.Dict.{lookup}
use dbx_plugin_kafka.Cursor.{
  CursorRow, CursorStore, NextRequest, new_cursor_store, put, set_ttl, set_capacity, next,
}
use dbx_plugin_kafka.Cursor.Invariant.{
  Inv, new_cursor_store-Inv, put-Inv, set_ttl-Inv, set_capacity-Inv, next-Inv,
}

pub data Call : Type 0 where
  puts : String → List CursorRow → String → ℕ → Call
  nexts : String → NextRequest → ℕ → Call
  sets_ttl : ℤ → Call
  sets_capacity : ℤ → Call

unfoldable pub step : Call → CursorStore → CursorStore
step (puts id rows topic now) s = (put id rows topic now s).0
step (nexts id req now) s = (next id req now s).0
step (sets_ttl ttl) s = set_ttl ttl s
step (sets_capacity capacity) s = set_capacity capacity s

unfoldable pub run : List Call → CursorStore → CursorStore
run [] s = s
run (c ∷ cs) s = run cs (step c s)

-- No id that `newCursorID` draws is one that the table holds.
abbrev pub IsFresh : Call → CursorStore → Type 0
IsFresh (puts id rows topic now) s = lookup id s.sessions ≡ none
IsFresh _ s = Unit

abbrev pub DrawsFresh : List Call → CursorStore → Type 0
DrawsFresh [] s = Unit
DrawsFresh (c ∷ cs) s = IsFresh c s × DrawsFresh cs (step c s)

step-Inv : (c : Call) (s : CursorStore) → IsFresh c s → Inv s → Inv (step c s)
unfolding step
step-Inv (puts id rows topic now) s fresh h = put-Inv id rows topic now s fresh h
step-Inv (nexts id req now) s fresh h = next-Inv id req now s h
step-Inv (sets_ttl ttl) s fresh h = set_ttl-Inv ttl s h
step-Inv (sets_capacity capacity) s fresh h = set_capacity-Inv capacity s h

run_from-Inv : (cs : List Call) (s : CursorStore) → DrawsFresh cs s → Inv s → Inv (run cs s)
unfolding run
run_from-Inv [] s fresh h = h
run_from-Inv (c ∷ cs) s fresh h = run_from-Inv cs (step c s) fresh.1 (step-Inv c s fresh.0 h)

-- After any calls on a new store whose ids are drawn fresh, the order lists the ids of the table once
-- each, there are at most `capacity` of them, and each session has its own id and a position within
-- its rows.
pub run-Inv :
    (ttl capacity max_rows : ℤ) (cs : List Call)
    → DrawsFresh cs (new_cursor_store ttl capacity max_rows)
    → Inv (run cs (new_cursor_store ttl capacity max_rows))
run-Inv ttl capacity max_rows cs fresh =
    run_from-Inv cs _ fresh (new_cursor_store-Inv ttl capacity max_rows)
