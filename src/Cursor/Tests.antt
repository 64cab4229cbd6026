-- ===== src/Cursor/Tests.antt =====
-- Runs of the session table of backend/internal/mcp/cursor.go on small inputs.
use dbx_plugin_kafka.Base.{ℕ, ◌≡◌, ◌≢◌, refl, String, List, [], ◌∷◌, arith, string_eq, remove_first}
use dbx_plugin_kafka.Base.Int.{pos}
use dbx_plugin_kafka.Base.Dict.{lookup, insert, delete}
use dbx_plugin_kafka.Lru.{prune_order, evict_order, touch_order}
use dbx_plugin_kafka.Cursor.{
  CursorRow, CursorStore, new_cursor_store, new_session, put, next, prune_locked, evict, next_live,
  touch_locked,
}
use dbx_plugin_kafka.Cursor.Invariant.{Inv, new_cursor_store-Inv, put-Inv}
use dbx_plugin_kafka.Cursor.Paging.{read_on, read_on-put, more}
use dbx_plugin_kafka.Cursor.Recency.{NewDigest, put_all, next_then_put_spares}
use dbx_plugin_kafka.Cursor.History.{Call, puts, nexts, sets_capacity, run, step, run-Inv}

abbrev row : ℕ → CursorRow
row n = record { topic = "orders"; partition = pos 0; offset = pos n; key = ""; fields = [] }

abbrev three_rows : List CursorRow
three_rows = row 7 ∷ row 8 ∷ row 9 ∷ []

abbrev small_store : CursorStore
small_store = new_cursor_store (pos 100) (pos 2) (pos 50)

abbrev calls : List Call
calls =
    puts "cur-a" three_rows "orders" 0
    ∷ puts "cur-b" [] "orders" 1
    ∷ nexts "cur-a" (more (pos 2)) 2
    ∷ puts "cur-c" [] "orders" 3
    ∷ sets_capacity (pos 1)
    ∷ []

small_store-Inv : Inv small_store
small_store-Inv = new_cursor_store-Inv (pos 100) (pos 2) (pos 50)

run-Inv_example : Inv (run calls small_store)
unfolding new_cursor_store step put next next_live prune_locked evict touch_locked lookup insert
    delete prune_order evict_order touch_order remove_first new_session
run-Inv_example = run-Inv (pos 100) (pos 2) (pos 50) calls (refl, (refl, (tt, (refl, (tt, tt)))))

read_on-put_example :
    read_on "cur-a" (pos 2) (5 ∷ 60 ∷ []) (put "cur-a" three_rows "orders" 0 small_store).0
    ≡ three_rows
unfolding new_cursor_store lookup
read_on-put_example =
    read_on-put "cur-a" three_rows "orders" 0 (pos 2) (5 ∷ 60 ∷ []) small_store small_store-Inv refl
      (omega arith) (omega arith) (omega arith)

abbrev one_session : CursorStore
one_session = (put "cur-a" three_rows "orders" 0 small_store).0

one_session-Inv : Inv one_session
unfolding new_cursor_store lookup
one_session-Inv = put-Inv "cur-a" three_rows "orders" 0 small_store refl small_store-Inv

abbrev newer : NewDigest
newer = record { id = "cur-b"; rows = []; topic = "billing"; now = 9 }

abbrev read_session : CursorStore
read_session = (next "cur-a" (more (pos 2)) 5 one_session).0

other_id : ◌≢◌ {A = String} "cur-b" "cur-a"
other_id = ground (arith, string_eq.same_iff "cur-b" "cur-a")

next_then_put_spares_example :
    lookup "cur-a" (put_all (newer ∷ []) read_session).sessions
    ≡ lookup "cur-a" read_session.sessions
unfolding new_cursor_store new_session put next next_live prune_locked evict touch_locked lookup
    insert prune_order evict_order
next_then_put_spares_example =
    next_then_put_spares "cur-a" (more (pos 2)) 5 (newer ∷ []) one_session
      (new_session "cur-a" three_rows "orders" 0 small_store) one_session-Inv refl (omega arith)
      (other_id, refl, omega arith, tt) (omega arith)
