-- ===== src/Confirm/Tests.antt =====
-- Runs of the token store of backend/internal/mcp/confirm.go on small inputs.
use mathlib.Core.List.{Memᴰ}
use dbx_plugin_kafka.Base.{ℕ, ◌+◌, ◌*◌, ◌≤◌, ◌<◌, ◌≡◌, refl, List, [], ◌∷◌, arith, string_eq}
use dbx_plugin_kafka.Base.Int.{pos, negsuc}
use dbx_plugin_kafka.Base.Dict.{lookup, insert, retain}
use dbx_plugin_kafka.Confirm.{
  ok, unknown, hash_mismatch, new_confirm_store, set_ttl, issue, consume,
}
use dbx_plugin_kafka.Confirm.Laws.{consume-issue, consume_twice}
use dbx_plugin_kafka.Confirm.History.{
  Call, issues, consumes, sets_ttl, step, run, granted, issued, granted-le-issued,
  consume_ok_was_issued,
}

abbrev calls : List Call
calls =
    issues "c-a1" "delete orders" 0
    ∷ issues "c-b2" "reset billing" 1000000000
    ∷ sets_ttl (negsuc 0)
    ∷ consumes "c-b2" "reset orders" 2000000000
    ∷ sets_ttl (pos 10000000000)
    ∷ []

abbrev replayed : List Call
replayed =
    consumes "c-a1" "delete orders" 5000000000 ∷ consumes "c-a1" "delete orders" 6000000000 ∷ []

granted_once : granted "c-a1" (issues "c-a1" "delete orders" 0 ∷ replayed) new_confirm_store ≡ 1
unfolding granted step new_confirm_store issue consume lookup insert retain
granted_once = refl

consume-issue_example :
    (consume "c-a1" "other" 5 (issue "c-a1" "delete orders" 0 new_confirm_store).0).1
    ≡ hash_mismatch
unfolding new_confirm_store
consume-issue_example = consume-issue "c-a1" "delete orders" "other" 0 5 new_confirm_store

consume_twice_example :
    (consume "c-a1" "x" 9 (consume "c-a1" "x" 5 (issue "c-a1" "x" 0 new_confirm_store).0).0).1
    ≡ unknown
consume_twice_example = consume_twice "c-a1" "x" "x" 5 9 (issue "c-a1" "x" 0 new_confirm_store).0

granted-le-issued_example : granted "c-a1" calls new_confirm_store ≤ 1
unfolding issued
granted-le-issued_example = granted-le-issued "c-a1" calls

consume_ok_was_issued_example :
    (n : ℕ) × Memᴰ (issues "c-a1" "delete orders" n) calls × (50000000000 < n + 60 * 1000000000)
unfolding run step new_confirm_store set_ttl issue consume lookup insert retain
consume_ok_was_issued_example =
    consume_ok_was_issued (60 * 1000000000) calls "c-a1" "delete orders" 50000000000 (omega arith)
      (omega arith) accepted
  where
    accepted : (consume "c-a1" "delete orders" 50000000000 (run calls new_confirm_store)).1 ≡ ok
    accepted = refl
