-- ===== src/Intent/Tests.antt =====
-- Runs of the intent table of backend/internal/mcp/intent.go on small inputs.
use dbx_plugin_kafka.Base.{◌≡◌, none, some, List, [], ◌∷◌, string_eq}
use dbx_plugin_kafka.Base.Int.{pos}
use dbx_plugin_kafka.Intent.{
  IntentStore, applied, new_intent_store, new_intent, register, report, get, found,
}
use dbx_plugin_kafka.Intent.Laws.{Inv, Call, registers, reports, gets, run, history-Inv}
use dbx_plugin_kafka.Intent.Lifecycle.{outcome, get-report-register}

abbrev small_store : IntentStore
small_store = new_intent_store (pos 100) (pos 2)

abbrev calls : List Call
calls =
    registers "i-a" "search" [] 0
    ∷ registers "i-b" "focus" [] 1
    ∷ registers "i-a" "search" [] 2
    ∷ registers "i-c" "select" [] 3
    ∷ reports "i-b" applied none "" 4
    ∷ gets "i-a" 200
    ∷ []

history-Inv_example : Inv (run calls small_store)
history-Inv_example = history-Inv (pos 100) (pos 2) calls

abbrev reported_store : IntentStore
reported_store =
    (report "i-a" applied (some []) "done" 50 (register "i-a" "search" [] 0 small_store).0).0

get-report-register_example : outcome (get "i-a" 70 reported_store) ≡ (
  some (record (new_intent "i-a" "search" [] 100) {
    state = applied;
    summary = some [];
    reason = "done";
  }),
  found,
)
unfolding new_intent_store run
get-report-register_example =
    get-report-register "i-a" "search" [] applied (some []) "done" 0 50 70 small_store
      (history-Inv (pos 100) (pos 2) [])
