-- ===== src/Gate/Tests.antt =====
-- Runs of the write tools of backend/internal/mcp/server.go on small inputs.
use Prim.Native.String.{◌++◌ as concat}
use dbx_plugin_kafka.Base.{
  ℕ, ◌+◌, ◌*◌, ◌<◌, ◌≡◌, ◌↔◌, inr, refl, String, true, false, Option, none, some, List, [], ◌∷◌,
  contains, length, arith, string_eq,
}
use dbx_plugin_kafka.Base.Int.{pos}
use dbx_plugin_kafka.Base.Dict.{lookup, insert, delete, retain}
use dbx_plugin_kafka.Base.Result.{ok}
use dbx_plugin_kafka.Base.Strings.{trim_space, trim_left, trim_right}
use dbx_plugin_kafka.Confirm
use dbx_plugin_kafka.Confirm.{ConfirmStore, new_confirm_store}
use dbx_plugin_kafka.Policy.{normalize_from, normalize_topic_names, ensure_topic_delete_confirm}
use dbx_plugin_kafka.Gate.{
  WriteRequest, delete_topics, reset_offsets, clear_records, topics_delete, WriteError, WriteCall,
  executed, refused, check, check_topics_delete, missing_required, missing_keys,
  ensure_delete_allowed, delete_request, string_slice, two_phase, write,
}
use dbx_plugin_kafka.Gate.Confirmations.{
  Step, writes, configures, apply, serve, WasPreviewed, executed-WasPreviewed,
}
use dbx_plugin_kafka.Gate.Refusals.{Forbids, forbidden_refused}
use dbx_plugin_kafka.Gate.Deletion.{executed_request, topics_delete_confirmed}

-- A hash for the runs: the topics of a deletion, one after the other.
join : List String → String
join [] = ""
join (s ∷ ss) = concat s (join ss)

hash : WriteRequest → String
hash (delete_topics req) = join req.topics
hash (reset_offsets req) = req.group
hash (clear_records req) = req.topic

abbrev call : String → ℕ → WriteCall
call token now = record {
  args = topics_delete (some " dev ") (some (some " orders" ∷ some "" ∷ []));
  confirm_token = token;
  profile = record { read_only = false; allow_delete = true };
  drawn = "c-a1";
  now = now;
}

abbrev history : List Step
history = writes (call "" 5) ∷ configures (pos 90000000000) ∷ []

abbrev request : WriteRequest
request = delete_topics (delete_request "dev" ("orders" ∷ []))

executed-WasPreviewed_example :
    (check (call "c-a1 " 7).profile (call "c-a1 " 7).args ≡ ok request)
    × ((n : ℕ) × WasPreviewed hash (trim_space "c-a1 ") (hash request) n history
        × (7 < n + 600 * 1000000000))
unfolding hash join write two_phase check check_topics_delete missing_required missing_keys
    ensure_delete_allowed delete_request string_slice apply serve new_confirm_store Confirm.issue
    Confirm.consume Confirm.check_entry Confirm.prune_locked Confirm.set_ttl lookup insert delete
    retain trim_space trim_left trim_right
executed-WasPreviewed_example =
    executed-WasPreviewed hash (600 * 1000000000) history (call "c-a1 " 7) request (omega arith)
      (omega arith) executed_second
  where
    executed_second :
        (write hash (call "c-a1 " 7) (serve hash history new_confirm_store)).1 ≡ executed request
    executed_second = refl

abbrev forbidden : WriteCall
forbidden = record (call "c-a1" 7) { profile = record { read_only = false; allow_delete = false } }

forbidden_refused_example :
    (e : WriteError) × (write hash forbidden new_confirm_store ≡ (new_confirm_store, refused e))
unfolding Forbids
forbidden_refused_example = forbidden_refused hash forbidden new_confirm_store (inr refl)

abbrev named_twice : List (Option String)
named_twice = some "a" ∷ some "" ∷ none ∷ some " a" ∷ []

two_names : string_slice named_twice ≡ "a" ∷ "a" ∷ []
unfolding string_slice trim_space trim_left trim_right
two_names = refl

repeated_topic : length (normalize_topic_names (string_slice named_twice)) ≡ 1
unfolding string_slice normalize_topic_names normalize_from contains trim_space trim_left trim_right
repeated_topic = refl

topics_delete_confirmed_example :
    (ensure_topic_delete_confirm
        (executed_request (delete_request "dev" (string_slice named_twice)))
      ≡ none)
    ↔ (length (normalize_topic_names (string_slice named_twice))
        ≡ length (string_slice named_twice))
topics_delete_confirmed_example =
    topics_delete_confirmed "dev" named_twice (λ e. ground (arith, two_names, e))
