-- ===== src/Stream/Registry/Tests.antt =====
-- Runs of the registry of backend/internal/kafkaconn/stream.go on small inputs; a message is a number.
use Prim.Native.String.{[] as nil, ◌∷◌ as cons}
use dbx_plugin_kafka.Base.{
  zero, suc, sym, ap, ◌∙◌, String, contains, nat_eq, ℕ, ◌+◌, ◌≤◌, ◌≡◌, refl, false, none, some,
  List, [], ◌∷◌, length, if◌then◌else◌, ltb, arith, string_eq,
}
use dbx_plugin_kafka.Base.Int.{pos}
use dbx_plugin_kafka.Base.Dict.{lookup, insert, delete}
use dbx_plugin_kafka.Stream.Ring.{new_ring_buffer, append, append_batch}
use dbx_plugin_kafka.Stream.Registry.{
  StreamSession, StreamRegistry, new_stream_registry, reserve, enter, stop, stop_if, evict_idle,
  without, flush,
}
use dbx_plugin_kafka.Stream.Registry.Closing.{lookup-evict_idle}
use dbx_plugin_kafka.Stream.Registry.Accounts.{Accounted}
use dbx_plugin_kafka.Stream.Registry.Numbers.{Drawn, entered, run-Accounted}
use dbx_plugin_kafka.Stream.Registry.Limit.{
  Step, reserves, enters, evicts, shuts, step, run, length-run-le,
}

abbrev session : ℕ → StreamSession ℕ
session now = record {
  connection_id = "dev";
  client = now;
  ring = new_ring_buffer 0 (pos 2);
  total_scanned = 0;
  total_matched = 0;
  paused = false;
  last_activity = now;
}

abbrev two_starts : List (Step ℕ)
two_starts =
    reserves ∷ reserves ∷ enters "s-1" (session 0) ∷ enters "s-2" (session 5) ∷ evicts 1800003 ∷ []

length-run-le_example : length (run two_starts new_stream_registry).sessions ≤ 21
unfolding run step reserve enter new_stream_registry evict_idle stop_if stop lookup insert delete
length-run-le_example = length-run-le 2 two_starts (omega arith)

-- An id of as many letters as its number says.
text_of : ℕ → ℕ → String
text_of t zero = nil
text_of t (suc n) = cons "x" (text_of t n)

letters : String → ℕ
letters nil = 0
letters (cons c s) = suc (letters s)

letters-text_of : (t n : ℕ) → letters (text_of t n) ≡ n
unfolding letters text_of
letters-text_of t zero = refl
letters-text_of t (suc n) = ap (λ k. suc k) (letters-text_of t n)

abbrev two_drawn : List (Step ℕ)
two_drawn =
    reserves
    ∷ reserves
    ∷ enters "xx" (session 5)
    ∷ enters "x" (session 0)
    ∷ evicts 1800003
    ∷ shuts 0
    ∷ []

run-Accounted_example : Accounted 0 (run two_drawn new_stream_registry)
unfolding Drawn text_of step reserve new_stream_registry without contains entered
run-Accounted_example =
    run-Accounted text_of
      (λ t n u m e. sym (letters-text_of t n) ∙ ap letters e ∙ letters-text_of u m) 0 two_drawn
      (0, 2, refl, refl, (0, 1, refl, refl, tt)) refl

abbrev full : StreamRegistry ℕ
full = record {
  next = 19;
  sessions =
      ("1", session 0)
      ∷ ("2", session 0)
      ∷ ("3", session 0)
      ∷ ("4", session 0)
      ∷ ("5", session 0)
      ∷ ("6", session 0)
      ∷ ("7", session 0)
      ∷ ("8", session 0)
      ∷ ("9", session 0)
      ∷ ("10", session 0)
      ∷ ("11", session 0)
      ∷ ("12", session 0)
      ∷ ("13", session 0)
      ∷ ("14", session 0)
      ∷ ("15", session 0)
      ∷ ("16", session 0)
      ∷ ("17", session 0)
      ∷ ("18", session 0)
      ∷ ("19", session 0)
      ∷ [];
  leaving = [];
  closed = [];
}

-- Two starts that overlap bring nineteen sessions to twenty-one.
overlapping :
    length
      (run
        (reserves ∷ reserves ∷ enters "20" (session 0) ∷ enters "21" (session 0) ∷ [])
        full).sessions
    ≡ 21
unfolding run step reserve enter insert
overlapping = refl

lookup-evict_idle_example :
    lookup "7" (evict_idle 1800001 full).sessions ≡ elim (lookup "7" full.sessions) [
      | none ↦ none
      | some s ↦ if ltb (s.last_activity + 1800000) 1800001 then none else some s
    ]
lookup-evict_idle_example = lookup-evict_idle 1800001 "7" full

flushed : (flush "s-1" (3 ∷ 4 ∷ 5 ∷ []) 9 (session 0)).0.ring.size ≡ 2
unfolding flush append_batch append new_ring_buffer
flushed = refl
