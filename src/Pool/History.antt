-- ===== src/Pool/History.antt =====
-- The pool over any sequence of calls of other requests.
use dbx_plugin_kafka.Base.{ℕ, ◌≡◌, ◌≢◌, String, Bool, true, some, List, [], ◌∷◌, nat_eq, string_eq}
use dbx_plugin_kafka.Base.Dict.{lookup}
use dbx_plugin_kafka.Pool.{
  ConsumePoolEntry, Pool, consume_pool_key, consume_pool_acquire, consume_pool_put,
  consume_pool_release,
}
use dbx_plugin_kafka.Pool.Holding.{Holds, put-Holds, acquire-Holds, release-Holds}

-- What the requests of a server do to the pool while one of them holds an entry.
pub data Call : Type 0 where
  acquires : String → String → Bool → ℕ → Call
  puts : String → String → ℕ → ℕ → ℕ → Call
  releases : ℕ → List ℕ → Bool → ℕ → Call

unfoldable pub step : Call → Pool → Pool
step (acquires conn_id signature at_start now) s =
    (consume_pool_acquire conn_id signature at_start now s).0
step (puts conn_id signature client q now) s = consume_pool_put conn_id signature client q now s
step (releases q observed healthy now) s = consume_pool_release q observed healthy now s

unfoldable pub run : List Call → Pool → Pool
run [] s = s
run (c ∷ cs) s = run cs (step c s)

-- A call of another request: it releases another entry, and it puts a new one, but not under a key
-- under which the table has this one.
abbrev pub IsOther : ℕ → Call → Pool → Type 0
IsOther p (acquires _ _ _ _) s = Unit
IsOther p (puts conn_id signature client q now) s =
    (q ≢ p) × (lookup (consume_pool_key conn_id signature) s.table ≢ some p)
IsOther p (releases q _ _ _) s = q ≢ p

abbrev pub AllOther : ℕ → List Call → Pool → Type 0
AllOther p [] s = Unit
AllOther p (c ∷ cs) s = IsOther p c s × AllOther p cs (step c s)

step-Holds :
    (c : Call) (p : ℕ) (e : ConsumePoolEntry) (s : Pool)
    → IsOther p c s
    → Holds p e s
    → Holds p e (step c s)
unfolding step
step-Holds (acquires conn_id signature at_start now) p e s other h =
    (acquire-Holds conn_id signature at_start now p e s h).0
step-Holds (puts conn_id signature client q now) p e s other h =
    put-Holds conn_id signature client q now p e s other.0 other.1 h
step-Holds (releases q observed healthy now) p e s other h =
    release-Holds q observed healthy now p e s other h

-- While a request holds an entry, whatever other requests acquire, put and release, the entry stays in
-- use with its client open, and no other request is given it. A put under the key of the entry itself
-- is excluded.
pub run-Holds :
    (cs : List Call) (p : ℕ) (e : ConsumePoolEntry) (s : Pool)
    → Holds p e s
    → AllOther p cs s
    → Holds p e (run cs s)
      × ((conn_id signature : String)
          → (at_start : Bool) → (now : ℕ)
          → ¬ (
              ((consume_pool_acquire conn_id signature at_start now (run cs s)).1 ≡ some p)
              × ((consume_pool_acquire conn_id signature at_start now (run cs s)).2 ≡ true)))
unfolding run
run-Holds [] p e s h other =
    (h, λ conn_id signature at_start now. (acquire-Holds conn_id signature at_start now p e s h).1)
run-Holds (c ∷ cs) p e s h other =
    run-Holds cs p e (step c s) (step-Holds c p e s other.0 h) other.1
