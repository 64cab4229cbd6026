-- ===== src/Pool/Tests.antt =====
-- Runs of the pool of backend/internal/kafkaconn/consume_pool.go on small inputs.
use dbx_plugin_kafka.Base.{
  ℕ, ◌≡◌, refl, String, Bool, true, false, none, some, List, [], ◌∷◌, arith, nat_eq, string_eq,
}
use dbx_plugin_kafka.Base.Dict.{lookup, insert, delete}
use dbx_plugin_kafka.Base.Strings.{
  trim_space, trim_left, trim_right, lower_codes, same_codes, is_word,
}
use dbx_plugin_kafka.Pool.{
  Pool, consume_reuse_policy, consume_pool_key, consume_pool_acquire, consume_pool_put,
  consume_pool_release, consume_pool_close_for, new_entry, close_client, close_consume_pool_entry,
  close_all_if, evict_turns, evict_consume_pool_locked,
}
use dbx_plugin_kafka.Pool.Holding.{Holds, put_closes_held}
use dbx_plugin_kafka.Pool.History.{Call, acquires, puts, releases, step, run, run-Holds}
use dbx_plugin_kafka.Pool.Eviction.{Converged, put-Converged}

abbrev empty : Pool
empty = record { heap = []; table = []; closed = [] }

-- One request has put client 70 in under pointer 1.
abbrev busy : Pool
busy = consume_pool_put "dev" "orders" 70 1 5 empty

earliest : consume_reuse_policy " Earliest" "" ≡ (true, true)
unfolding consume_reuse_policy trim_space trim_left trim_right is_word lower_codes same_codes
earliest = refl

disconnected : (consume_pool_close_for "dev" busy).closed ≡ 70 ∷ []
unfolding consume_pool_close_for consume_pool_put consume_pool_key evict_consume_pool_locked
    evict_turns close_all_if close_consume_pool_entry close_client lookup insert delete
disconnected = refl

abbrev others : List Call
others =
    acquires "dev" "orders" true 6
    ∷ puts "dev" "billing" 71 2 7
    ∷ releases 2 (0 ∷ []) true 8
    ∷ acquires "dev" "orders" false 200000
    ∷ []

run-Holds_example :
    Holds 1 (new_entry "dev" "orders" 70 5) (run others busy)
    × ((conn_id signature : String)
        → (at_start : Bool) → (now : ℕ)
        → ¬ (
            ((consume_pool_acquire conn_id signature at_start now (run others busy)).1 ≡ some 1)
            × ((consume_pool_acquire conn_id signature at_start now (run others busy)).2 ≡ true)))
unfolding step consume_pool_acquire consume_pool_put consume_pool_release consume_pool_key
    evict_consume_pool_locked evict_turns close_all_if close_consume_pool_entry close_client lookup
    insert delete
run-Holds_example =
    run-Holds others 1 (new_entry "dev" "orders" 70 5) busy (refl, refl)
      (tt, ((λ e. ground arith, λ e. ground arith), (λ e. ground arith, (tt, tt))))

put_closes_held_example :
    Holds 1
      (record (new_entry "dev" "orders" 70 5) { client = none })
      (consume_pool_put "dev" "orders" 71 2 7 busy)
unfolding consume_pool_put consume_pool_key evict_consume_pool_locked evict_turns lookup insert
put_closes_held_example =
    put_closes_held "dev" "orders" 71 2 7 1 70 (new_entry "dev" "orders" 70 5) busy (refl, refl)
      refl (λ e. ground arith) refl

put-Converged_example :
    Converged (consume_pool_key "dev" "billing") (consume_pool_put "dev" "billing" 72 3 9 busy)
put-Converged_example = put-Converged "dev" "billing" 72 3 9 busy
