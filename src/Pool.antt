-- ===== src/Pool.antt =====
-- backend/internal/kafkaconn/consume_pool.go: the pool of consumer clients. An entry is an object that a
-- request holds while it uses the client, also after the entry has left the table, so that the model has
-- a heap of entries beside the table. A client is a number, and `none` once it is closed. Times are
-- milliseconds, below 2^62. A release is one step, although the program clears the mark of the entry
-- before it takes the lock. A pointer that the heap lacks stands for nothing.
pub mod Holding
pub mod History
pub mod Eviction
mod Tests
use Prim.Native.String.{◌++◌ as concat}
use dbx_plugin_kafka.Base.{
  ℕ, zero, suc, ◌+◌, ◌-◌, ◌*◌, ◌^◌, String, Bool, true, false, not, ◌&&◌, ◌||◌, Option, none, some,
  List, [], ◌∷◌, ◌++◌, map, if◌then◌else◌, ltb, leb, length, ◌==◌, nat_eq, string_eq,
}
use dbx_plugin_kafka.Base.Dict.{Dict, lookup, insert, delete}
use dbx_plugin_kafka.Base.Strings.{trim_space, is_word}

pub record ConsumePoolEntry : Type 0 where
  pub client : Option ℕ
  pub conn_id : String
  pub sig : String
  pub in_use : Bool
  pub at_start : Bool
  pub seen_parts : List ℕ
  pub reset_failed : Bool
  pub last_used_at : ℕ

pub record Pool : Type 0 where
  pub heap : Dict ℕ ConsumePoolEntry
  pub table : Dict String ℕ
  -- the clients that were closed, the last one first
  pub closed : List ℕ

-- `consumePoolIdleTTL`
abbrev pub idle_ttl : ℕ
idle_ttl = 120000

-- `consumePoolMaxEntries`
abbrev pub max_entries : ℕ
max_entries = 8

-- `1 << 62`
abbrev pub far_future : ℕ
far_future = 2 ^ 62

-- Whether the client is reused, and whether it starts at the beginning.
unfoldable pub consume_reuse_policy : String → String → Bool × Bool
consume_reuse_policy offset_strategy group_id =
    let name = trim_space offset_strategy in
    if not (trim_space group_id == "")
    then (false, false)
    else if is_word name ""
        || is_word name "default"
        || is_word name "earliest"
        || is_word name "start"
    then (true, true)
    else if is_word name "latest" || is_word name "end"
    then (true, false)
    else (false, false)

unfoldable pub consume_pool_key : String → String → String
consume_pool_key conn_id signature = concat conn_id (concat "\0" signature)

-- The entry that the table has under a key, with its pointer.
abbrev pub resolve : Dict ℕ ConsumePoolEntry → Option ℕ → Option (ℕ × ConsumePoolEntry)
resolve heap none = none
resolve heap (some p) = elim (lookup p heap) [ none ↦ none | some entry ↦ some (p, entry) ]

abbrev pub entry_at : String → Pool → Option (ℕ × ConsumePoolEntry)
entry_at key s = resolve s.heap (lookup key s.table)

abbrev is_pointer : Option ℕ → ℕ → Bool
is_pointer none p = false
is_pointer (some q) p = q == p

unfoldable pub close_client : ℕ → ConsumePoolEntry → Pool → Pool
close_client p entry s = elim entry.client [
  | none ↦ s
  | some c ↦ record s {
    heap = insert p (record entry { client = none }) s.heap;
    closed = c ∷ s.closed;
  }
]

unfoldable pub close_consume_pool_entry : ℕ → ConsumePoolEntry → String → Pool → Pool
unfolding close_client
close_consume_pool_entry p entry key s =
    close_client p entry (record s {
      table = if is_pointer (lookup key s.table) p then delete key s.table else s.table;
    })

-- The entry is the caller's if the second answer is `true`.
unfoldable pub consume_pool_acquire : String → String → Bool → ℕ → Pool → Pool × Option ℕ × Bool
unfolding consume_pool_key
consume_pool_acquire conn_id signature at_start now s =
    elim (entry_at (consume_pool_key conn_id signature) s) [
      | none ↦ (s, none, false)
      | some (p, entry) ↦ if entry.in_use || entry.reset_failed then (s, some p, false) else (
        record s {
          heap =
              insert p (record entry { in_use = true; at_start = at_start; last_used_at = now })
                s.heap;
        },
        some p,
        true,
      )
    ]

-- When the entry was last used, if the loop of the eviction prefers it to what it has.
abbrev pub older : String → String → ℕ → Option (ℕ × ConsumePoolEntry) → Option ℕ
older preserve_key key oldest_at none = none
older preserve_key key oldest_at (some (p, entry)) =
    if key == preserve_key || entry.in_use || not (ltb entry.last_used_at oldest_at)
    then none
    else some entry.last_used_at

abbrev pub keys : Pool → List String
keys s = map (λ e. e.0) s.table

unfoldable pub oldest : Pool → String → ℕ → Option String → List String → Option String
oldest s preserve_key oldest_at oldest_key [] = oldest_key
oldest s preserve_key oldest_at oldest_key (key ∷ more) =
    elim (older preserve_key key oldest_at (entry_at key s)) [
      | none ↦ oldest s preserve_key oldest_at oldest_key more
      | some last_used_at ↦ oldest s preserve_key last_used_at (some key) more
    ]

abbrev pub close_found : String → Option (ℕ × ConsumePoolEntry) → Pool → Pool
close_found key none s = s
close_found key (some (p, entry)) s = close_consume_pool_entry p entry key s

-- The first argument bounds the number of turns of the loop; the size of the table is enough.
unfoldable pub evict_turns : ℕ → String → Pool → Pool
unfolding oldest close_consume_pool_entry
evict_turns zero preserve_key s = s
evict_turns (suc turns) preserve_key s = elim (leb (length s.table) max_entries) [
  | true ↦ s
  | false ↦ elim (oldest s preserve_key far_future none (keys s)) [
    | none ↦ s
    | some key ↦ evict_turns turns preserve_key (close_found key (entry_at key s) s)
  ]
]

unfoldable pub evict_consume_pool_locked : String → Pool → Pool
unfolding evict_turns
evict_consume_pool_locked preserve_key s = evict_turns (length s.table) preserve_key s

abbrev pub new_entry : String → String → ℕ → ℕ → ConsumePoolEntry
new_entry conn_id signature client now = record {
  client = some client;
  conn_id = conn_id;
  sig = signature;
  in_use = true;
  at_start = false;
  seen_parts = [];
  reset_failed = false;
  last_used_at = now;
}

abbrev pub enter : String → ℕ → ConsumePoolEntry → Pool → Pool
enter key p entry s = record s { heap = insert p entry s.heap; table = insert key p s.table }

-- The pointer is that of the new entry, which the caller holds.
unfoldable pub consume_pool_put : String → String → ℕ → ℕ → ℕ → Pool → Pool
unfolding consume_pool_key evict_consume_pool_locked
consume_pool_put conn_id signature client p now s =
    let key = consume_pool_key conn_id signature in
    evict_consume_pool_locked key
      (enter key p (new_entry conn_id signature client now) (close_found key (entry_at key s) s))

-- Whether the sweep of a release takes the entry.
abbrev pub is_stale : ℕ → Option (ℕ × ConsumePoolEntry) → Bool
is_stale now none = false
is_stale now (some (p, entry)) = not (entry.in_use || leb now (entry.last_used_at + idle_ttl))

-- A loop over the table that closes the entries that pass a test.
unfoldable pub close_all_if : (Option (ℕ × ConsumePoolEntry) → Bool) → List String → Pool → Pool
unfolding close_consume_pool_entry
close_all_if test [] s = s
close_all_if test (key ∷ more) s = elim (test (entry_at key s)) [
  | true ↦ close_all_if test more (close_found key (entry_at key s) s)
  | false ↦ close_all_if test more s
]

-- What a release does to the entry.
abbrev pub released : List ℕ → Bool → ℕ → ConsumePoolEntry → ConsumePoolEntry
released observed healthy now entry = record entry {
  seen_parts = observed ++ entry.seen_parts;
  reset_failed = not healthy || entry.reset_failed;
  in_use = false;
  last_used_at = now;
}

unfoldable pub consume_pool_release : ℕ → List ℕ → Bool → ℕ → Pool → Pool
unfolding close_all_if
consume_pool_release p observed healthy now s = elim (lookup p s.heap) [
  | none ↦ s
  | some entry ↦
      let s' = record s { heap = insert p (released observed healthy now entry) s.heap } in
      close_all_if (is_stale now) (keys s') s'
]

abbrev pub is_of : String → Option (ℕ × ConsumePoolEntry) → Bool
is_of conn_id none = false
is_of conn_id (some (p, entry)) = entry.conn_id == conn_id

unfoldable pub consume_pool_close_for : String → Pool → Pool
unfolding close_all_if
consume_pool_close_for conn_id s = close_all_if (is_of conn_id) (keys s) s

unfoldable pub consume_pool_close_all : Pool → Pool
unfolding close_all_if
consume_pool_close_all s = close_all_if (λ _. true) (keys s) s
