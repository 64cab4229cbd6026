-- ===== src/Pool/Eviction.antt =====
-- The size of the pool after a put.
use dbx_plugin_kafka.Base.{
  ℕ, zero, suc, ◌+◌, ◌^◌, ◌≤◌, ◌<◌, ◌≡◌, ◌≢◌, refl, sym, subst, ◌∙◌, ◌⊎◌, inl, inr, String, true,
  Option, none, some, List, [], ◌∷◌, map, leb, length, contains, ◌==◌, nat_eq, string_eq, arith,
  Bool-cases, Option-cases, leb→le, beq_refl,
}
use dbx_plugin_kafka.Base.Dict.{Dict, lookup, delete, length-delete-le}
use dbx_plugin_kafka.Pool.{
  ConsumePoolEntry, Pool, resolve, consume_pool_key, entry_at, close_client,
  close_consume_pool_entry, older, keys, oldest, close_found, evict_turns,
  evict_consume_pool_locked, consume_pool_put, new_entry, enter,
}
use dbx_plugin_kafka.Pool.Holding.{resolve-some}

length-delete-lt :
    (key : String) (v : ℕ) (m : Dict String ℕ)
    → lookup key m ≡ some v
    → length (delete key m) < length m
unfolding lookup delete
length-delete-lt key v [] h = absurd (ground arith)
length-delete-lt key v ((k, w) ∷ m) h =
    ground (arith, length-delete-le key m, length-delete-lt key v m)

close_client-table :
    (q : ℕ) (entry : ConsumePoolEntry) (s : Pool) → (close_client q entry s).table ≡ s.table
unfolding close_client
close_client-table q entry s = elim (Option-cases entry.client) [
  | inl closed ↦ rw (closed, close_client) refl
  | inr (c, open_) ↦ rw (open_, close_client) refl
]

-- To close an entry that the table has makes the table shorter.
close_found-length :
    (key : String) (q : ℕ) (entry : ConsumePoolEntry) (s : Pool)
    → entry_at key s ≡ some (q, entry)
    → length (close_found key (entry_at key s) s).table < length s.table
unfolding close_consume_pool_entry
close_found-length key q entry s found =
    let there = (resolve-some s.heap (lookup key s.table) q entry found).0 in
    rw (found, close_found)
      (subst (λ m. length m < length s.table)
        (sym (close_client-table q entry _ ∙ rw (there) (ground (arith, beq_refl q))))
        (length-delete-lt key q s.table there))

Passed : String → ℕ → String → Pool → Type 0
Passed preserve_key at key s = older preserve_key key at (entry_at key s) ≡ none

oldest-some :
    (s : Pool) (preserve_key : String) (at : ℕ) (best : String) (ks : List String)
    → oldest s preserve_key at (some best) ks ≢ none
unfolding oldest
oldest-some s preserve_key at best [] h = ground arith
oldest-some s preserve_key at best (k ∷ ks) h =
    elim (Option-cases (older preserve_key k at (entry_at k s))) [
      | inl passed ↦ oldest-some s preserve_key at best ks (rw (passed, oldest) at h)
      | inr (t, found) ↦ oldest-some s preserve_key t k ks (rw (found, oldest) at h)
    ]

oldest-none :
    (s : Pool) (preserve_key : String) (at : ℕ) (ks : List String)
    → oldest s preserve_key at none ks ≡ none
    → (key : String) → contains key ks ≡ true
    → Passed preserve_key at key s
unfolding oldest contains Passed
oldest-none s preserve_key at [] h key m = absurd (ground arith)
oldest-none s preserve_key at (k ∷ ks) h key m =
    elim (Option-cases (older preserve_key k at (entry_at k s))) [
      | inr (t, found) ↦ absurd (oldest-some s preserve_key t k ks (rw (found, oldest) at h))
      | inl passed ↦ elim (Bool-cases (k == key)) [
        | inl same ↦
            subst (λ j. older preserve_key j at (entry_at j s) ≡ none)
              ((string_eq.same_iff k key).0 same) passed
        | inr differ ↦
            oldest-none s preserve_key at ks (rw (passed, oldest) at h) key (ground arith)
      ]
    ]

InTable : String → Pool → Type 0
InTable key s = (q : ℕ) × (entry : ConsumePoolEntry) × (entry_at key s ≡ some (q, entry))

oldest-InTable :
    (s : Pool) (preserve_key : String) (at : ℕ) (best : Option String) (ks : List String)
    (key : String)
    → ((k : String) → best ≡ some k → InTable k s)
    → oldest s preserve_key at best ks ≡ some key
    → InTable key s
unfolding oldest InTable
oldest-InTable s preserve_key at best [] key there h = there key h
oldest-InTable s preserve_key at best (k ∷ ks) key there h = elim (Option-cases (entry_at k s)) [
  | inl missing ↦ oldest-InTable s preserve_key at best ks key there (rw (missing, oldest) at h)
  | inr ((q, entry), found) ↦ elim (Option-cases (older preserve_key k at (entry_at k s))) [
    | inl passed ↦ oldest-InTable s preserve_key at best ks key there (rw (passed, oldest) at h)
    | inr (t, preferred) ↦
        oldest-InTable s preserve_key t (some k) ks key
          (λ j e. (q, entry, subst (λ i. entry_at i s ≡ some (q, entry)) (ground arith) found))
          (rw (preferred, oldest) at h)
  ]
]

-- At most eight entries, or every entry of the table but the preserved one is in use (or was last used
-- at 2^62 or later).
pub Converged : String → Pool → Type 0
Converged preserve_key s =
    (length s.table ≤ 8)
    ⊎ ((key : String) (q : ℕ) (entry : ConsumePoolEntry)
        → lookup key s.table ≡ some q
        → lookup q s.heap ≡ some entry
        → (key ≡ preserve_key) ⊎ (entry.in_use ≡ true) ⊎ (2 ^ 62 ≤ entry.last_used_at))

lookup-keys :
    (key : String) (q : ℕ) (m : Dict String ℕ)
    → lookup key m ≡ some q
    → contains key (map (λ e. e.0) m) ≡ true
unfolding lookup contains
lookup-keys key q [] h = absurd (ground arith)
lookup-keys key q ((k, r) ∷ m) h = ground (arith, lookup-keys key q m)

-- What the loop passes over.
older-none :
    (preserve_key key : String) (q : ℕ) (entry : ConsumePoolEntry)
    → older preserve_key key (2 ^ 62) (some (q, entry)) ≡ none
    → (key ≡ preserve_key) ⊎ (entry.in_use ≡ true) ⊎ (2 ^ 62 ≤ entry.last_used_at)
older-none preserve_key key q entry h = ground (arith, string_eq.same_iff key preserve_key)

all_passed :
    (preserve_key : String) (s : Pool)
    → oldest s preserve_key (2 ^ 62) none (keys s) ≡ none
    → (key : String) (q : ℕ) (entry : ConsumePoolEntry) → lookup key s.table ≡ some q
    → lookup q s.heap ≡ some entry
    → (key ≡ preserve_key) ⊎ (entry.in_use ≡ true) ⊎ (2 ^ 62 ≤ entry.last_used_at)
unfolding Passed
all_passed preserve_key s h key q entry there held =
    let found : entry_at key s ≡ some (q, entry) = rw (there, resolve, held) refl in
    let passed =
      oldest-none s preserve_key (2 ^ 62) (keys s) h key (lookup-keys key q s.table there) in
    older-none preserve_key key q entry
      (subst (λ e. older preserve_key key (2 ^ 62) e ≡ none) found passed)

evict_turns-Converged :
    (turns : ℕ) (preserve_key : String) (s : Pool)
    → length s.table ≤ turns + 8
    → Converged preserve_key (evict_turns turns preserve_key s)
unfolding evict_turns Converged Passed InTable
evict_turns-Converged zero preserve_key s h = inl (omega arith)
evict_turns-Converged (suc turns) preserve_key s h = elim (Bool-cases (leb (length s.table) 8)) [
  | inl small ↦ rw (small, evict_turns) (inl (leb→le (length s.table) 8 small))
  | inr large ↦ elim (Option-cases (oldest s preserve_key (2 ^ 62) none (keys s))) [
    | inl nothing ↦ rw (large, nothing, evict_turns) (inr (all_passed preserve_key s nothing))
    | inr (key, found) ↦
        let (q, entry, there) =
          oldest-InTable s preserve_key (2 ^ 62) none (keys s) key
            (λ k absent. absurd (ground arith)) found in
        rw (large, found, evict_turns)
          (evict_turns-Converged turns preserve_key (close_found key (entry_at key s) s)
            (omega (arith, close_found-length key q entry s there)))
  ]
]

-- After a put the pool has at most eight entries, or every entry but the new one is in use (or was last
-- used at 2^62 or later): no idle client is kept beyond the limit.
pub put-Converged :
    (conn_id signature : String) (client p now : ℕ) (s : Pool)
    → Converged
        (consume_pool_key conn_id signature)
        (consume_pool_put conn_id signature client p now s)
unfolding consume_pool_put evict_consume_pool_locked
put-Converged conn_id signature client p now s =
    let key = consume_pool_key conn_id signature in
    let entered =
      enter key p (new_entry conn_id signature client now) (close_found key (entry_at key s) s) in
    evict_turns-Converged (length entered.table) key entered (omega arith)
