-- ===== src/Pool/Holding.antt =====
-- Entries in use, under each operation.
use dbx_plugin_kafka.Base.{
  ℕ, zero, suc, ◌^◌, ◌≡◌, ◌≢◌, refl, sym, ap, subst, ◌∙◌, inl, inr, String, Bool, true, false, ◌||◌,
  Option, none, some, List, [], ◌∷◌, if◌then◌else◌, leb, length, nat_eq, string_eq, arith,
  Bool-cases, Option-cases, beq_ne, beq_refl,
}
use dbx_plugin_kafka.Base.Dict.{Dict, lookup, insert, lookup-insert}
use dbx_plugin_kafka.Pool.{
  ConsumePoolEntry, Pool, consume_pool_key, resolve, entry_at, close_client,
  close_consume_pool_entry, consume_pool_acquire, older, keys, oldest, close_found, evict_turns,
  evict_consume_pool_locked, consume_pool_put, is_stale, close_all_if, released,
  consume_pool_release, new_entry, enter,
}

-- The entry is in use, with its client.
abbrev pub Holds : ℕ → ConsumePoolEntry → Pool → Type 0
Holds p e s = (lookup p s.heap ≡ some e) × (e.in_use ≡ true)

pub resolve-some :
    (heap : Dict ℕ ConsumePoolEntry) (o : Option ℕ) (q : ℕ) (e : ConsumePoolEntry)
    → resolve heap o ≡ some (q, e)
    → (o ≡ some q) × (lookup q heap ≡ some e)
resolve-some heap none q e h = absurd (ground arith)
resolve-some heap (some p) q e h = elim (Option-cases (lookup p heap)) [
  | inl missing ↦ absurd (ground (arith, rw (missing, resolve) at h))
  | inr (found, there) ↦ ground (arith, rw (there, resolve) at h)
]

close_client-Holds :
    (p q : ℕ) (e entry : ConsumePoolEntry) (s : Pool)
    → q ≢ p
    → Holds p e s
    → Holds p e (close_client q entry s)
unfolding close_client
close_client-Holds p q e entry s differ h = elim (Option-cases entry.client) [
  | inl closed ↦ rw (closed, close_client) h
  | inr (c, open_) ↦
      rw (open_, close_client)
        (
          lookup-insert p q (record entry { client = none }) s.heap
              ∙ ap (λ b. if b then some (record entry { client = none }) else lookup p s.heap)
                  (beq_ne q p differ)
              ∙ h.0,
          h.1,
        )
]

-- An entry that is found and not in use is another one.
close_found-Holds :
    (p : ℕ) (e : ConsumePoolEntry) (key : String) (s : Pool)
    → ((q : ℕ) → (entry : ConsumePoolEntry) → entry_at key s ≡ some (q, entry) → q ≢ p)
    → Holds p e s
    → Holds p e (close_found key (entry_at key s) s)
unfolding close_consume_pool_entry
close_found-Holds p e key s other h = elim (Option-cases (entry_at key s)) [
  | inl missing ↦ rw (missing, close_found) h
  | inr ((q, entry), there) ↦
      rw (there, close_found) (close_client-Holds p q e entry _ (other q entry there) h)
]

idle_is_other :
    (p : ℕ) (e : ConsumePoolEntry) (key : String) (s : Pool)
    → Holds p e s
    → (q : ℕ) → (entry : ConsumePoolEntry) → entry_at key s ≡ some (q, entry)
    → entry.in_use ≡ false
    → q ≢ p
idle_is_other p e key s (there, used) q entry found idle same =
    let (_, at_q) = resolve-some s.heap (lookup key s.table) q entry found in
    let at_p : lookup p s.heap ≡ some entry = subst (λ k. lookup k s.heap ≡ some entry) same at_q in
    ground (arith, sym there ∙ at_p)

close_all_if-Holds :
    (test : Option (ℕ × ConsumePoolEntry) → Bool) (ks : List String) (p : ℕ) (e : ConsumePoolEntry)
    (s : Pool)
    → ((q : ℕ) → (entry : ConsumePoolEntry) → test (some (q, entry)) ≡ true → entry.in_use ≡ false)
    → Holds p e s
    → Holds p e (close_all_if test ks s)
unfolding close_all_if
close_all_if-Holds test [] p e s idle h = h
close_all_if-Holds test (key ∷ ks) p e s idle h = elim (Bool-cases (test (entry_at key s))) [
  | inr spared ↦ rw (spared, close_all_if) (close_all_if-Holds test ks p e s idle h)
  | inl taken ↦
      rw (taken, close_all_if)
        (close_all_if-Holds test ks p e (close_found key (entry_at key s) s) idle (
          close_found-Holds p e key s
            (λ q entry found.
              idle_is_other p e key s h q entry found
                (idle q entry (subst (λ o. test o ≡ true) found taken)))
            h))
]

IsIdle : String → Pool → Type 0
IsIdle key s =
    (q : ℕ) → (entry : ConsumePoolEntry) → entry_at key s ≡ some (q, entry) → entry.in_use ≡ false

older-IsIdle :
    (preserve_key key : String) (at t : ℕ) (s : Pool)
    → older preserve_key key at (entry_at key s) ≡ some t
    → IsIdle key s
unfolding IsIdle
older-IsIdle preserve_key key at t s h q entry found =
    ground (arith, sym (ap (older preserve_key key at) found) ∙ h)

oldest-IsIdle :
    (s : Pool) (preserve_key : String) (at : ℕ) (best : Option String) (ks : List String)
    (key : String)
    → ((k : String) → best ≡ some k → IsIdle k s)
    → oldest s preserve_key at best ks ≡ some key
    → IsIdle key s
unfolding oldest
oldest-IsIdle s preserve_key at best [] key idle h = idle key h
oldest-IsIdle s preserve_key at best (k ∷ ks) key idle h =
    elim (Option-cases (older preserve_key k at (entry_at k s))) [
      | inl none_older ↦
          oldest-IsIdle s preserve_key at best ks key idle (rw (none_older, oldest) at h)
      | inr (t, preferred) ↦
          oldest-IsIdle s preserve_key t (some k) ks key
            (λ j e.
              subst (λ i. IsIdle i s) (ground arith) (older-IsIdle preserve_key k at t s preferred))
            (rw (preferred, oldest) at h)
    ]

evict_turns-Holds :
    (turns : ℕ) (preserve_key : String) (p : ℕ) (e : ConsumePoolEntry) (s : Pool)
    → Holds p e s
    → Holds p e (evict_turns turns preserve_key s)
unfolding evict_turns IsIdle
evict_turns-Holds zero preserve_key p e s h = h
evict_turns-Holds (suc turns) preserve_key p e s h = elim (Bool-cases (leb (length s.table) 8)) [
  | inl small ↦ rw (small, evict_turns) h
  | inr large ↦ elim (Option-cases (oldest s preserve_key (2 ^ 62) none (keys s))) [
    | inl nothing ↦ rw (large, nothing, evict_turns) h
    | inr (key, found) ↦
        rw (large, found, evict_turns)
          (evict_turns-Holds turns preserve_key p e (close_found key (entry_at key s) s) (
            close_found-Holds p e key s
              (λ q entry there. idle_is_other p e key s h q entry there (
                oldest-IsIdle s preserve_key (2 ^ 62) none (keys s) key
                  (λ k absent. absurd (ground arith)) found q entry there))
              h))
  ]
]

-- An insertion at another place of the heap.
insert-Holds :
    (p q : ℕ) (e entry : ConsumePoolEntry) (s : Pool) (table : Dict String ℕ)
    → q ≢ p
    → Holds p e s
    → Holds p e (record s { heap = insert q entry s.heap; table = table })
insert-Holds p q e entry s table differ h = (
  lookup-insert p q entry s.heap
      ∙ ap (λ b. if b then some entry else lookup p s.heap) (beq_ne q p differ)
      ∙ h.0,
  h.1,
)

pub put-Holds :
    (conn_id signature : String) (client q now p : ℕ) (e : ConsumePoolEntry) (s : Pool)
    → q ≢ p
    → lookup (consume_pool_key conn_id signature) s.table ≢ some p
    → Holds p e s
    → Holds p e (consume_pool_put conn_id signature client q now s)
unfolding consume_pool_put evict_consume_pool_locked
put-Holds conn_id signature client q now p e s fresh elsewhere h =
    let key = consume_pool_key conn_id signature in
    let cleared = close_found key (entry_at key s) s in
    let kept =
      close_found-Holds p e key s
        (λ r entry found same.
          elsewhere ((resolve-some s.heap (lookup key s.table) r entry found).0 ∙ ap some same))
        h in
    let entry = new_entry conn_id signature client now in
    let entered = enter key q entry cleared in
    evict_turns-Holds (length entered.table) key p e entered
      (insert-Holds p q e entry cleared (insert key q cleared.table) fresh kept)

-- What `acquire` does with what it finds.
pub acquire-Holds :
    (conn_id signature : String) (at_start : Bool) (now p : ℕ) (e : ConsumePoolEntry) (s : Pool)
    → Holds p e s
    → Holds p e (consume_pool_acquire conn_id signature at_start now s).0
      × ¬ (
          ((consume_pool_acquire conn_id signature at_start now s).1 ≡ some p)
          × ((consume_pool_acquire conn_id signature at_start now s).2 ≡ true))
unfolding consume_pool_acquire
acquire-Holds conn_id signature at_start now p e s h =
    let key = consume_pool_key conn_id signature in
    elim (Option-cases (entry_at key s)) [
      | inl missing ↦ rw (missing, consume_pool_acquire) (h, λ r. ground arith)
      | inr ((q, entry), there) ↦ elim (Bool-cases (entry.in_use || entry.reset_failed)) [
        | inl busy ↦ rw (there, busy, consume_pool_acquire) (h, λ r. ground arith)
        | inr free ↦
            let other = idle_is_other p e key s h q entry there (ground arith) in
            rw (there, free, consume_pool_acquire)
              (insert-Holds p q e _ s s.table other h, λ r. other (ground (arith, r.0)))
      ]
    ]

pub release-Holds :
    (q : ℕ) (observed : List ℕ) (healthy : Bool) (now p : ℕ) (e : ConsumePoolEntry) (s : Pool)
    → q ≢ p
    → Holds p e s
    → Holds p e (consume_pool_release q observed healthy now s)
unfolding consume_pool_release
release-Holds q observed healthy now p e s differ h = elim (Option-cases (lookup q s.heap)) [
  | inl missing ↦ rw (missing, consume_pool_release) h
  | inr (entry, there) ↦
      rw (there, consume_pool_release)
        (close_all_if-Holds (is_stale now) _ p e _ (λ r stale used. ground arith)
          (insert-Holds p q e (released observed healthy now entry) s s.table differ h))
]

-- A put under the key of an entry in use closes the client of that entry.
pub put_closes_held :
    (conn_id signature : String) (client q now p c : ℕ) (e : ConsumePoolEntry) (s : Pool)
    → Holds p e s
    → e.client ≡ some c
    → q ≢ p
    → lookup (consume_pool_key conn_id signature) s.table ≡ some p
    → Holds p (record e { client = none }) (consume_pool_put conn_id signature client q now s)
unfolding consume_pool_put evict_consume_pool_locked close_consume_pool_entry close_client
put_closes_held conn_id signature client q now p c e s h open_ fresh there =
    let key = consume_pool_key conn_id signature in
    let found : entry_at key s ≡ some (p, e) = rw (there, resolve) (rw (h.0, resolve) refl) in
    let cleared = close_found key (entry_at key s) s in
    let entry = new_entry conn_id signature client now in
    let entered = enter key q entry cleared in
    let shut : Holds p (record e { client = none }) cleared =
      rw (found, close_found) (closed_entry s key, h.1) in
    evict_turns-Holds (length entered.table) key p (record e { client = none }) entered
      (insert-Holds p q (record e { client = none }) entry cleared (insert key q cleared.table)
        fresh shut)
  where
    closed_entry :
        (s : Pool) (key : String)
        → lookup p (close_consume_pool_entry p e key s).heap ≡ some (record e { client = none })
    closed_entry s key =
        rw (open_, close_client)
          (lookup-insert p p (record e { client = none }) s.heap
            ∙ ap (λ b. if b then some (record e { client = none }) else lookup p s.heap)
                (beq_refl p))
