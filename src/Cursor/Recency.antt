-- ===== src/Cursor/Recency.antt =====
-- Which session an over-full table gives up.
use dbx_plugin_kafka.Base.{
  ℕ, suc, ◌+◌, ◌≤◌, ◌<◌, ◌≡◌, ◌≢◌, refl, sym, ◌∙◌, Distinct, String, true, none, some, List, [],
  ◌∷◌, lt→ltb, length, arith, string_eq, beq_ne, contains, contains-append,
}
use dbx_plugin_kafka.Base.Dict.{lookup, lookup-insert}
use dbx_plugin_kafka.Lru.Laws.{append-InStep, lookup-prune_order, contains-prune_order}
use dbx_plugin_kafka.Lru.Recency.{
  used_after, used_after-append, used_after-prune_order-le, evict_order_spares,
  used_after-touch_order,
}
use dbx_plugin_kafka.Cursor.{
  CursorRow, CursorSession, CursorStore, NextRequest, is_live, evict, put, next, next_live,
  read_page, prune_locked, touch_locked,
}
use dbx_plugin_kafka.Cursor.Invariant.{Inv, prune_locked-Inv, pruned_fresh, put-Inv, next-Inv}
use dbx_plugin_kafka.Cursor.Paging.{next_of_live, lookup-next_live}

-- A `Put` of some rows under an id that was drawn for them.
pub record NewDigest : Type 0 where
  pub id : String
  pub rows : List CursorRow
  pub topic : String
  pub now : ℕ

unfoldable pub put_all : List NewDigest → CursorStore → CursorStore
put_all [] s = s
put_all (d ∷ ds) s = put_all ds (put d.id d.rows d.topic d.now s).0

-- Every id is new to the table when it comes, and the session in question has not expired by then.
abbrev pub FreshFor : String → ℕ → List NewDigest → CursorStore → Type 0
FreshFor id expires [] s = Unit
FreshFor id expires (d ∷ ds) s =
    (d.id ≢ id)
    × (lookup d.id s.sessions ≡ none)
    × (d.now < expires)
    × FreshFor id expires ds (put d.id d.rows d.topic d.now s).0

-- What pruning leaves of a session that has not expired.
prune_locked_spares :
    (id : String) (now : ℕ) (s : CursorStore) (session : CursorSession)
    → Inv s
    → lookup id s.sessions ≡ some session
    → now < session.expires_at
    → let t = prune_locked now s in
      (lookup id t.sessions ≡ some session)
      × (contains id t.order ≡ true)
      × (used_after id t.order ≤ used_after id s.order)
      × (t.capacity ≡ s.capacity)
unfolding prune_locked
prune_locked_spares id now s session h there live = ground (
  arith,
  h.in_step.listed id,
  lookup-prune_order (is_live now) s.sessions s.order id,
  contains-prune_order (is_live now) s.sessions s.order id,
  used_after-prune_order-le (is_live now) s.sessions id s.order,
  lt→ltb now session.expires_at live,
)

put_spares :
    (id : String) (d : NewDigest) (s : CursorStore) (session : CursorSession)
    → Inv s
    → lookup id s.sessions ≡ some session
    → d.id ≢ id
    → lookup d.id s.sessions ≡ none
    → d.now < session.expires_at
    → suc (used_after id s.order) < s.capacity
    → let t = (put d.id d.rows d.topic d.now s).0 in
      (lookup id t.sessions ≡ some session)
      × (used_after id t.order ≤ suc (used_after id s.order))
      × (t.capacity ≡ s.capacity)
unfolding put evict
put_spares id d s session h there differs fresh live recent =
    let (kept, listed, closer, same) = prune_locked_spares id d.now s session h there live in
    let longer = contains-append id pruned.order (d.id ∷ []) in
    let after = used_after-append id d.id pruned.order listed in
    let spared =
      evict_order_spares pruned.capacity _ id _
        (append-InStep pruned.sessions pruned.order d.id _ (prune_locked-Inv d.now s h).in_step
          (pruned_fresh d.id d.now s fresh h))
        (rw (longer, listed) refl) (ground arith) in
    (
      spared.0 ∙ rw (lookup-insert, beq_ne d.id id differs) kept,
      omega (arith, spared.2, after, closer),
      same,
    )
  where
    pruned : CursorStore
    pruned = prune_locked d.now s

put_all_spares :
    (id : String) (ds : List NewDigest) (s : CursorStore) (session : CursorSession)
    → Inv s
    → lookup id s.sessions ≡ some session
    → FreshFor id session.expires_at ds s
    → used_after id s.order + length ds < s.capacity
    → lookup id (put_all ds s).sessions ≡ some session
unfolding put_all
put_all_spares id [] s session h there fresh room = there
put_all_spares id (d ∷ ds) s session h there fresh room =
    let (kept, after, same) =
      put_spares id d s session h there fresh.0 fresh.1 fresh.2 (omega arith) in
    put_all_spares id ds (put d.id d.rows d.topic d.now s).0 session
      (put-Inv d.id d.rows d.topic d.now s fresh.1 h) kept fresh.3 (omega arith)

next_live_recent :
    (id : String) (req : NextRequest) (session : CursorSession) (s : CursorStore)
    → Distinct s.order
    → (k : ℕ) → k < s.capacity
    → let t = (next_live id req session s).0 in used_after id t.order + k < t.capacity
unfolding next_live touch_locked
next_live_recent id req session s d k room = omega (arith, used_after-touch_order id s.order d)

-- A session that `Next` has just read outlives fewer new digests than the capacity, as long as it has
-- not expired when they come: the eviction order is by last use.
pub next_then_put_spares :
    (id : String) (req : NextRequest) (now : ℕ) (ds : List NewDigest) (s : CursorStore)
    (session : CursorSession)
    → Inv s
    → lookup id s.sessions ≡ some session
    → now < session.expires_at
    → FreshFor id session.expires_at ds (next id req now s).0
    → length ds < s.capacity
    → lookup id (put_all ds (next id req now s).0).sessions
      ≡ lookup id (next id req now s).0.sessions
next_then_put_spares id req now ds s session h there live fresh room = rw (read) (
    put_all_spares id ds after read_session (rw (read) at (next-Inv id req now s h))
      (lookup-next_live id req session s) (rw (read) at fresh) recent
    ∙ sym (lookup-next_live id req session s))
  where
    read : next id req now s ≡ next_live id req session s
    read = next_of_live id req now s session there live

    after : CursorStore
    after = (next_live id req session s).0

    read_session : CursorSession
    read_session = record session { offset = (read_page req session).next_offset }

    recent : used_after id after.order + length ds < after.capacity
    recent = next_live_recent id req session s h.in_step.distinct (length ds) room
