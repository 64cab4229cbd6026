-- ===== src/Intent/Lifecycle.antt =====
-- One intent from its registration through a report to the reading of its state.
use dbx_plugin_kafka.Base.{
  ℕ, ◌+◌, ◌≡◌, ap, ◌∙◌, String, not, Option, none, some, [], ◌∷◌, ◌++◌, if◌then◌else◌, leb, arith,
  string_eq, beq_refl, contains-append,
}
use dbx_plugin_kafka.Base.Dict.{lookup, insert, lookup-insert, lookup-delete}
use dbx_plugin_kafka.Lru.Laws.{append-InStep, contains-singleton}
use dbx_plugin_kafka.Lru.Recency.{evict_order_spares, used_after-append_self}
use dbx_plugin_kafka.Intent.{
  Object, IntentState, Intent, IntentStore, is_final, is_live, prune_locked, remove_locked, evict,
  make_way, new_intent, register, report, get, LookupStatus, found, expired, unknown,
}
use dbx_plugin_kafka.Intent.Laws.{Inv, prune_locked-Inv, make_way-Inv}

ttl-make_way : (id : String) (s : IntentStore) → (make_way id s).ttl ≡ s.ttl
unfolding make_way remove_locked
ttl-make_way id s = ground arith

lookup-register :
    (id action : String) (params : Object) (now : ℕ) (s : IntentStore)
    → Inv s
    → lookup id (register id action params now s).0.items
      ≡ some (new_intent id action params (now + s.ttl))
unfolding register evict
lookup-register id action params now s h =
    let (v, gone) = make_way-Inv id (prune_locked now s) (prune_locked-Inv now s h) in
    (evict_order_spares cleared.capacity
      (insert id (new_intent id action params (now + cleared.ttl)) cleared.items) id
      (cleared.order ++ (id ∷ [])) (append-InStep cleared.items cleared.order id _ v.in_step gone)
      (ground
        (arith, contains-append id cleared.order (id ∷ []), contains-singleton id id, beq_refl id))
      (ground (arith, used_after-append_self id cleared.order gone, v.has_room))).0
    ∙ rw (lookup-insert, beq_refl id)
        (ap (λ ttl. some (new_intent id action params (now + ttl))) same_ttl)
  where
    cleared : IntentStore
    cleared = make_way id (prune_locked now s)

    same_ttl : cleared.ttl ≡ s.ttl
    same_ttl = unfold prune_locked in ttl-make_way id (prune_locked now s)

-- What the table holds of an id after a report on it.
lookup-report :
    (id : String) (state : IntentState) (summary : Option Object) (reason : String) (now : ℕ)
    (s : IntentStore) (intent : Intent)
    → lookup id s.items ≡ some intent
    → lookup id (report id state summary reason now s).0.items ≡ (
        if not (is_live now intent)
        then none
        else if is_final state
        then some (record intent { state = state; summary = summary; reason = reason })
        else some intent)
unfolding report remove_locked
lookup-report id state summary reason now s intent there =
    rw (there, report)
      (ground (
        arith,
        there,
        beq_refl id,
        lookup-delete id id s.items,
        lookup-insert id id (record intent { state = state; summary = summary; reason = reason })
            s.items,
      ))

-- What a call of `Get` returns to its caller.
abbrev pub outcome : IntentStore × Option Intent × LookupStatus → Option Intent × LookupStatus
outcome (s, intent, status) = (intent, status)

-- What `Get` answers, told by what the table holds.
abbrev pub answer : ℕ → Option Intent → Option Intent × LookupStatus
answer now none = (none, unknown)
answer now (some intent) =
    if not (is_live now intent) then (none, expired) else (some intent, found)

get-answer :
    (id : String) (now : ℕ) (s : IntentStore)
    → outcome (get id now s) ≡ answer now (lookup id s.items)
unfolding get
get-answer id now s = ground arith

answer_lem :
    (id action : String) (params : Object) (state : IntentState) (summary : Option Object)
    (reason : String) (expires_at reported read : ℕ)
    → let intent = new_intent id action params expires_at in
      let told = record intent { state = state; summary = summary; reason = reason } in
      answer read (
        if not (is_live reported intent)
        then none
        else if is_final state
        then some told
        else some intent)
      ≡ (if leb expires_at reported
          then (none, unknown)
          else if leb expires_at read
          then (none, expired)
          else (some (if is_final state then told else intent), found))
unfolding new_intent
answer_lem id action params state summary reason expires_at reported read = ground arith

-- An intent that is registered, reported on and read: a report in time with a final state is what is
-- read, another report leaves the intent pending, a report after the time to live removes it, and a
-- reading after the time to live is told that it has expired.
pub get-report-register :
    (id action : String) (params : Object) (state : IntentState) (summary : Option Object)
    (reason : String) (now reported read : ℕ) (s : IntentStore)
    → Inv s
    → let intent = new_intent id action params (now + s.ttl) in
      let told = record intent { state = state; summary = summary; reason = reason } in
      let t = (report id state summary reason reported (register id action params now s).0).0 in
      outcome (get id read t) ≡ (
        if leb (now + s.ttl) reported
        then (none, unknown)
        else if leb (now + s.ttl) read
        then (none, expired)
        else (some (if is_final state then told else intent), found))
get-report-register id action params state summary reason now reported read s h =
    get-answer id read
      (report id state summary reason reported (register id action params now s).0).0
    ∙ ap (answer read) (
        lookup-report id state summary reason reported (register id action params now s).0
          (new_intent id action params (now + s.ttl)) (lookup-register id action params now s h))
    ∙ answer_lem id action params state summary reason (now + s.ttl) reported read
