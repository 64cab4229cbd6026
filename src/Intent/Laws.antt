-- ===== src/Intent/Laws.antt =====
-- The intent table and its order.
use dbx_plugin_kafka.Base.{
  ℕ, ◌+◌, ◌≤◌, ◌<◌, ◌≡◌, refl, ◌∙◌, String, false, Option, List, [], ◌∷◌, ◌++◌, length, arith,
  string_eq, beq_refl, contains, Bool-cases, Option-cases, inl, inr,
}
use dbx_plugin_kafka.Base.Int.{ℤ}
use dbx_plugin_kafka.Base.Dict.{AllAt, AllAt-insert, AllAt-delete, lookup, insert}
use dbx_plugin_kafka.Lru.Laws.{
  InStep, prune_order-InStep, length-prune_order-le, lookup-prune_order, evict_order-InStep,
  length-evict_order-le, lookup-evict_order, append-InStep, update-InStep, remove-InStep,
  length-remove_first-le, contains-remove_first,
}
use dbx_plugin_kafka.Intent.{
  Object, IntentState, Intent, IntentStore, is_final, new_intent_store, is_live, prune_locked,
  remove_locked, evict, make_way, new_intent, register, report, get, set_snapshot,
}

-- The id under which an intent stands is its own.
abbrev pub HasId : String → Intent → Type 0
HasId k intent = intent.id ≡ k

pub record Inv (s : IntentStore) : Type 0 where
  pub in_step : InStep s.items s.order
  pub has_room : 0 < s.capacity
  pub bounded : length s.order ≤ s.capacity
  pub own_ids : AllAt HasId s.items

new_intent_store-Inv : (ttl capacity : ℤ) → Inv (new_intent_store ttl capacity)
unfolding new_intent_store lookup contains
new_intent_store-Inv ttl capacity = record {
  in_step = record { distinct = tt; listed = λ k. refl };
  has_room = ground arith;
  bounded = omega arith;
  own_ids = λ k intent e. cc;
}

pub prune_locked-Inv : (now : ℕ) (s : IntentStore) → Inv s → Inv (prune_locked now s)
unfolding prune_locked
prune_locked-Inv now s h = record {
  in_step = prune_order-InStep (is_live now) s.items s.order h.in_step;
  has_room = h.has_room;
  bounded = omega (arith, length-prune_order-le (is_live now) s.items s.order, h.bounded);
  own_ids = λ k intent e.
      h.own_ids k intent (ground (arith, lookup-prune_order (is_live now) s.items s.order k));
}

remove_locked-Inv : (id : String) (s : IntentStore) → Inv s → Inv (remove_locked id s)
unfolding remove_locked
remove_locked-Inv id s h = record {
  in_step = remove-InStep s.items s.order id h.in_step;
  has_room = h.has_room;
  bounded = omega (arith, length-remove_first-le id s.order, h.bounded);
  own_ids = AllAt-delete HasId id s.items h.own_ids;
}

-- An intent of the id is gone, and the invariant holds.
pub make_way-Inv :
    (id : String) (s : IntentStore)
    → Inv s
    → Inv (make_way id s) × (contains id (make_way id s).order ≡ false)
unfolding make_way
make_way-Inv id s h = elim (Option-cases (lookup id s.items)) [
  | inl missing ↦ rw (missing, make_way) (h, ground (arith, h.in_step.listed id))
  | inr (intent, there) ↦
      rw (there, make_way)
        (
          remove_locked-Inv id s h,
          unfold remove_locked in
              (contains-remove_first id id s.order h.in_step.distinct ∙ rw (beq_refl id)),
        )
]

register-Inv :
    (id action : String) (params : Object) (now : ℕ) (s : IntentStore)
    → Inv s
    → Inv (register id action params now s).0
unfolding register evict
register-Inv id action params now s h =
    let (v, gone) = make_way-Inv id (prune_locked now s) (prune_locked-Inv now s h) in
    let stepped = append-InStep cleared.items cleared.order id _ v.in_step gone in
    record {
      in_step = evict_order-InStep cleared.capacity _ _ stepped;
      has_room = v.has_room;
      bounded = length-evict_order-le cleared.capacity _ _;
      own_ids = λ k intent e.
          AllAt-insert HasId id (new_intent id action params (now + cleared.ttl)) cleared.items
            (unfold new_intent in refl) v.own_ids k intent
            (ground (
              arith,
              lookup-evict_order cleared.capacity
                  (insert id (new_intent id action params (now + cleared.ttl)) cleared.items)
                  (cleared.order ++ (id ∷ [])) k stepped,
            ));
    }
  where
    cleared : IntentStore
    cleared = make_way id (prune_locked now s)

report-Inv :
    (id : String) (state : IntentState) (summary : Option Object) (reason : String) (now : ℕ)
    (s : IntentStore)
    → Inv s
    → Inv (report id state summary reason now s).0
unfolding report
report-Inv id state summary reason now s h = elim (Option-cases (lookup id s.items)) [
  | inl missing ↦ rw (missing, report) h
  | inr (intent, there) ↦ elim (Bool-cases (is_live now intent)) [
    | inr dead ↦ rw (there, report) (rw dead (remove_locked-Inv id s h))
    | inl live ↦ elim (Bool-cases (is_final state)) [
      | inr no_end ↦ rw (there, report) (rw (live, no_end) h)
      | inl end ↦
          rw (there, report)
            (rw (live, end)
              (record {
                in_step =
                    update-InStep s.items s.order id _ h.in_step
                      (ground (arith, h.in_step.listed id));
                has_room = h.has_room;
                bounded = h.bounded;
                own_ids = AllAt-insert HasId id _ s.items (h.own_ids id intent there) h.own_ids;
              }))
    ]
  ]
]

get-Inv : (id : String) (now : ℕ) (s : IntentStore) → Inv s → Inv (get id now s).0
unfolding get
get-Inv id now s h = elim (Option-cases (lookup id s.items)) [
  | inl missing ↦ rw (missing, get) h
  | inr (intent, there) ↦ elim (Bool-cases (is_live now intent)) [
    | inr dead ↦ rw (there, get) (rw dead (remove_locked-Inv id s h))
    | inl live ↦ rw (there, get) (rw live h)
  ]
]

pub data Call : Type 0 where
  registers : String → String → Object → ℕ → Call
  reports : String → IntentState → Option Object → String → ℕ → Call
  gets : String → ℕ → Call
  sets_snapshot : Option Object → Call

unfoldable pub step : Call → IntentStore → IntentStore
step (registers id action params now) s = (register id action params now s).0
step (reports id state summary reason now) s = (report id state summary reason now s).0
step (gets id now) s = (get id now s).0
step (sets_snapshot snapshot) s = set_snapshot snapshot s

unfoldable pub run : List Call → IntentStore → IntentStore
run [] s = s
run (c ∷ cs) s = run cs (step c s)

step-Inv : (c : Call) (s : IntentStore) → Inv s → Inv (step c s)
unfolding step set_snapshot
step-Inv (registers id action params now) s h = register-Inv id action params now s h
step-Inv (reports id state summary reason now) s h = report-Inv id state summary reason now s h
step-Inv (gets id now) s h = get-Inv id now s h
step-Inv (sets_snapshot snapshot) s h = record {
  in_step = h.in_step;
  has_room = h.has_room;
  bounded = h.bounded;
  own_ids = h.own_ids;
}

run_from-Inv : (cs : List Call) (s : IntentStore) → Inv s → Inv (run cs s)
unfolding run
run_from-Inv [] s h = h
run_from-Inv (c ∷ cs) s h = run_from-Inv cs (step c s) (step-Inv c s h)

-- After any calls on a new store the order lists the ids of the table once each, there are at most
-- `capacity` of them, and each intent stands under its own id. An id may be registered again.
pub history-Inv : (ttl capacity : ℤ) (cs : List Call) → Inv (run cs (new_intent_store ttl capacity))
history-Inv ttl capacity cs = run_from-Inv cs _ (new_intent_store-Inv ttl capacity)
