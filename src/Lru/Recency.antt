-- ===== src/Lru/Recency.antt =====
-- How far an id stands from the recently used end of the order, and which ids an eviction spares.
use dbx_plugin_kafka.Base.{
  ℕ, zero, suc, ◌+◌, ◌-◌, ◌≤◌, ◌<◌, ◌≡◌, refl, String, Bool, true, false, List, [], ◌∷◌, ◌++◌,
  if◌then◌else◌, length, drop, arith, ◌==◌, string_eq, contains, remove_first, length-append,
  Distinct,
}
use dbx_plugin_kafka.Base.Dict.{Dict, lookup, delete, lookup-delete}
use dbx_plugin_kafka.Lru.{passes, prune_order, evict_order, touch_order}
use dbx_plugin_kafka.Lru.Laws.{
  InStep, lookup-evict_order, evict_order-drop, length-prune_order-le, contains-remove_first,
}

-- How many ids were used after this one.
unfoldable pub used_after : String → List String → ℕ
used_after id [] = 0
used_after id (x ∷ ids) = let rest = used_after id ids in if x == id then length ids else rest

pub used_after-lt-length :
    (id : String) (ids : List String) → contains id ids ≡ true → used_after id ids < length ids
unfolding used_after contains
used_after-lt-length id [] there = cc
used_after-lt-length id (x ∷ ids) there = ground (arith, used_after-lt-length id ids)

pub used_after-append :
    (id x : String) (ids : List String)
    → contains id ids ≡ true
    → used_after id (ids ++ (x ∷ [])) ≡ suc (used_after id ids)
unfolding used_after contains
used_after-append id x [] there = cc
used_after-append id x (y ∷ ids) there =
    ground (arith, used_after-append id x ids, length-append ids (x ∷ []))

pub used_after-append_self :
    (id : String) (ids : List String)
    → contains id ids ≡ false
    → used_after id (ids ++ (id ∷ [])) ≡ 0
unfolding used_after contains
used_after-append_self id [] fresh = ground arith
used_after-append_self id (y ∷ ids) fresh = ground (arith, used_after-append_self id ids)

-- Dropping the least recently used ids moves none of the others.
pub drop_spares :
    (n : ℕ) (id : String) (ids : List String)
    → contains id ids ≡ true
    → n + used_after id ids < length ids
    → (contains id (drop n ids) ≡ true) × (used_after id (drop n ids) ≡ used_after id ids)
unfolding used_after contains
drop_spares zero id ids there few = (there, refl)
drop_spares (suc n) id [] there few = absurd (omega arith)
drop_spares (suc n) id (x ∷ ids) there few = ground (arith, drop_spares n id ids)

pub used_after-prune_order-le :
    {V : Type 0} (live : V → Bool) (m : Dict String V) (id : String) (ids : List String)
    → contains id ids ≡ true
    → passes live (lookup id m) ≡ true
    → used_after id (prune_order live m ids).1 ≤ used_after id ids
unfolding used_after prune_order contains
used_after-prune_order-le live m id [] there alive = cc
used_after-prune_order-le live m id (x ∷ ids) there alive = ground (
  arith,
  string_eq.same_iff x id,
  length-prune_order-le live m ids,
  used_after-prune_order-le live m id ids,
  used_after-prune_order-le live (delete x m) id ids,
  lookup-delete id x m,
)

-- An id with fewer later ones than the capacity outlives the eviction, at its place and with its value.
pub evict_order_spares :
    {V : Type 0} (capacity : ℕ) (m : Dict String V) (id : String) (ids : List String)
    → InStep m ids
    → contains id ids ≡ true
    → used_after id ids < capacity
    → (lookup id (evict_order capacity m ids).0 ≡ lookup id m)
      × (contains id (evict_order capacity m ids).1 ≡ true)
      × (used_after id (evict_order capacity m ids).1 ≡ used_after id ids)
evict_order_spares capacity m id ids h there recent = ground (
  arith,
  lookup-evict_order capacity m ids id h,
  evict_order-drop capacity m ids,
  drop_spares (length ids - capacity) id ids there,
  used_after-lt-length id ids there,
)

pub used_after-touch_order :
    (id : String) (ids : List String) → Distinct ids → used_after id (touch_order id ids) ≡ 0
unfolding touch_order
used_after-touch_order id ids d =
    used_after-append_self id (remove_first id ids)
      (ground (arith, contains-remove_first id id ids d, string_eq.same_iff id id))
