-- ===== src/Lru/Laws.antt =====
-- The map and the order of an evicting table, under each of its moves.
use dbx_plugin_kafka.Base.{
  ℕ, zero, suc, sym, ap, ◌∙◌, ◌-◌, ◌≤◌, ◌≡◌, refl, String, Bool, true, false, ◌&&◌, Option, none,
  some, List, [], ◌∷◌, ◌++◌, if◌then◌else◌, ltb, length, drop, arith, ◌==◌, string_eq, beq_refl,
  contains, contains-append, remove_first, Distinct, length-append, Bool-cases, inl, inr,
}
use dbx_plugin_kafka.Base.Dict.{
  Dict, lookup, insert, delete, filter_opt, lookup-insert, lookup-delete,
}
use dbx_plugin_kafka.Lru.{passes, prune_order, evict_order, touch_order}

abbrev pub is_some {ℓ} : {A : Type ℓ} → Option A → Bool
is_some none = false
is_some (some a) = true

drop-nil {ℓ} : (A : Type ℓ) (n : ℕ) → ◌≡◌ {A = List A} (drop n []) []
drop-nil A zero = refl
drop-nil A (suc n) = refl

pub contains-singleton : (k id : String) → contains k (id ∷ []) ≡ (id == k)
unfolding contains
contains-singleton k id = ground arith

Distinct-snoc :
    (ids : List String) (id : String)
    → Distinct ids
    → contains id ids ≡ false
    → Distinct (ids ++ (id ∷ []))
unfolding contains
Distinct-snoc [] id d fresh = (refl, tt)
Distinct-snoc (x ∷ ids) id d fresh = (
  ground (
    arith,
    d.0,
    contains-append x ids (id ∷ []),
    contains-singleton x id,
    string_eq.same_iff x id,
    string_eq.same_iff id x,
  ),
  Distinct-snoc ids id d.1 (ground arith),
)

pub contains-remove_first :
    (k id : String) (ids : List String)
    → Distinct ids
    → contains k (remove_first id ids) ≡ (if id == k then false else contains k ids)
unfolding contains remove_first
contains-remove_first k id [] d = ground arith
contains-remove_first k id (x ∷ ids) d = ground (
  arith,
  d.0,
  contains-remove_first k id ids d.1,
  string_eq.same_iff x id,
  string_eq.same_iff x k,
  string_eq.same_iff id k,
)

pub remove_first-Distinct :
    (id : String) (ids : List String) → Distinct ids → Distinct (remove_first id ids)
unfolding remove_first
remove_first-Distinct id [] d = tt
remove_first-Distinct id (x ∷ ids) d =
    ground (arith, remove_first-Distinct id ids d.1, contains-remove_first x id ids d.1)

length-remove_first :
    (id : String) (ids : List String)
    → contains id ids ≡ true
    → suc (length (remove_first id ids)) ≡ length ids
unfolding contains remove_first
length-remove_first id [] there = cc
length-remove_first id (x ∷ ids) there = ground (arith, length-remove_first id ids)

module _ {V : Type 0} where
  -- The order lists each id of the map once, and no other id.
  pub record InStep (m : Dict String V) (order : List String) : Type 0 where
    pub distinct : Distinct order
    pub listed : (k : String) → contains k order ≡ is_some (lookup k m)

  pub lookup-prune_order :
      (live : V → Bool) (m : Dict String V) (ids : List String) (k : String)
      → lookup k (prune_order live m ids).0
        ≡ (if contains k ids then filter_opt live (lookup k m) else lookup k m)
  unfolding prune_order contains
  lookup-prune_order live m [] k = refl
  lookup-prune_order live m (id ∷ ids) k = ground (
    arith,
    string_eq.same_iff id k,
    lookup-prune_order live m ids k,
    lookup-prune_order live (delete id m) ids k,
    lookup-delete k id m,
  )

  pub contains-prune_order :
      (live : V → Bool) (m : Dict String V) (ids : List String) (k : String)
      → contains k (prune_order live m ids).1 ≡ (contains k ids && passes live (lookup k m))
  unfolding prune_order contains
  contains-prune_order live m [] k = refl
  contains-prune_order live m (id ∷ ids) k = ground (
    arith,
    string_eq.same_iff id k,
    contains-prune_order live m ids k,
    contains-prune_order live (delete id m) ids k,
    lookup-delete k id m,
  )

  pub length-prune_order-le :
      (live : V → Bool) (m : Dict String V) (ids : List String)
      → length (prune_order live m ids).1 ≤ length ids
  unfolding prune_order
  length-prune_order-le live m [] = omega arith
  length-prune_order-le live m (id ∷ ids) =
      ground (arith, length-prune_order-le live m ids, length-prune_order-le live (delete id m) ids)

  prune_order-Distinct :
      (live : V → Bool) (m : Dict String V) (ids : List String)
      → Distinct ids
      → Distinct (prune_order live m ids).1
  unfolding prune_order
  prune_order-Distinct live m [] d = tt
  prune_order-Distinct live m (id ∷ ids) d = ground (
    arith,
    prune_order-Distinct live m ids d.1,
    prune_order-Distinct live (delete id m) ids d.1,
    contains-prune_order live m ids id,
  )

  pub prune_order-InStep :
      (live : V → Bool) (m : Dict String V) (ids : List String)
      → InStep m ids
      → InStep (prune_order live m ids).0 (prune_order live m ids).1
  prune_order-InStep live m ids h = record {
    distinct = prune_order-Distinct live m ids h.distinct;
    listed = λ k.
        ground
          (arith, h.listed k, contains-prune_order live m ids k, lookup-prune_order live m ids k);
  }

  pub evict_order-drop :
      (capacity : ℕ) (m : Dict String V) (ids : List String)
      → (evict_order capacity m ids).1 ≡ drop (length ids - capacity) ids
  unfolding evict_order
  evict_order-drop capacity m [] = sym (drop-nil String (0 - capacity))
  evict_order-drop capacity m (id ∷ ids) = elim (Bool-cases (ltb capacity (length (id ∷ ids)))) [
    | inl over ↦
        rw (over, evict_order)
          (evict_order-drop capacity (delete id m) ids
            ∙ ap (λ k. drop k (id ∷ ids)) {x = suc (length ids - capacity)} (ground arith))
    | inr fits ↦ rw (fits, evict_order) (ap (λ k. drop k (id ∷ ids)) {x = 0} (ground arith))
  ]

  pub length-evict_order-le :
      (capacity : ℕ) (m : Dict String V) (ids : List String)
      → length (evict_order capacity m ids).1 ≤ capacity
  unfolding evict_order
  length-evict_order-le capacity m [] = omega arith
  length-evict_order-le capacity m (id ∷ ids) =
      ground (arith, length-evict_order-le capacity (delete id m) ids)

  evict_one-InStep :
      (m : Dict String V) (id : String) (ids : List String)
      → InStep m (id ∷ ids)
      → InStep (delete id m) ids
  unfolding contains
  evict_one-InStep m id ids h = record {
    distinct = h.distinct.1;
    listed = λ k.
        ground (arith, h.distinct.0, h.listed k, lookup-delete k id m, string_eq.same_iff id k);
  }

  pub evict_order-InStep :
      (capacity : ℕ) (m : Dict String V) (ids : List String)
      → InStep m ids
      → InStep (evict_order capacity m ids).0 (evict_order capacity m ids).1
  unfolding evict_order
  evict_order-InStep capacity m [] h = h
  evict_order-InStep capacity m (id ∷ ids) h =
      elim (Bool-cases (ltb capacity (length (id ∷ ids)))) [
        | inl over ↦
            rw (over, evict_order)
              (evict_order-InStep capacity (delete id m) ids (evict_one-InStep m id ids h))
        | inr fits ↦ rw (fits, evict_order) h
      ]

  -- What stays keeps its value.
  pub lookup-evict_order :
      (capacity : ℕ) (m : Dict String V) (ids : List String) (k : String)
      → InStep m ids
      → lookup k (evict_order capacity m ids).0
        ≡ (if contains k (evict_order capacity m ids).1 then lookup k m else none)
  unfolding evict_order contains
  lookup-evict_order capacity m [] k h = ground (arith, h.listed k)
  lookup-evict_order capacity m (id ∷ ids) k h = ground (
    arith,
    h.listed k,
    lookup-evict_order capacity (delete id m) ids k (evict_one-InStep m id ids h),
    lookup-delete k id m,
    string_eq.same_iff id k,
    (evict_order-InStep capacity (delete id m) ids (evict_one-InStep m id ids h)).listed k,
  )

  pub append-InStep :
      (m : Dict String V) (ids : List String) (id : String) (v : V)
      → InStep m ids
      → contains id ids ≡ false
      → InStep (insert id v m) (ids ++ (id ∷ []))
  append-InStep m ids id v h fresh = record {
    distinct = Distinct-snoc ids id h.distinct fresh;
    listed = λ k. ground (
      arith,
      h.listed k,
      contains-append k ids (id ∷ []),
      lookup-insert k id v m,
      contains-singleton k id,
    );
  }

  -- A new value for an id that is there.
  pub update-InStep :
      (m : Dict String V) (ids : List String) (id : String) (v : V)
      → InStep m ids
      → contains id ids ≡ true
      → InStep (insert id v m) ids
  update-InStep m ids id v h there = record {
    distinct = h.distinct;
    listed = λ k. ground (arith, h.listed k, lookup-insert k id v m, string_eq.same_iff id k);
  }

  pub remove-InStep :
      (m : Dict String V) (ids : List String) (id : String)
      → InStep m ids
      → InStep (delete id m) (remove_first id ids)
  remove-InStep m ids id h = record {
    distinct = remove_first-Distinct id ids h.distinct;
    listed = λ k.
        ground (arith, h.listed k, lookup-delete k id m, contains-remove_first k id ids h.distinct);
  }

  pub touch_order-InStep :
      (m : Dict String V) (ids : List String) (id : String)
      → InStep m ids
      → contains id ids ≡ true
      → InStep m (touch_order id ids)
  unfolding touch_order
  touch_order-InStep m ids id h there = record {
    distinct =
        Distinct-snoc (remove_first id ids) id (remove_first-Distinct id ids h.distinct)
          (rw (contains-remove_first id id ids h.distinct, beq_refl id));
    listed = λ k. ground (
      arith,
      h.listed k,
      contains-append k (remove_first id ids) (id ∷ []),
      contains-remove_first k id ids h.distinct,
      contains-singleton k id,
      string_eq.same_iff id k,
    );
  }

pub contains-touch_order :
    (id : String) (ids : List String) → contains id (touch_order id ids) ≡ true
unfolding touch_order contains
contains-touch_order id ids =
    ground (arith, contains-append id (remove_first id ids) (id ∷ []), beq_refl id)

pub length-remove_first-le :
    (id : String) (ids : List String) → length (remove_first id ids) ≤ length ids
unfolding remove_first
length-remove_first-le id [] = omega arith
length-remove_first-le id (x ∷ ids) = ground (arith, length-remove_first-le id ids)

pub length-touch_order :
    (id : String) (ids : List String)
    → contains id ids ≡ true
    → length (touch_order id ids) ≡ length ids
unfolding touch_order
length-touch_order id ids there =
    omega (arith, length-append (remove_first id ids) (id ∷ []), length-remove_first id ids there)
