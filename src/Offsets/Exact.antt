-- ===== src/Offsets/Exact.antt =====
-- Where each partition starts when offsets are given for partitions.
use dbx_plugin_kafka.Base.{
  ℕ, ◌≡◌, ◌≢◌, refl, sym, ap, subst, ◌∙◌, ◌⊎◌, inl, inr, String, true, not, ◌||◌, Option, none,
  some, List, [], ◌∷◌, if◌then◌else◌, ◌==◌, contains, nat_eq, string_eq, arith, Bool-cases,
  Option-cases,
}
use dbx_plugin_kafka.Base.Int.{ℤ}
use dbx_plugin_kafka.Base.Dict.{Dict, lookup, insert, lookup-insert}
use dbx_plugin_kafka.Base.Result.{ok, >>=-eq-ok}
use dbx_plugin_kafka.Offsets.{
  Offset, at_start, at_offset, Strategy, exact, is_exact, is_empty, ConsumeOpts, with_partitions,
  exact_partitions, build_consume_opts,
}

-- The given offset, and the start of the partition without one.
abbrev pub wanted : Option ℕ → Offset
wanted none = at_start
wanted (some offset) = at_offset offset

exact_partitions_lem :
    (strategy : Strategy) (offsets : Dict ℕ ℕ) (ps : List ℕ) (acc found : Dict ℕ Offset) (p : ℕ)
    → exact_partitions strategy offsets ps acc ≡ ok found
    → lookup p found ≡ (if contains p ps then some (wanted (lookup p offsets)) else lookup p acc)
unfolding exact_partitions contains
exact_partitions_lem strategy offsets [] acc found p h = ground arith
exact_partitions_lem strategy offsets (q ∷ ps) acc found p h =
    elim (Option-cases (lookup q offsets)) [
      | inr (offset, there) ↦ ground (
        arith,
        exact_partitions_lem strategy offsets ps (insert q (at_offset offset) acc) found p
            (rw (there, exact_partitions) at h),
        lookup-insert p q (at_offset offset) acc,
        there,
        nat_eq.same_iff q p,
        λ (e : q ≡ p). ap (λ k. lookup k offsets) e,
      )
      | inl missing ↦ elim (Bool-cases (is_exact strategy)) [
        | inl required ↦ absurd (ground (arith, rw (missing, required, exact_partitions) at h))
        | inr optional ↦ ground (
          arith,
          exact_partitions_lem strategy offsets ps (insert q at_start acc) found p
              (rw (missing, optional, exact_partitions) at h),
          lookup-insert p q at_start acc,
          missing,
          nat_eq.same_iff q p,
          λ (e : q ≡ p). ap (λ k. lookup k offsets) e,
        )
      ]
    ]

-- With the strategy `offset` the loop succeeds only if each partition has an offset.
exact_partitions_required :
    (offsets : Dict ℕ ℕ) (ps : List ℕ) (acc found : Dict ℕ Offset) (p : ℕ)
    → exact_partitions exact offsets ps acc ≡ ok found
    → contains p ps ≡ true
    → lookup p offsets ≢ none
unfolding exact_partitions contains
exact_partitions_required offsets [] acc found p h m e = ground arith
exact_partitions_required offsets (q ∷ ps) acc found p h m e =
    elim (Option-cases (lookup q offsets)) [
      | inl missing ↦ ground (arith, rw (missing, exact_partitions) at h)
      | inr (offset, there) ↦ elim (Bool-cases (q == p)) [
        | inl same ↦
            ground (arith, ap (λ k. lookup k offsets) ((nat_eq.same_iff q p).0 same), there, e)
        | inr differ ↦
            exact_partitions_required offsets ps (insert q (at_offset offset) acc) found p
              (rw (there, exact_partitions) at h) (ground arith) e
      ]
    ]

exact_branch :
    (strategy : Strategy) (offsets : Dict ℕ ℕ)
    → (offsets ≢ []) ⊎ (strategy ≡ exact)
    → (not (is_empty offsets) || is_exact strategy) ≡ true
exact_branch strategy [] (inl h) = absurd (h refl)
exact_branch strategy [] (inr e) = ap is_exact e
exact_branch strategy (o ∷ os) given = refl

-- A consumer of given partitions with offsets for some of them, when it can be made, reads exactly those
-- partitions, each from its given offset or else from its start; and if the strategy is `offset`, each
-- of them has a given offset.
pub build_consume_opts_lem :
    (strategy : Strategy) (millis : Option ℤ) (group_id : String) (window : ℕ) (offsets : Dict ℕ ℕ)
    (first : ℕ) (rest : List ℕ) (opts : ConsumeOpts)
    → (offsets ≢ []) ⊎ (strategy ≡ exact)
    → build_consume_opts strategy millis group_id window offsets (first ∷ rest) ≡ ok opts
    → ((p : ℕ)
        → lookup p opts.partitions
          ≡ (if contains p (first ∷ rest) then some (wanted (lookup p offsets)) else none))
      × (strategy ≡ exact → (p : ℕ) → contains p (first ∷ rest) ≡ true → lookup p offsets ≢ none)
unfolding build_consume_opts lookup
build_consume_opts_lem strategy millis group_id window offsets first rest opts given h =
    let branch = exact_branch strategy offsets given in
    let (found, made, same) =
      >>=-eq-ok (exact_partitions strategy offsets (first ∷ rest) [])
        (λ found. ok (with_partitions group_id found)) (rw (branch, build_consume_opts) at h) in
    let partitions : found ≡ opts.partitions = ground arith in
    (
      λ p.
          ap (lookup p) (sym partitions)
          ∙ exact_partitions_lem strategy offsets (first ∷ rest) [] found p made,
      λ e p m.
          exact_partitions_required offsets (first ∷ rest) [] found p
            (subst (λ s. exact_partitions s offsets (first ∷ rest) [] ≡ ok found) e made) m,
    )
