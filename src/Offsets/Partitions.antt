-- ===== src/Offsets/Partitions.antt =====
-- The normalized list of partitions.
use dbx_plugin_kafka.Base.{
  ℕ, ◌<◌, ◌≡◌, refl, ap, subst, ◌∙◌, inl, inr, Bool, false, ◌||◌, List, [], ◌∷◌, All, if◌then◌else◌,
  ltb, ◌==◌, contains, nat_eq, arith, Bool-cases, ltb→lt,
}
use dbx_plugin_kafka.Base.Int.{ℤ, pos, negsuc}
use dbx_plugin_kafka.Base.Result.{ok, >>=-eq-ok}
use dbx_plugin_kafka.Offsets.{insert_sorted, normalize_partitions}

-- Each number is below all that follow it.
abbrev pub IsAscending : List ℕ → Type 0
IsAscending [] = Unit
IsAscending (n ∷ ns) = All (λ m. n < m) ns × IsAscending ns

-- Whether the request names the partition.
abbrev pub names : ℕ → List ℤ → Bool
names p [] = false
names p (pos n ∷ ps) = n == p || names p ps
names p (negsuc n ∷ ps) = names p ps

contains-insert_sorted :
    (p n : ℕ) (ns : List ℕ) → contains p (insert_sorted n ns) ≡ (n == p || contains p ns)
unfolding contains insert_sorted
contains-insert_sorted p n [] = refl
contains-insert_sorted p n (m ∷ ms) = ground (arith, contains-insert_sorted p n ms)

All-insert_sorted :
    (l n : ℕ) (ns : List ℕ) → l < n → All (λ m. l < m) ns → All (λ m. l < m) (insert_sorted n ns)
unfolding insert_sorted
All-insert_sorted l n [] h all = (h, tt)
All-insert_sorted l n (m ∷ ms) h (first, all) = elim (Bool-cases (ltb m n)) [
  | inl before ↦ rw (before, insert_sorted) (first, All-insert_sorted l n ms h all)
  | inr after ↦ rw (after, insert_sorted) (h, (first, all))
]

All-trans : (n m : ℕ) (ns : List ℕ) → n < m → All (λ k. m < k) ns → All (λ k. n < k) ns
All-trans n m [] h all = tt
All-trans n m (k ∷ ks) h (first, all) = (omega arith, All-trans n m ks h all)

insert_sorted-IsAscending :
    (n : ℕ) (ns : List ℕ)
    → contains n ns ≡ false
    → IsAscending ns
    → IsAscending (insert_sorted n ns)
unfolding insert_sorted contains
insert_sorted-IsAscending n [] new h = (tt, tt)
insert_sorted-IsAscending n (m ∷ ms) new (first, h) = elim (Bool-cases (ltb m n)) [
  | inl before ↦
      rw (before, insert_sorted)
        (
          All-insert_sorted m n ms (ltb→lt m n before) first,
          insert_sorted-IsAscending n ms (ground arith) h,
        )
  | inr after ↦
      let below : n < m = ground (arith, nat_eq.same_iff m n) in
      rw (after, insert_sorted) ((below, All-trans n m ms below first), (first, h))
]

-- When the partitions of a request are accepted, they become an ascending list without repetition, of
-- exactly the partitions that the request names.
pub normalize_partitions_lem :
    (ps : List ℤ) (ns : List ℕ)
    → normalize_partitions ps ≡ ok ns
    → IsAscending ns × ((p : ℕ) → contains p ns ≡ names p ps)
unfolding normalize_partitions contains
normalize_partitions_lem [] ns h =
    let none_left : [] ≡ ns = ground arith in
    subst (λ l. IsAscending l × ((p : ℕ) → contains p l ≡ false)) none_left (tt, λ p. refl)
normalize_partitions_lem (negsuc n ∷ ps) ns h = absurd (ground arith)
normalize_partitions_lem (pos n ∷ ps) ns h =
    let (rest, made, last) =
      >>=-eq-ok (normalize_partitions ps)
        (λ rest. ok (if contains n rest then rest else insert_sorted n rest)) h in
    let (ascending, same) = normalize_partitions_lem ps rest made in
    elim (Bool-cases (contains n rest)) [
      | inl old ↦
          let kept : rest ≡ ns = ground arith in
          subst (λ l. IsAscending l × ((p : ℕ) → contains p l ≡ (n == p || names p ps))) kept
            (ascending, λ p. ground (arith, same p, old, nat_eq.same_iff n p))
      | inr new ↦
          let grown : insert_sorted n rest ≡ ns = ground arith in
          subst (λ l. IsAscending l × ((p : ℕ) → contains p l ≡ (n == p || names p ps))) grown
            (
              insert_sorted-IsAscending n rest new ascending,
              λ p. contains-insert_sorted p n rest ∙ ap (λ b. n == p || b) (same p),
            )
    ]
