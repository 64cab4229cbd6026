-- ===== src/Base/Dict.antt =====
-- Go's maps as association lists. Proofs elsewhere go by the laws; only tests unfold the operations.
use dbx_plugin_kafka.Base.Tests.{if◌then◌else◌, Bool-cases}
use dbx_plugin_kafka.Base.Lists.{length}
use dbx_plugin_kafka.Base.Equality.{Comparable, ◌==◌}
use Prim.Native.Nat.{suc, ◌≤◌}
use mathlib.Core.Path.{◌≡◌, refl, sym, ◌∙◌, subst₂}
use mathlib.Core.Logic.{inl, inr}
use mathlib.Core.Bool.{Bool}
use mathlib.Core.Option.{Option, none, some, some-injective, none-ne-some}
use mathlib.Core.List.{List, [], ◌∷◌}
use native.Mathlib.Omega.{arith}

abbrev pub Dict {ℓ κ} : Type ℓ → Type κ → Type (ℓ ⊔ κ)
Dict K V = List (K × V)

abbrev pub filter_opt {ℓ} : {A : Type ℓ} → (A → Bool) → Option A → Option A
filter_opt p none = none
filter_opt p (some a) = if p a then some a else none

module _ {ℓ κ} {K : Type ℓ} {V : Type κ} ⦃e : Comparable K⦄ where
  -- `m[k]`
  unfoldable pub lookup : K → Dict K V → Option V
  lookup k [] = none
  lookup k ((j, v) ∷ m) = if j == k then some v else lookup k m

  -- `m[k] = v`
  unfoldable pub insert : K → V → Dict K V → Dict K V
  insert key value [] = (key, value) ∷ []
  insert key value ((k, old) ∷ more) =
      let rest = insert key value more in if k == key then (k, value) ∷ more else (k, old) ∷ rest

  -- `delete(m, k)`
  unfoldable pub delete : K → Dict K V → Dict K V
  delete k [] = []
  delete k ((j, v) ∷ m) = let rest = delete k m in if j == k then rest else (j, v) ∷ rest

  -- `for k, v := range m { if !keep(v) { delete(m, k) } }`
  unfoldable pub retain : (V → Bool) → Dict K V → Dict K V
  unfolding delete
  retain p [] = []
  retain p ((j, v) ∷ m) = let rest = retain p m in if p v then (j, v) ∷ rest else delete j rest

  pub lookup-insert :
      (j k : K) (v : V) (m : Dict K V)
      → lookup j (insert k v m) ≡ (if k == j then some v else lookup j m)
  unfolding lookup insert
  lookup-insert j k v [] = refl
  lookup-insert j k v ((i, w) ∷ m) =
      ground (arith, e.same_iff k j, e.same_iff i k, e.same_iff i j, lookup-insert j k v m)

  pub lookup-delete :
      (j k : K) (m : Dict K V) → lookup j (delete k m) ≡ (if k == j then none else lookup j m)
  unfolding lookup delete
  lookup-delete j k [] = ground arith
  lookup-delete j k ((i, w) ∷ m) =
      ground (arith, e.same_iff k j, e.same_iff i k, e.same_iff i j, lookup-delete j k m)

  pub lookup-retain :
      (j : K) (p : V → Bool) (m : Dict K V) → lookup j (retain p m) ≡ filter_opt p (lookup j m)
  unfolding lookup retain
  lookup-retain j p [] = refl
  lookup-retain j p ((i, w) ∷ m) =
      ground (arith, e.same_iff i j, lookup-retain j p m, lookup-delete j i (retain p m))

  pub length-insert-le : (k : K) (v : V) (m : Dict K V) → length (insert k v m) ≤ suc (length m)
  unfolding insert
  length-insert-le k v [] = omega arith
  length-insert-le k v ((i, w) ∷ m) = ground (arith, length-insert-le k v m)

  pub length-delete-le : (k : K) (m : Dict K V) → length (delete k m) ≤ length m
  unfolding delete
  length-delete-le k [] = omega arith
  length-delete-le k ((i, w) ∷ m) = ground (arith, length-delete-le k m)

  pub length-retain-le : (p : V → Bool) (m : Dict K V) → length (retain p m) ≤ length m
  unfolding retain
  length-retain-le p [] = omega arith
  length-retain-le p ((i, w) ∷ m) =
      ground (arith, length-retain-le p m, length-delete-le i (retain p m))

-- Every key's value satisfies a predicate of the two.
abbrev pub AllAt {ℓ κ ι} :
    {K : Type ℓ} {V : Type κ} ⦃e : Comparable K⦄ → (K → V → Type ι) → Dict K V → Type (ℓ ⊔ κ ⊔ ι)
AllAt {K} {V} P m = (k : K) (v : V) → lookup k m ≡ some v → P k v

module _ {ℓ κ ι} {K : Type ℓ} {V : Type κ} ⦃e : Comparable K⦄ (P : K → V → Type ι) where
  pub AllAt-insert : (k : K) (v : V) (m : Dict K V) → P k v → AllAt P m → AllAt P (insert k v m)
  AllAt-insert k v m here rest j w found = elim (Bool-cases (k == j)) [
    | inl same ↦
        subst₂ P ((e.same_iff k j).0 same)
          (some-injective v w (sym (rw (same) at (lookup-insert j k v m)) ∙ found)) here
    | inr differ ↦ rest j w (sym (rw (differ) at (lookup-insert j k v m)) ∙ found)
  ]

  pub AllAt-delete : (k : K) (m : Dict K V) → AllAt P m → AllAt P (delete k m)
  AllAt-delete k m rest j w found = elim (Bool-cases (k == j)) [
    | inl same ↦ absurd (none-ne-some w (sym (rw (same) at (lookup-delete j k m)) ∙ found))
    | inr differ ↦ rest j w (sym (rw (differ) at (lookup-delete j k m)) ∙ found)
  ]
