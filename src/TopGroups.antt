-- ===== src/TopGroups.antt =====
-- `topGroups` of backend/internal/mcp/digest.go: the groups with the largest counts. The map of the
-- counts is an association list whose keys are distinct; `sort.Slice` is a sort by insertion, whose result
-- is the same, since the order is total on distinct names.
pub mod Largest
mod Tests
use Prim.Native.String.{compare as compare_text}
use Prim.Native.Nat.{Ordering}
use dbx_plugin_kafka.Base.{
  ℕ, String, Bool, true, false, ◌&&◌, ◌||◌, List, [], ◌∷◌, if◌then◌else◌, ltb, nat_beq, length,
  take,
}
use dbx_plugin_kafka.Base.Int.{ℤ, pos_part, is_positive}
use dbx_plugin_kafka.Base.Dict.{Dict}

-- `names[i] < names[j]`
abbrev pub text_ltb : String → String → Bool
text_ltb a b = elim (compare_text a b) [ Ordering.lt ↦ true | _ ↦ false ]

-- The order of the sort: by count, downwards, and then by name.
abbrev pub before : String × ℕ → String × ℕ → Bool
before (a, m) (b, n) = if nat_beq m n then text_ltb a b else ltb n m

unfoldable pub insert_group : String × ℕ → List (String × ℕ) → List (String × ℕ)
insert_group g [] = g ∷ []
insert_group g (h ∷ hs) =
    let rest = insert_group g hs in if before h g then h ∷ rest else g ∷ h ∷ hs

unfoldable pub sort_groups : List (String × ℕ) → List (String × ℕ)
unfolding insert_group
sort_groups [] = []
sort_groups (g ∷ gs) = insert_group g (sort_groups gs)

abbrev is_empty : List (String × ℕ) → Bool
is_empty [] = true
is_empty (_ ∷ _) = false

-- The kept groups, and whether some were left out.
unfoldable pub top_groups : Dict String ℕ → ℤ → Dict String ℕ × Bool
unfolding sort_groups
top_groups counts limit =
    if is_empty counts
    then ([], false)
    else if is_positive limit
    then (
      take (pos_part limit) (sort_groups counts),
      ltb (pos_part limit) (length (sort_groups counts)),
    )
    else ([], false)
