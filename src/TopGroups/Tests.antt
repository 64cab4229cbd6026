-- ===== src/TopGroups/Tests.antt =====
-- Runs of `topGroups` of backend/internal/mcp/digest.go on small inputs.
use dbx_plugin_kafka.Base.{
  ℕ, ◌≤◌, ◌≡◌, refl, String, true, false, [], ◌∷◌, All, length, contains, nat_eq, string_eq,
  pair_eq, arith,
}
use dbx_plugin_kafka.Base.Int.{pos}
use dbx_plugin_kafka.Base.Dict.{Dict}
use dbx_plugin_kafka.TopGroups.{insert_group, sort_groups, top_groups}
use dbx_plugin_kafka.TopGroups.Largest.{top_groups_largest}

abbrev counts : Dict String ℕ
counts = ("b", 2) ∷ ("a", 2) ∷ ("c", 5) ∷ ("d", 1) ∷ []

three : top_groups counts (pos 3) ≡ (("c", 5) ∷ ("a", 2) ∷ ("b", 2) ∷ [], true)
unfolding top_groups sort_groups insert_group
three = refl

top_groups_largest_example :
    (length (top_groups counts (pos 3)).0 ≡ 3)
    × ((top_groups counts (pos 3)).1 ≡ true)
    × ((k : String × ℕ)
        → contains k (top_groups counts (pos 3)).0 ≡ true
        → contains k counts ≡ true)
    × ((g : String × ℕ)
        → contains g counts ≡ true
        → contains g (top_groups counts (pos 3)).0 ≡ false
        → All (λ k. g.1 ≤ k.1) (top_groups counts (pos 3)).0)
top_groups_largest_example = top_groups_largest counts (pos 3) (omega arith)
