-- ===== src/Lru.antt =====
-- The table with an eviction order that backend/internal/mcp/cursor.go and intent.go both keep: a map
-- from ids to values beside the list of its ids, the least recently used one first.
pub mod Laws
pub mod Recency
use dbx_plugin_kafka.Base.{
  ℕ, String, Bool, true, false, Option, none, some, List, [], ◌∷◌, ◌++◌, if◌then◌else◌, ltb, length,
  string_eq, remove_first,
}
use dbx_plugin_kafka.Base.Dict.{Dict, lookup, delete, filter_opt}

module _ {V : Type 0} where
  -- Whether the id stands for a value that passes the test.
  abbrev pub passes : (V → Bool) → Option V → Bool
  passes live none = false
  passes live (some v) = live v

  -- The loop of `pruneLocked`: ids without a live value leave both the list and the map.
  unfoldable pub prune_order :
      (V → Bool) → Dict String V → List String → Dict String V × List String
  prune_order live m [] = (m, [])
  prune_order live m (id ∷ ids) = elim (passes live (lookup id m)) [
    | true ↦ let (m', kept) = prune_order live m ids in (m', id ∷ kept)
    | false ↦ prune_order live (delete id m) ids
  ]

  -- `for len(order) > capacity { delete(m, order[0]); order = order[1:] }`
  unfoldable pub evict_order : ℕ → Dict String V → List String → Dict String V × List String
  evict_order capacity m [] = (m, [])
  evict_order capacity m (id ∷ ids) = elim (ltb capacity (length (id ∷ ids))) [
    | true ↦ evict_order capacity (delete id m) ids
    | false ↦ (m, id ∷ ids)
  ]

-- To the end of the order, as the most recently used.
unfoldable pub touch_order : String → List String → List String
touch_order id order = remove_first id order ++ (id ∷ [])
