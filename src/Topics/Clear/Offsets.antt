-- ===== src/Topics/Clear/Offsets.antt =====
-- The offsets that a clearing of records starts from: what is listed, and up to where records are deleted.
use dbx_plugin_kafka.Base.{
  ℕ, ◌≡◌, refl, sym, ap, ◌∙◌, ◌⊎◌, ◌↔◌, inl, inr, ◌||◌, List, [], ◌∷◌, ◌++◌, map, nat_eq, contains,
  contains-append, arith, some, Option-cases,
}
use dbx_plugin_kafka.Base.Int.{ℤ, pos, negsuc, pos_part}
use dbx_plugin_kafka.Base.Dict.{Dict, lookup}
use dbx_plugin_kafka.Base.Result.{Result, ok, err, ok_injective, Result-cases}
use dbx_plugin_kafka.Topics.Clear.{
  clipped, keys, before_of, before_err_of, clear_row, sort_partitions, clear_records_rows,
}
use dbx_plugin_kafka.Topics.Clear.Rows.{contains-sort_partitions}

-- The map has that value for the partition.
pub Has : {V : Type 0} → ℕ → V → Dict ℕ V → Type 0
Has p v [] = ⊥
Has p v ((q, w) ∷ m) = ((q ≡ p) × (w ≡ v)) ⊎ Has p v m

-- The end offset of every partition for which one was listed, and no other; a negative one counts as 0.
abbrev pub AreEnds : {E : Type 0} → Dict ℕ (Result E ℤ) → Dict ℕ ℤ → Type 0
AreEnds highs ends =
    (p : ℕ) (at : ℤ)
    → Has p at ends ↔ ((raw : ℤ) × Has p (ok raw) highs × (at ≡ pos (pos_part raw)))

clipped_lem : (raw : ℤ) → clipped raw ≡ pos (pos_part raw)
clipped_lem (pos n) = refl
clipped_lem (negsuc n) = refl

module _ {E : Type 0} where
  pub before_of-AreEnds : (highs : Dict ℕ (Result E ℤ)) → AreEnds highs (before_of highs)
  unfolding before_of Has
  before_of-AreEnds [] p at = (λ h. absurd h, λ (raw, h, e). absurd h)
  before_of-AreEnds ((q, err e) ∷ highs) p at =
      let (there, back) = before_of-AreEnds highs p at in
      (
        λ h. let (raw, listed, same) = there h in (raw, inr listed, same),
        λ (raw, listed, same). elim listed [
          | inl (_, bad) ↦ absurd (ground arith)
          | inr more ↦ back (raw, more, same)
        ],
      )
  before_of-AreEnds ((q, ok v) ∷ highs) p at =
      let (there, back) = before_of-AreEnds highs p at in
      (
        λ h. elim h [
          | inl (same, value) ↦ (v, inl (same, refl), sym value ∙ clipped_lem v)
          | inr more ↦ let (raw, listed, same) = there more in (raw, inr listed, same)
        ],
        λ (raw, listed, same). elim listed [
          | inl (here, value) ↦
              inl (here, clipped_lem v ∙ ap (λ n. pos (pos_part n)) (ok_injective value) ∙ sym same)
          | inr more ↦ inr (back (raw, more, same))
        ],
      )

  contains-before :
      (p : ℕ) (highs : Dict ℕ (Result E ℤ))
      → (contains p (keys (before_of highs)) || contains p (keys (before_err_of highs)))
        ≡ contains p (keys highs)
  unfolding before_of before_err_of contains
  contains-before p [] = refl
  contains-before p ((q, err e) ∷ highs) = ground (arith, contains-before p highs)
  contains-before p ((q, ok v) ∷ highs) = ground (arith, contains-before p highs)

  clear_row-partition :
      (before : Dict ℕ ℤ) (before_err : Dict ℕ E) (deleted : Dict ℕ (Result E ℤ)) (p : ℕ)
      → (clear_row before before_err deleted p).partition ≡ p
  unfolding clear_row
  clear_row-partition before before_err deleted p = elim (Option-cases (lookup p before_err)) [
    | inr (e, bad) ↦ rw (bad, clear_row) refl
    | inl clean ↦ elim (Option-cases (lookup p deleted)) [
      | inl missing ↦ rw (clean, missing, clear_row) refl
      | inr (response, there) ↦ elim (Result-cases response) [
        | inl (e, bad) ↦ rw (clean, there ∙ ap some bad, clear_row) refl
        | inr (low, done) ↦ rw (clean, there ∙ ap some done, clear_row) refl
      ]
    ]
  ]

  -- There is a row for each listed partition, and for no other.
  pub contains-clear_records_rows :
      (p : ℕ) (highs : Dict ℕ (Result E ℤ)) (deleted : Dict ℕ (Result E ℤ))
      → contains p (
          map
            (λ r. r.partition)
            (clear_records_rows (before_of highs) (before_err_of highs) deleted))
        ≡ contains p (keys highs)
  unfolding clear_records_rows
  contains-clear_records_rows p highs deleted =
      let ps = keys (before_of highs) ++ keys (before_err_of highs) in
      ap (contains p) (partitions (sort_partitions ps))
      ∙ contains-sort_partitions p ps
      ∙ contains-append p (keys (before_of highs)) (keys (before_err_of highs))
      ∙ contains-before p highs
    where
      partitions :
          (qs : List ℕ)
          → map
              (λ r. r.partition)
              (map (clear_row (before_of highs) (before_err_of highs) deleted) qs)
            ≡ qs
      partitions [] = refl
      partitions (q ∷ qs) =
          ap
            (λ t.
              t
              ∷ map (λ r. r.partition)
                  (map (clear_row (before_of highs) (before_err_of highs) deleted) qs))
            (clear_row-partition (before_of highs) (before_err_of highs) deleted q)
          ∙ ap (λ t. q ∷ t) (partitions qs)
