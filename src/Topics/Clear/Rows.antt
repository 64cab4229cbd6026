-- ===== src/Topics/Clear/Rows.antt =====
-- The rows of a clearing of records.
use dbx_plugin_kafka.Base.{
  ℕ, ◌≡◌, refl, sym, ap, ◌∙◌, inl, inr, true, ◌||◌, none, some, List, [], ◌∷◌, ◌++◌, map, All, ◌==◌,
  string_eq, nat_eq, contains, contains-append, arith, Bool-cases, Option-cases,
}
use dbx_plugin_kafka.Base.Int.{ℤ}
use dbx_plugin_kafka.Base.Dict.{Dict, lookup}
use dbx_plugin_kafka.Base.Result.{Result, ok, Result-cases}
use dbx_plugin_kafka.Topics.Clear.{
  TopicRecordsClearRow, difference, keys, or_zero, clear_row, insert_partition, sort_partitions,
  clear_records_rows,
}

contains-insert_partition :
    (x p : ℕ) (ps : List ℕ) → contains x (insert_partition p ps) ≡ (p == x || contains x ps)
unfolding contains insert_partition
contains-insert_partition x p [] = refl
contains-insert_partition x p (q ∷ ps) = ground (arith, contains-insert_partition x p ps)

pub contains-sort_partitions :
    (x : ℕ) (ps : List ℕ) → contains x (sort_partitions ps) ≡ contains x ps
unfolding contains sort_partitions
contains-sort_partitions x [] = refl
contains-sort_partitions x (p ∷ ps) =
    contains-insert_partition x p (sort_partitions ps)
    ∙ ap (λ b. p == x || b) (contains-sort_partitions x ps)

lookup-keys :
    {V : Type 0} (p : ℕ) (m : Dict ℕ V)
    → contains p (keys m) ≡ true
    → (v : V) × (lookup p m ≡ some v)
unfolding contains lookup
lookup-keys p [] h = absurd (ground arith)
lookup-keys p ((q, v) ∷ m) h = elim (Bool-cases (q == p)) [
  | inl same ↦ (v, rw same refl)
  | inr other ↦ let (w, there) = lookup-keys p m (rw other at h) in (w, rw other there)
]

All-map-contains :
    (B : Type 0) (P : B → Type 0) (f : ℕ → B) (xs : List ℕ)
    → ((x : ℕ) → contains x xs ≡ true → P (f x))
    → All P (map f xs)
unfolding contains
All-map-contains B P f [] h = tt
All-map-contains B P f (x ∷ xs) h = (
  h x (ground (arith, nat_eq.same_iff x x)),
  All-map-contains B P f xs (λ y m. h y (ground (arith, m))),
)

module _ {E : Type 0} where
  -- A row without an error is of a partition whose offset was listed, and counts what lay between the low
  -- watermark after the deletion and that offset.
  abbrev pub Fits : Dict ℕ ℤ → Dict ℕ (Result E ℤ) → TopicRecordsClearRow E → Type 0
  Fits before deleted r =
      r.error ≡ none
      → (at low : ℤ) × (lookup r.partition before ≡ some at)
        × (lookup r.partition deleted ≡ some (ok low))
        × (r.deleted ≡ some (difference at low))

  in_before :
      (before : Dict ℕ ℤ) (before_err : Dict ℕ E) (p : ℕ)
      → contains p (keys before ++ keys before_err) ≡ true
      → lookup p before_err ≡ none
      → (at : ℤ) × (lookup p before ≡ some at)
  in_before before before_err p h clean = elim (Bool-cases (contains p (keys before))) [
    | inl here ↦ lookup-keys p before here
    | inr other ↦
        let (e, there) =
          lookup-keys p before_err
            (rw other at (sym (contains-append p (keys before) (keys before_err)) ∙ h)) in
        absurd (ground (arith, clean, there))
  ]

  clear_row_ok :
      (before : Dict ℕ ℤ) (before_err : Dict ℕ E) (deleted : Dict ℕ (Result E ℤ)) (p : ℕ) (low : ℤ)
      → lookup p before_err ≡ none
      → lookup p deleted ≡ some (ok low)
      → clear_row before before_err deleted p ≡ record {
        partition = p;
        deleted = some (difference (or_zero (lookup p before)) low);
        low_watermark = some low;
        error = none;
      }
  unfolding clear_row
  clear_row_ok before before_err deleted p low clean done = rw (clean, done, clear_row) refl

  clear_row-Fits :
      (before : Dict ℕ ℤ) (before_err : Dict ℕ E) (deleted : Dict ℕ (Result E ℤ)) (p : ℕ)
      → contains p (keys before ++ keys before_err) ≡ true
      → Fits before deleted (clear_row before before_err deleted p)
  unfolding clear_row
  clear_row-Fits before before_err deleted p h good = elim (Option-cases (lookup p before_err)) [
    | inr (e, bad) ↦ absurd (ground (arith, rw (bad, clear_row) at good))
    | inl clean ↦ elim (Option-cases (lookup p deleted)) [
      | inl missing ↦ absurd (ground (arith, rw (clean, missing, clear_row) at good))
      | inr (response, there) ↦ elim (Result-cases response) [
        | inl (e, bad) ↦ absurd (ground (arith, rw (clean, there ∙ ap some bad, clear_row) at good))
        | inr (low, done) ↦
            let (at, listed) = in_before before before_err p h clean in
            let made = clear_row_ok before before_err deleted p low clean (there ∙ ap some done) in
            (
              at,
              low,
              ap (λ r. lookup r.partition before) made ∙ listed,
              ap (λ r. lookup r.partition deleted) made ∙ there ∙ ap some done,
              ap (λ r. r.deleted) made ∙ ap (λ o. some (difference (or_zero o) low)) listed,
            )
      ]
    ]
  ]

  pub clear_records_rows-Fits :
      (before : Dict ℕ ℤ) (before_err : Dict ℕ E) (deleted : Dict ℕ (Result E ℤ))
      → All (Fits before deleted) (clear_records_rows before before_err deleted)
  unfolding clear_records_rows
  clear_records_rows-Fits before before_err deleted =
      let ps = keys before ++ keys before_err in
      All-map-contains (TopicRecordsClearRow E) (Fits before deleted)
        (clear_row before before_err deleted) (sort_partitions ps)
        (λ p m.
          clear_row-Fits before before_err deleted p (sym (contains-sort_partitions p ps) ∙ m))
