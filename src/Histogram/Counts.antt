-- ===== src/Histogram/Counts.antt =====
-- What the loop over the timestamps adds to the buckets.
use dbx_plugin_kafka.Base.{
  ℕ, zero, suc, ◌+◌, ◌<◌, ◌≡◌, refl, List, [], ◌∷◌, if◌then◌else◌, nat_beq, arith,
}
use dbx_plugin_kafka.Histogram.{TimeBucket, count_at, count_all, bucket_of}

-- How many of the timestamps fall on the index.
abbrev pub hits : (ℕ → ℕ) → ℕ → List ℕ → ℕ
hits g k [] = 0
hits g k (ts ∷ more) = (if nat_beq (g ts) k then 1 else 0) + hits g k more

-- The buckets `cs` are the buckets `bs`, of which the first has the index `k`, with the hits added.
abbrev pub Counted : (ℕ → ℕ) → ℕ → List ℕ → List TimeBucket → List TimeBucket → Type 0
Counted g k ts [] [] = Unit
Counted g k ts [] (_ ∷ _) = ⊥
Counted g k ts (_ ∷ _) [] = ⊥
Counted g k ts (b ∷ bs) (c ∷ cs) =
    ((c.from ≡ b.from) × (c.to ≡ b.to) × (c.count ≡ b.count + hits g k ts))
    × Counted g (suc k) ts bs cs

Counted-nil : (g : ℕ → ℕ) (k : ℕ) (bs : List TimeBucket) → Counted g k [] bs bs
Counted-nil g k [] = tt
Counted-nil g k (b ∷ bs) = ((refl, refl, omega arith), Counted-nil g (suc k) bs)

-- A timestamp below the buckets adds nothing to them.
Counted-skip :
    (g : ℕ → ℕ) (k ts : ℕ) (more : List ℕ) (bs cs : List TimeBucket)
    → g ts < k
    → Counted g k more bs cs
    → Counted g k (ts ∷ more) bs cs
Counted-skip g k ts more [] [] below h = tt
Counted-skip g k ts more [] (c ∷ cs) below h = h
Counted-skip g k ts more (b ∷ bs) [] below h = h
Counted-skip g k ts more (b ∷ bs) (c ∷ cs) below ((f, t, n), h) =
    ((f, t, ground arith), Counted-skip g (suc k) ts more bs cs (omega arith) h)

Counted-count_at :
    (g : ℕ → ℕ) (k i ts : ℕ) (more : List ℕ) (bs cs : List TimeBucket)
    → g ts ≡ k + i
    → Counted g k more (count_at i bs) cs
    → Counted g k (ts ∷ more) bs cs
unfolding count_at
Counted-count_at g k i ts more [] [] e h = tt
Counted-count_at g k i ts more [] (c ∷ cs) e h = h
Counted-count_at g k zero ts more (b ∷ bs) [] e h = h
Counted-count_at g k (suc i) ts more (b ∷ bs) [] e h = h
Counted-count_at g k zero ts more (b ∷ bs) (c ∷ cs) e ((f, t, n), h) =
    ((f, t, ground arith), Counted-skip g (suc k) ts more bs cs (omega arith) h)
Counted-count_at g k (suc i) ts more (b ∷ bs) (c ∷ cs) e ((f, t, n), h) =
    ((f, t, ground arith), Counted-count_at g (suc k) i ts more bs cs (omega arith) h)

pub Counted-count_all :
    (least width buckets : ℕ) (ts : List ℕ) (bs : List TimeBucket)
    → Counted (bucket_of least width buckets) 0 ts bs (count_all least width buckets ts bs)
unfolding count_all
Counted-count_all least width buckets [] bs = Counted-nil _ 0 bs
Counted-count_all least width buckets (ts ∷ more) bs =
    let g = bucket_of least width buckets in
    Counted-count_at g 0 (g ts) ts more bs _ (omega arith)
      (Counted-count_all least width buckets more (count_at (g ts) bs))
