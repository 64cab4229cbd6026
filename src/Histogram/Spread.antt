-- ===== src/Histogram/Spread.antt =====
-- The counts of the buckets and their ranges.
use native.Mathlib.Nat.{le-div_iff_mul-le, suc-mul}
use dbx_plugin_kafka.Base.{
  ℕ, zero, suc, ◌+◌, ◌-◌, ◌*◌, ◌≤◌, ◌<◌, ◌≡◌, refl, sym, ap, ap₂, subst, ◌∙◌, ◌&&◌, some, List, [],
  ◌∷◌, All, if◌then◌else◌, ltb, leb, nat_beq, length, arith,
}
use dbx_plugin_kafka.Histogram.{
  TimeBucket, min_ts, max_ts, bucket_count, bucket_width, make_buckets, bucket_of, fill,
  build_time_histogram,
}
use dbx_plugin_kafka.Histogram.Counts.{hits, Counted, Counted-count_all}

-- How many of the timestamps lie in the range, without its end.
abbrev pub in_range : ℕ → ℕ → List ℕ → ℕ
in_range from to [] = 0
in_range from to (ts ∷ more) = (if leb from ts && ltb ts to then 1 else 0) + in_range from to more

abbrev pub IsExact : List ℕ → TimeBucket → Type 0
IsExact timestamps b = b.count ≡ in_range b.from b.to timestamps

abbrev Between : ℕ → ℕ → ℕ → Type 0
Between least greatest ts = (least ≤ ts) × (ts ≤ greatest)

width_positive : (span : ℕ) → 0 < bucket_width span
width_positive span = ground arith

-- The index of a timestamp in a bucket's range, for a bucket that is not the last.
index_inner :
    (least width buckets index ts : ℕ)
    → 0 < width
    → suc index < buckets
    → least ≤ ts
    → nat_beq (bucket_of least width buckets ts) index
      ≡ (leb (least + index * width) ts && ltb ts (least + index * width + width))
index_inner least width buckets index ts wp inner h =
    let low = le-div_iff_mul-le {k = width} {x = index} {y = ts - least} wp in
    let high = le-div_iff_mul-le {k = width} {x = suc index} {y = ts - least} wp in
    ground (arith, low, high, suc-mul index width)

index_last :
    (least greatest width index ts : ℕ)
    → 0 < width
    → Between least greatest ts
    → nat_beq (bucket_of least width (suc index) ts) index
      ≡ (leb (least + index * width) ts && ltb ts (greatest + 1))
index_last least greatest width index ts wp h =
    let low = le-div_iff_mul-le {k = width} {x = index} {y = ts - least} wp in ground (arith, low)

hits_in_range :
    (g : ℕ → ℕ) (k from to least greatest : ℕ) (timestamps : List ℕ)
    → All (Between least greatest) timestamps
    → ((ts : ℕ) → Between least greatest ts → nat_beq (g ts) k ≡ (leb from ts && ltb ts to))
    → hits g k timestamps ≡ in_range from to timestamps
hits_in_range g k from to least greatest [] h same = refl
hits_in_range g k from to least greatest (ts ∷ more) (b, h) same =
    ap₂ (λ t n. (if t then 1 else 0) + n) (same ts b)
      (hits_in_range g k from to least greatest more h same)

IsExact_lem :
    (g : ℕ → ℕ) (k from to least greatest : ℕ) (timestamps : List ℕ) (c : TimeBucket)
    → (c.from ≡ from) × (c.to ≡ to) × (c.count ≡ 0 + hits g k timestamps)
    → All (Between least greatest) timestamps
    → ((ts : ℕ) → Between least greatest ts → nat_beq (g ts) k ≡ (leb from ts && ltb ts to))
    → IsExact timestamps c
IsExact_lem g k from to least greatest timestamps c (f, t, n) h same =
    n
    ∙ zero_add (hits g k timestamps)
    ∙ hits_in_range g k from to least greatest timestamps h same
    ∙ ap₂ (λ a b. in_range a b timestamps) (sym f) (sym t)
  where
    zero_add : (m : ℕ) → 0 + m ≡ m
    zero_add m = omega arith

make-IsExact :
    (least greatest width buckets index left : ℕ) (timestamps : List ℕ) (cs : List TimeBucket)
    → 0 < width
    → index + left ≡ buckets
    → All (Between least greatest) timestamps
    → Counted
        (bucket_of least width buckets)
        index
        timestamps
        (make_buckets least greatest width index left)
        cs
    → All (IsExact timestamps) cs
unfolding make_buckets
make-IsExact least greatest width buckets index zero timestamps [] wp e h counted = tt
make-IsExact least greatest width buckets index zero timestamps (c ∷ cs) wp e h counted =
    elim counted [ ]
make-IsExact least greatest width buckets index (suc left) timestamps [] wp e h counted =
    elim counted [ ]
make-IsExact least greatest width buckets index (suc zero) timestamps (c ∷ cs) wp e h
      (found, counted) =
    (
      IsExact_lem _ index _ _ least greatest timestamps c found h (λ ts b.
          subst
            (λ n.
              nat_beq (bucket_of least width n ts) index
              ≡ (leb (least + index * width) ts && ltb ts (greatest + 1)))
            last (index_last least greatest width index ts wp b)),
      make-IsExact least greatest width buckets (suc index) zero timestamps cs wp (omega arith) h
          counted,
    )
  where
    last : suc index ≡ buckets
    last = omega arith
make-IsExact least greatest width buckets index (suc (suc left)) timestamps (c ∷ cs) wp e h
      (found, counted) =
    (
      IsExact_lem _ index _ _ least greatest timestamps c (found.0, found.1 ∙ inner_end, found.2) h
          (λ ts b. index_inner least width buckets index ts wp (omega arith) b.0),
      make-IsExact least greatest width buckets (suc index) (suc left) timestamps cs wp
          (omega arith) h counted,
    )
  where
    inner_end :
        (if nat_beq (suc left) 0 then greatest + 1 else least + index * width + width)
        ≡ least + index * width + width
    inner_end = ground arith

fill-IsExact :
    (least greatest : ℕ) (timestamps : List ℕ)
    → All (Between least greatest) timestamps
    → All (IsExact timestamps) (fill least greatest timestamps)
unfolding fill
fill-IsExact least greatest timestamps h =
    let span = greatest - least + 1 in
    make-IsExact least greatest (bucket_width span) (bucket_count span) 0 (bucket_count span)
      timestamps _ (width_positive span) (omega arith) h
      (Counted-count_all least (bucket_width span) (bucket_count span) timestamps _)

min_ts-le :
    (least : ℕ) (ts : List ℕ) → (min_ts least ts ≤ least) × All (λ t. min_ts least ts ≤ t) ts
min_ts-le least [] = (omega arith, tt)
min_ts-le least (ts ∷ more) =
    let (first, rest) = min_ts-le (if ltb ts least then ts else least) more in
    (ground (arith, first), (ground (arith, first), rest))

max_ts-ge :
    (greatest : ℕ) (ts : List ℕ)
    → (greatest ≤ max_ts greatest ts) × All (λ t. t ≤ max_ts greatest ts) ts
max_ts-ge greatest [] = (omega arith, tt)
max_ts-ge greatest (ts ∷ more) =
    let (first, rest) = max_ts-ge (if ltb greatest ts then ts else greatest) more in
    (ground (arith, first), (ground (arith, first), rest))

length-Counted :
    (g : ℕ → ℕ) (k : ℕ) (ts : List ℕ) (bs cs : List TimeBucket)
    → Counted g k ts bs cs
    → length cs ≡ length bs
length-Counted g k ts [] [] h = refl
length-Counted g k ts [] (c ∷ cs) h = elim h [ ]
length-Counted g k ts (b ∷ bs) [] h = elim h [ ]
length-Counted g k ts (b ∷ bs) (c ∷ cs) (found, h) = ap suc (length-Counted g (suc k) ts bs cs h)

length-make_buckets :
    (least greatest width index left : ℕ)
    → length (make_buckets least greatest width index left) ≡ left
unfolding make_buckets
length-make_buckets least greatest width index zero = refl
length-make_buckets least greatest width index (suc left) =
    ap suc (length-make_buckets least greatest width (suc index) left)

fill-length :
    (least greatest : ℕ) (timestamps : List ℕ) → length (fill least greatest timestamps) ≤ 12
unfolding fill
fill-length least greatest timestamps =
    let span = greatest - least + 1 in
    let empty = make_buckets least greatest (bucket_width span) 0 (bucket_count span) in
    let same =
      length-Counted _ 0 timestamps empty _
        (Counted-count_all least (bucket_width span) (bucket_count span) timestamps empty)
      ∙ length-make_buckets least greatest (bucket_width span) 0 (bucket_count span) in
    rw same (ground arith)

-- The bounds of a timestamp hold further out.
bounded :
    (least greatest : ℕ) (timestamps : List ℕ)
    → All (λ t. least ≤ t) timestamps
    → All (λ t. t ≤ greatest) timestamps
    → All (Between least greatest) timestamps
bounded least greatest [] low high = tt
bounded least greatest (ts ∷ more) (l, low) (h, high) =
    ((l, h), bounded least greatest more low high)

-- The histogram of some timestamps has at most 12 buckets, and the count of every bucket is the number
-- of timestamps in its range, the start included and the end not.
pub build_time_histogram-IsExact :
    (timestamps : List ℕ) (buckets : List TimeBucket)
    → build_time_histogram timestamps ≡ some buckets
    → (length buckets ≤ 12) × All (IsExact timestamps) buckets
unfolding build_time_histogram
build_time_histogram-IsExact [] buckets h = absurd (ground arith)
build_time_histogram-IsExact (ts ∷ more) buckets h =
    let all = ts ∷ more in
    let least = min_ts ts all in
    let greatest = max_ts ts all in
    let safe = bounded least greatest all (min_ts-le ts all).1 (max_ts-ge ts all).1 in
    let same : fill least greatest all ≡ buckets = ground arith in
    subst (λ bs. (length bs ≤ 12) × All (IsExact all) bs) same
      (fill-length least greatest all, fill-IsExact least greatest all safe)
