-- ===== src/Histogram.antt =====
-- `buildTimeHistogram` of backend/internal/mcp/digest.go. The timestamps are those that `AggregateDigest`
-- passes on, which are positive, in milliseconds; they are taken to be below 2^62, so that no sum of two
-- of them leaves 64 bits.
pub mod Counts
pub mod Spread
mod Tests
use dbx_plugin_kafka.Base.{
  ℕ, zero, suc, ◌+◌, ◌-◌, ◌*◌, ◌/◌, Bool, true, false, Option, none, some, List, [], ◌∷◌, map,
  if◌then◌else◌, ltb, leb, nat_beq, length,
}

pub record TimeBucket : Type 0 where
  pub from : ℕ
  pub to : ℕ
  pub count : ℕ

-- `timeHistogramMaxBuckets`
abbrev pub max_buckets : ℕ
max_buckets = 12

-- The loop for the smallest and the largest, from the values it has so far.
abbrev pub min_ts : ℕ → List ℕ → ℕ
min_ts least [] = least
min_ts least (ts ∷ more) = min_ts (if ltb ts least then ts else least) more

abbrev pub max_ts : ℕ → List ℕ → ℕ
max_ts greatest [] = greatest
max_ts greatest (ts ∷ more) = max_ts (if ltb greatest ts then ts else greatest) more

abbrev pub bucket_count : ℕ → ℕ
bucket_count span = if ltb max_buckets span then max_buckets else if ltb span 1 then 1 else span

abbrev pub bucket_width : ℕ → ℕ
bucket_width span =
    let width = (span + bucket_count span - 1) / bucket_count span in
    if ltb width 1 then 1 else width

-- The buckets from the one of that index on, as many as are left.
unfoldable pub make_buckets : ℕ → ℕ → ℕ → ℕ → ℕ → List TimeBucket
make_buckets least greatest width index zero = []
make_buckets least greatest width index (suc left) =
    let from = least + index * width in
    let to = if nat_beq left 0 then greatest + 1 else from + width in
    record { from = from; to = to; count = 0 } ∷ make_buckets least greatest width (suc index) left

-- `buckets[index].Count++`
unfoldable pub count_at : ℕ → List TimeBucket → List TimeBucket
count_at index [] = []
count_at zero (b ∷ bs) = record b { count = b.count + 1 } ∷ bs
count_at (suc index) (b ∷ bs) = b ∷ count_at index bs

abbrev pub bucket_of : ℕ → ℕ → ℕ → ℕ → ℕ
bucket_of least width buckets ts =
    let index = (ts - least) / width in if leb buckets index then buckets - 1 else index

unfoldable pub count_all : ℕ → ℕ → ℕ → List ℕ → List TimeBucket → List TimeBucket
unfolding count_at
count_all least width buckets [] bs = bs
count_all least width buckets (ts ∷ more) bs =
    count_all least width buckets more (count_at (bucket_of least width buckets ts) bs)

-- The buckets, from the smallest and the largest timestamp.
unfoldable pub fill : ℕ → ℕ → List ℕ → List TimeBucket
unfolding make_buckets count_all
fill least greatest timestamps =
    let span = greatest - least + 1 in
    count_all least (bucket_width span) (bucket_count span) timestamps
      (make_buckets least greatest (bucket_width span) 0 (bucket_count span))

unfoldable pub build_time_histogram : List ℕ → Option (List TimeBucket)
unfolding fill
build_time_histogram [] = none
build_time_histogram (ts ∷ more) =
    some (fill (min_ts ts (ts ∷ more)) (max_ts ts (ts ∷ more)) (ts ∷ more))
