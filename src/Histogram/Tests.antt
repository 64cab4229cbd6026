-- ===== src/Histogram/Tests.antt =====
-- Runs of `buildTimeHistogram` of backend/internal/mcp/digest.go on small inputs.
use dbx_plugin_kafka.Base.{ℕ, ◌≤◌, ◌≡◌, refl, List, [], ◌∷◌, All, map, length}
use dbx_plugin_kafka.Histogram.{
  TimeBucket, make_buckets, count_at, count_all, fill, build_time_histogram,
}
use dbx_plugin_kafka.Histogram.Spread.{IsExact, build_time_histogram-IsExact}

abbrev timestamps : List ℕ
timestamps = 105 ∷ 100 ∷ 112 ∷ 101 ∷ []

abbrev spread : List TimeBucket
spread = fill 100 112 timestamps

-- Thirteen milliseconds make twelve buckets of two: five of them begin after the last timestamp, and the
-- last one ends before it begins.
starts :
    map (λ b. b.from) spread
    ≡ 100 ∷ 102 ∷ 104 ∷ 106 ∷ 108 ∷ 110 ∷ 112 ∷ 114 ∷ 116 ∷ 118 ∷ 120 ∷ 122 ∷ []
unfolding fill make_buckets count_all count_at
starts = refl

ends :
    map (λ b. b.to) spread
    ≡ 102 ∷ 104 ∷ 106 ∷ 108 ∷ 110 ∷ 112 ∷ 114 ∷ 116 ∷ 118 ∷ 120 ∷ 122 ∷ 113 ∷ []
unfolding fill make_buckets count_all count_at
ends = refl

build_time_histogram-IsExact_example : (length spread ≤ 12) × All (IsExact timestamps) spread
unfolding build_time_histogram
build_time_histogram-IsExact_example = build_time_histogram-IsExact timestamps spread refl
