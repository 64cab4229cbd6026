-- ===== src/Offsets/Tests.antt =====
-- Runs of the choice of offsets of backend/internal/kafkaconn/messages.go on small inputs.
use dbx_plugin_kafka.Base.{
  ◌^◌, ℕ, ◌≡◌, ◌≢◌, refl, true, none, some, [], ◌∷◌, false, if◌then◌else◌, contains, inr, nat_eq,
  string_eq,
}
use dbx_plugin_kafka.Base.Int.{pos}
use dbx_plugin_kafka.Base.Dict.{Dict, lookup, insert}
use dbx_plugin_kafka.Base.Result.{ok, err}
use dbx_plugin_kafka.Base.Strings.{
  trim_space, trim_left, trim_right, lower_codes, same_codes, is_word,
}
use dbx_plugin_kafka.Offsets.{
  offset_required, at_offset, relative_to_end, exact, recent, ConsumeOpts, strategy_of,
  insert_sorted, normalize_partitions, consume_offset, consume_max_scan_records, exact_partitions,
  build_consume_opts,
}
use dbx_plugin_kafka.Offsets.Exact.{wanted, build_consume_opts_lem}
use dbx_plugin_kafka.Offsets.Partitions.{IsAscending, names, normalize_partitions_lem}

strategy : strategy_of " Absolute-Offset " ≡ exact
unfolding strategy_of trim_space trim_left trim_right is_word lower_codes same_codes
strategy = refl

recent_window :
    consume_offset recent none true false (consume_max_scan_records 50 (pos 0))
    ≡ ok (relative_to_end 1000)
unfolding consume_offset consume_max_scan_records
recent_window = refl

missing : build_consume_opts exact none "" 1000 ((0, 7) ∷ []) (0 ∷ 2 ∷ []) ≡ err (offset_required 2)
unfolding build_consume_opts exact_partitions lookup insert
missing = refl

abbrev given : Dict ℕ ℕ
given = (0, 7) ∷ (2, 9) ∷ []

abbrev made : ConsumeOpts
made = record {
  disable_auto_commit = true;
  partitions = (2, at_offset 9) ∷ (0, at_offset 7) ∷ [];
  topics = false;
  group = none;
  start = none;
}

build_consume_opts_lem_example :
    ((p : ℕ)
      → lookup p made.partitions
        ≡ (if contains p (2 ∷ 0 ∷ []) then some (wanted (lookup p given)) else none))
    × (exact ≡ exact → (p : ℕ) → contains p (2 ∷ 0 ∷ []) ≡ true → lookup p given ≢ none)
unfolding build_consume_opts exact_partitions lookup insert
build_consume_opts_lem_example =
    build_consume_opts_lem exact none "g" 1000 given 2 (0 ∷ []) made (inr refl) refl

normalize_partitions_lem_example :
    IsAscending (1 ∷ 3 ∷ [])
    × ((p : ℕ) → contains p (1 ∷ 3 ∷ []) ≡ names p (pos 3 ∷ pos 1 ∷ pos 3 ∷ []))
unfolding normalize_partitions insert_sorted contains
normalize_partitions_lem_example =
    normalize_partitions_lem (pos 3 ∷ pos 1 ∷ pos 3 ∷ []) (1 ∷ 3 ∷ []) refl

tenfold_wraps : consume_max_scan_records (2 ^ 61) (pos 0) ≡ 2 ^ 62
unfolding consume_max_scan_records
tenfold_wraps = refl
