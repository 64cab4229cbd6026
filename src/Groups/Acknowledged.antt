-- ===== src/Groups/Acknowledged.antt =====
-- A reset of offsets that succeeds.
use dbx_plugin_kafka.Base.{
  ℕ, zero, suc, ◌≡◌, ◌≢◌, refl, sym, ap, ◌∙◌, inl, inr, String, false, ◌&&◌, not, Option, none,
  some, List, [], ◌∷◌, get_elem?, ◌==◌, string_eq, nat_eq, pair_eq, arith, Bool-cases, Option-cases,
}
use dbx_plugin_kafka.Base.Int.{is_neg}
use dbx_plugin_kafka.Base.Dict.{lookup}
use dbx_plugin_kafka.Base.Result.{ok, Result-cases}
use dbx_plugin_kafka.Base.Strings.{trim_space}
use dbx_plugin_kafka.Policy.{Profile, ensure_write_allowed, normalize_topic_names}
use dbx_plugin_kafka.Groups.{
  OffsetResetMode, GroupOffsetResetRequest, Target, place, ResetError, OffsetResetRow,
  OffsetResponses, Admin, normalize_reset_mode, reset_row, offset_reset_rows, targets_of, commit,
  with_admin, reset_in_mode, is_partitions, is_timestamp, is_empty, reset_group_offsets,
}

module _ {E : Type 0} where
  -- A row without a failure is of a partition that was acknowledged without an error.
  reset_row-none :
      (commits : OffsetResponses E) (commit_err : Option E) (t : Target)
      → (reset_row commits commit_err t).1 ≡ none
      → (commit_err ≡ none) × (lookup (place t) commits ≡ some none)
  unfolding reset_row
  reset_row-none commits (some e) t h = absurd (ground arith)
  reset_row-none commits none t h = elim (Option-cases (lookup (place t) commits)) [
    | inl missing ↦ absurd (ground (arith, rw (missing, reset_row) at h))
    | inr (answered, there) ↦ elim (Option-cases answered) [
      | inl clean ↦ (refl, there ∙ ap some clean)
      | inr (e, bad) ↦ absurd (ground (arith, rw (there ∙ ap some bad, reset_row) at h))
    ]
  ]

  first_none :
      (here later : Option (ResetError E))
      → (elim here as (λ _. Option (ResetError E)) [ some e ↦ some e | none ↦ later ]) ≡ none
      → (here ≡ none) × (later ≡ none)
  first_none none later h = (refl, h)
  first_none (some e) later h = absurd (ground arith)

  offset_reset_rows-none :
      (targets : List Target) (commits : OffsetResponses E) (commit_err : Option E)
      → (offset_reset_rows targets commits commit_err).1 ≡ none
      → (i : ℕ) (t : Target) → get_elem? targets i ≡ some t
      → lookup (place t) commits ≡ some none
  unfolding offset_reset_rows
  offset_reset_rows-none [] commits commit_err h i t there = absurd (ground arith)
  offset_reset_rows-none (u ∷ targets) commits commit_err h zero t there =
      let (here, later) = first_none (reset_row commits commit_err u).1 _ h in
      let same : u ≡ t = ground arith in
      ap (λ k. lookup (place k) commits) (sym same) ∙ (reset_row-none commits commit_err u here).1
  offset_reset_rows-none (u ∷ targets) commits commit_err h (suc i) t there =
      let (here, later) = first_none (reset_row commits commit_err u).1 _ h in
      offset_reset_rows-none targets commits commit_err later i t there

  module _ (admin : Admin E) where
    abbrev Acknowledged : String → List Target → Type 0
    Acknowledged group targets =
        (i : ℕ) (t : Target)
        → get_elem? targets i ≡ some t
        → lookup (place t) (admin.commit_offsets group targets).0 ≡ some none

    commit-ok :
        (group : String) (targets : List Target) (rows : List (OffsetResetRow E))
        → (commit admin group targets).answer ≡ ok rows
        → ((commit admin group targets).committed ≡ some (group, targets))
          × Acknowledged group targets
    unfolding commit
    commit-ok group targets rows h =
        let commits = (admin.commit_offsets group targets).0 in
        let commit_err = (admin.commit_offsets group targets).1 in
        elim (Option-cases (offset_reset_rows targets commits commit_err).1) [
          | inr (e, bad) ↦ absurd (ground (arith, rw (bad, commit) at h))
          | inl good ↦
              (rw (good, commit) refl, offset_reset_rows-none targets commits commit_err good)
        ]

    with_admin-ok :
        (mode : OffsetResetMode) (group : String) (topics : List String)
        (req : GroupOffsetResetRequest) (rows : List (OffsetResetRow E))
        → (with_admin admin mode group topics req).answer ≡ ok rows
        → (targets : List Target) × (targets_of admin mode topics req ≡ ok targets)
          × ((with_admin admin mode group topics req).committed ≡ some (group, targets))
          × Acknowledged group targets
    unfolding with_admin
    with_admin-ok mode group topics req rows h = elim (Option-cases admin.connect) [
      | inr (e, bad) ↦ absurd (ground (arith, rw (bad, with_admin) at h))
      | inl connected ↦ elim (Result-cases (targets_of admin mode topics req)) [
        | inl (e, bad) ↦ absurd (ground (arith, rw (connected, bad, with_admin) at h))
        | inr (targets, found) ↦
            let (sent, acknowledged) =
              commit-ok group targets rows (rw (connected, found, with_admin) at h) in
            (targets, found, rw (connected, found, with_admin) sent, acknowledged)
      ]
    ]

    reset_in_mode-ok :
        (mode : OffsetResetMode) (group : String) (topics : List String)
        (req : GroupOffsetResetRequest) (rows : List (OffsetResetRow E))
        → (reset_in_mode admin mode group topics req).answer ≡ ok rows
        → reset_in_mode admin mode group topics req ≡ with_admin admin mode group topics req
    unfolding reset_in_mode
    reset_in_mode-ok mode group topics req rows h =
        elim (Bool-cases (not (is_partitions admin mode) && is_empty topics)) [
          | inl bad ↦ absurd (ground (arith, rw (bad, reset_in_mode) at h))
          | inr given ↦ elim (Bool-cases (is_timestamp admin mode && is_neg req.timestamp_ms)) [
            | inl bad ↦ absurd (ground (arith, rw (given, bad, reset_in_mode) at h))
            | inr right ↦ rw (given, right, reset_in_mode) refl
          ]
        ]

    -- A reset of offsets that succeeds was allowed by the connection and has a group and a mode; the offsets
    -- that the mode gives for the topics were committed for the group, and the broker has acknowledged
    -- every one of them without an error.
    pub reset_group_offsets-ok :
        (profile : Profile) (req : GroupOffsetResetRequest) (rows : List (OffsetResetRow E))
        → (reset_group_offsets admin profile req).answer ≡ ok rows
        → (profile.read_only ≡ false)
          × (trim_space req.group ≢ "")
          × (mode : OffsetResetMode) × (targets : List Target) × (normalize_reset_mode req.reset_to
              ≡ some mode)
          × (targets_of admin mode (normalize_topic_names req.topics) req ≡ ok targets)
          × ((reset_group_offsets admin profile req).committed
              ≡ some (trim_space req.group, targets))
          × Acknowledged (trim_space req.group) targets
    unfolding reset_group_offsets ensure_write_allowed
    reset_group_offsets-ok profile req rows h =
        let group = trim_space req.group in
        let topics = normalize_topic_names req.topics in
        elim (Bool-cases (group == "")) [
          | inl empty ↦ absurd (ground (arith, rw (empty, reset_group_offsets) at h))
          | inr named ↦ elim (Bool-cases profile.read_only) [
            | inl read ↦ absurd (ground (arith, rw (named, read, reset_group_offsets) at h))
            | inr write ↦ elim (Option-cases (normalize_reset_mode req.reset_to)) [
              | inl bad ↦ absurd (ground (arith, rw (named, write, bad, reset_group_offsets) at h))
              | inr (mode, found) ↦
                  let made : reset_group_offsets admin profile req
                      ≡ reset_in_mode admin mode group topics req =
                    rw (named, write, found, reset_group_offsets) refl in
                  let answered = ap (λ o. o.answer) (sym made) ∙ h in
                  let same = reset_in_mode-ok mode group topics req rows answered in
                  let (targets, listed, sent, acknowledged) =
                    with_admin-ok mode group topics req rows
                      (ap (λ o. o.answer) (sym same) ∙ answered) in
                  (
                    write,
                    λ e. absurd (ground (arith, named, e, string_eq.same_iff group "")),
                    mode,
                    targets,
                    found,
                    listed,
                    ap (λ o. o.committed) (made ∙ same) ∙ sent,
                    acknowledged,
                  )
            ]
          ]
        ]
