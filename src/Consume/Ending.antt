-- ===== src/Consume/Ending.antt =====
-- The loop of a scan: that it ends, what it has read when it does, and what its cursor passes over.
use dbx_plugin_kafka.Base.{
  ℕ, zero, suc, ◌+◌, ◌-◌, ◌≤◌, ◌<◌, ◌≡◌, ◌⊎◌, refl, sym, ap, subst, ◌∙◌, inl, inr, Bool, true,
  false, Option, some, List, [], ◌∷◌, ◌++◌, length, nat_eq, arith, Bool-cases, append-nil,
}
use dbx_plugin_kafka.Base.Result.{Result, ok, err}
use dbx_plugin_kafka.Consume.{
  KafkaRecord, PollEnd, fine, deadline, failed, Fetches, ScanState, scan_record, scan_records,
  goes_on, scan_loop, consume_scan_batch_size,
}
use dbx_plugin_kafka.Consume.Records.{scan_records-counts}

-- The records of successive polls, given how many each asks for.
pub reads : {E : Type 0} → (ℕ → ℕ → Fetches E) → ℕ → List ℕ → List KafkaRecord
reads poll round [] = []
reads poll round (size ∷ sizes) = (poll round size).records ++ reads poll (round + 1) sizes

-- A poll returns no more records than it is asked for.
abbrev pub AtMost : {E : Type 0} → (ℕ → ℕ → Fetches E) → Type 0
AtMost poll = (round size : ℕ) → length (poll round size).records ≤ size

-- A poll waits for records: without one it returns only with an error or when its context is over.
abbrev pub Advances : {E : Type 0} → (ℕ → ℕ → Fetches E) → Type 0
Advances poll =
    (round size : ℕ)
    → 0 < size
    → (poll round size).ended ≡ fine
    → (poll round size).expired ≡ false
    → 0 < length (poll round size).records

PollEnd-cases :
    {E : Type 0} (p : PollEnd E) → (p ≡ fine) ⊎ (p ≡ deadline) ⊎ ((e : E) × (p ≡ failed e))
PollEnd-cases fine = inl refl
PollEnd-cases deadline = inr (inl refl)
PollEnd-cases (failed e) = inr (inr (e, refl))

batch_bounds : (n : ℕ) → 0 < n → (0 < consume_scan_batch_size n) × (consume_scan_batch_size n ≤ n)
unfolding consume_scan_batch_size
batch_bounds n h = ground arith

module _ {Message E : Type 0} (matches : KafkaRecord → Bool) (message_of : KafkaRecord → Message)
    (limit : ℕ) (poll : ℕ → ℕ → Fetches E) (max_scan : ℕ) where
  scan_records-append :
      (s : ScanState Message) (rs ts : List KafkaRecord)
      → scan_records matches message_of limit s (rs ++ ts)
        ≡ scan_records matches message_of limit (scan_records matches message_of limit s rs) ts
  unfolding scan_records
  scan_records-append s [] ts = refl
  scan_records-append s (r ∷ rs) ts =
      scan_records-append (scan_record matches message_of limit s r) rs ts

  abbrev Went : ℕ → ScanState Message → ScanState Message → Bool → Type 0
  Went round s s' timed_out =
      (sizes : List ℕ) × (s' ≡ scan_records matches message_of limit s (reads poll round sizes))
      × ((timed_out ≡ true) ⊎ (goes_on matches message_of limit poll max_scan s' ≡ false))

  stopped :
      (round : ℕ) (s s' : ScanState Message) (timed_out : Bool)
      → goes_on matches message_of limit poll max_scan s ≡ false
      → ◌≡◌ {A = Option (Result E (ScanState Message × Bool))}
          (some (ok (s, false)))
          (some (ok (s', timed_out)))
      → Went round s s' timed_out
  unfolding reads scan_records
  stopped round s s' timed_out off h =
      let same : s ≡ s' = ground arith in
      (
        [],
        sym same,
        inr (subst (λ k. goes_on matches message_of limit poll max_scan k ≡ false) same off),
      )

  one_batch :
      (round size : ℕ) (s s' : ScanState Message) (timed_out : Bool)
      → ◌≡◌ {A = Option (Result E (ScanState Message × Bool))}
          (some (ok (scan_records matches message_of limit s (poll round size).records, true)))
          (some (ok (s', timed_out)))
      → Went round s s' timed_out
  unfolding reads
  one_batch round size s s' timed_out h =
      let same : scan_records matches message_of limit s (poll round size).records ≡ s' =
        ground arith in
      (
        size ∷ [],
        sym same
            ∙ ap (scan_records matches message_of limit s)
                (sym (append-nil (poll round size).records)),
        inl (ground arith),
      )

  more_batches :
      (round size : ℕ) (s s' : ScanState Message) (timed_out : Bool)
      → Went
          (round + 1)
          (scan_records matches message_of limit s (poll round size).records)
          s'
          timed_out
      → Went round s s' timed_out
  unfolding reads
  more_batches round size s s' timed_out (sizes, same, stop) = (
    size ∷ sizes,
    same ∙ sym (scan_records-append s (poll round size).records (reads poll (round + 1) sizes)),
    stop,
  )

  -- A scan that succeeds has read what some polls returned, and ended in time only with one bound reached.
  pub scan_loop-reads :
      (fuel round : ℕ) (s s' : ScanState Message) (timed_out : Bool)
      → scan_loop matches message_of limit poll max_scan fuel round s ≡ some (ok (s', timed_out))
      → Went round s s' timed_out
  unfolding scan_loop
  scan_loop-reads zero round s s' timed_out h =
      elim (Bool-cases (goes_on matches message_of limit poll max_scan s)) [
        | inl on ↦ absurd (ground (arith, rw (on, scan_loop) at h))
        | inr off ↦ stopped round s s' timed_out off (rw (off, scan_loop) at h)
      ]
  scan_loop-reads (suc fuel) round s s' timed_out h =
      elim (Bool-cases (goes_on matches message_of limit poll max_scan s)) [
        | inr off ↦ stopped round s s' timed_out off (rw (off, scan_loop) at h)
        | inl on ↦
            let size = consume_scan_batch_size (max_scan - s.scanned) in
            elim (PollEnd-cases (poll round size).ended) [
              | inr (inr (e, bad)) ↦ absurd (ground (arith, rw (on, bad, scan_loop) at h))
              | inr (inl late) ↦ one_batch round size s s' timed_out (rw (on, late, scan_loop) at h)
              | inl good ↦ elim (Bool-cases (poll round size).expired) [
                | inl over ↦
                    one_batch round size s s' timed_out (rw (on, good, over, scan_loop) at h)
                | inr running ↦ more_batches round size s s' timed_out (
                    scan_loop-reads fuel (round + 1)
                      (scan_records matches message_of limit s (poll round size).records) s'
                      timed_out (rw (on, good, running, scan_loop) at h))
              ]
            ]
      ]

  abbrev pub Within : Result E (ScanState Message × Bool) → Type 0
  Within (err e) = Unit
  Within (ok (s, timed_out)) = s.scanned ≤ max_scan

  going_on :
      (s : ScanState Message)
      → goes_on matches message_of limit poll max_scan s ≡ true
      → s.scanned < max_scan
  going_on s h = ground arith

  finished :
      (s : ScanState Message)
      → max_scan ≤ s.scanned
      → goes_on matches message_of limit poll max_scan s ≡ false
  finished s h = ground arith

  -- Every poll that leaves the scan going reads one record at least, so the fuel is enough, and none reads
  -- more than it asks for.
  pub scan_loop-ends :
      (fuel round : ℕ) (s : ScanState Message)
      → max_scan ≤ s.scanned + fuel
      → s.scanned ≤ max_scan
      → AtMost poll
      → Advances poll
      → (outcome : Result E (ScanState Message × Bool)) × (scan_loop matches message_of limit poll
            max_scan fuel round s
          ≡ some outcome)
        × Within outcome
  unfolding scan_loop
  scan_loop-ends zero round s room bound at_most advances =
      (ok (s, false), rw (finished s (omega arith), scan_loop) refl, bound)
  scan_loop-ends (suc fuel) round s room bound at_most advances =
      elim (Bool-cases (goes_on matches message_of limit poll max_scan s)) [
        | inr off ↦ (ok (s, false), rw (off, scan_loop) refl, bound)
        | inl on ↦
            let size = consume_scan_batch_size (max_scan - s.scanned) in
            let s' = scan_records matches message_of limit s (poll round size).records in
            let within = batch_bounds (max_scan - s.scanned) (omega (arith, going_on s on)) in
            let bound' : s'.scanned ≤ max_scan = omega (
              arith,
              within,
              at_most round size,
              going_on s on,
              scan_records-counts matches message_of limit s (poll round size).records,
            ) in
            elim (PollEnd-cases (poll round size).ended) [
              | inr (inr (e, bad)) ↦ (err e, rw (on, bad, scan_loop) refl, tt)
              | inr (inl late) ↦ (ok (s', true), rw (on, late, scan_loop) refl, bound')
              | inl good ↦ elim (Bool-cases (poll round size).expired) [
                | inl over ↦ (ok (s', true), rw (on, good, over, scan_loop) refl, bound')
                | inr running ↦
                    let (outcome, ended, held) =
                      scan_loop-ends fuel (round + 1) s'
                        (omega (
                          arith,
                          room,
                          advances round size within.0 good running,
                          scan_records-counts matches message_of limit s (poll round size).records,
                        ))
                        bound' at_most advances in
                    (outcome, rw (on, good, running, scan_loop) ended, held)
              ]
            ]
      ]
