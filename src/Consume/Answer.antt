-- ===== src/Consume/Answer.antt =====
-- The answer to a request to consume messages.
use dbx_plugin_kafka.Base.{
  ℕ, ◌*◌, ◌^◌, ◌≤◌, ◌<◌, ◌≡◌, ◌≢◌, ◌↔◌, ◌⊎◌, refl, sym, ap, subst, ◌∙◌, inl, inr, Bool, true, false,
  ◌&&◌, ◌||◌, Option, some, List, map, length, length-take, take, keep_if, length-map, element_at,
  get_elem?-keep_if, get_elem?, ltb, leb, nat_eq, arith, Option-cases, Bool-cases,
}
use dbx_plugin_kafka.Base.Alloc.{make_panics}
use dbx_plugin_kafka.Base.Int.{ℤ}
use dbx_plugin_kafka.Base.Dict.{lookup}
use dbx_plugin_kafka.Base.Result.{Result, ok, err, Result-cases, ok_injective}
use dbx_plugin_kafka.Offsets.{consume_max_scan_records}
use dbx_plugin_kafka.Consume.{
  KafkaRecord, Fetches, ScanState, empty_scan, ConsumeResult, Failure, panics, broken, limit_of,
  scan_loop, result_of, consume_messages,
}
use dbx_plugin_kafka.Consume.Records.{
  after_last, after_last-covers, scan_records-counts, scan_records-messages, scan_records-offsets,
}
use dbx_plugin_kafka.Consume.Ending.{
  reads, AtMost, Advances, Within, scan_loop-reads, scan_loop-ends,
}

-- A scan ends with one of its bounds reached, or out of time.
says_more :
    (matched limit bound scanned : ℕ) (timed_out : Bool)
    → (timed_out ≡ true) ⊎ ((ltb scanned bound && ltb matched limit) ≡ false)
    → (leb limit matched || leb bound scanned || timed_out) ≡ true
says_more matched limit bound scanned timed_out h = ground arith

module _ {Message E : Type 0} (matches : KafkaRecord → Bool) (message_of : KafkaRecord → Message)
    (poll : ℕ → ℕ → Fetches E) (limit max_scan_records : ℤ) (commit_error : Option E) where
  abbrev bound : ℕ
  bound = consume_max_scan_records (limit_of limit) max_scan_records

  abbrev run : Option (Result E (ScanState Message × Bool))
  run = scan_loop matches message_of (limit_of limit) poll bound bound 0 empty_scan

  abbrev asked : Option (Result (Failure E) (ConsumeResult Message))
  asked = consume_messages matches message_of poll limit max_scan_records commit_error

  -- A success comes from a scan that succeeded.
  inverted :
      (result : ConsumeResult Message)
      → asked ≡ some (ok result)
      → (done : ScanState Message × Bool) × (run ≡ some (ok done))
        × (result ≡ result_of (limit_of limit) bound done)
  unfolding consume_messages
  inverted result h = elim (Bool-cases (make_panics (limit_of limit))) [
    | inl huge ↦ absurd (ground (arith, rw (huge, consume_messages) at h))
    | inr made ↦ elim (Option-cases run) [
      | inl out ↦ absurd (ground (arith, rw (made, out, consume_messages) at h))
      | inr (outcome, ended) ↦ elim (Result-cases outcome) [
        | inl (e, failed) ↦
            absurd (ground (arith, rw (made, ended ∙ ap some failed, consume_messages) at h))
        | inr (done, fine) ↦ elim (Option-cases commit_error) [
          | inr (e, refused) ↦
              absurd
                (ground (arith, rw (made, ended ∙ ap some fine, refused, consume_messages) at h))
          | inl accepted ↦ (
            done,
            ended ∙ ap some fine,
            sym (
                ok_injective (
                  some_injective
                    (rw (made, ended ∙ ap some fine, accepted, consume_messages) at h))),
          )
        ]
      ]
    ]
  ]
    where
      some_injective : {A : Type 0} {a b : A} → some a ≡ some b → a ≡ b
      some_injective e = ground arith

  -- The result of a request: its messages are made of the first matching ones of the records that the polls
  -- returned, up to the limit, in their order; it counts those records and the matching ones, and its cursor
  -- has each partition's offset after the last of those records.
  pub consume_messages_lem :
      (result : ConsumeResult Message)
      → asked ≡ some (ok result)
      → (sizes : List ℕ) × (result.messages
          ≡ map message_of (take (limit_of limit) (keep_if matches (reads poll 0 sizes))))
        × (result.scanned ≡ length (reads poll 0 sizes))
        × (result.matched ≡ length (keep_if matches (reads poll 0 sizes)))
        × ((p : ℕ) → lookup p result.next_partition_offsets ≡ after_last p (reads poll 0 sizes))
  unfolding lookup
  consume_messages_lem result h =
      let (done, ended, same) = inverted result h in
      let (sizes, counted, stop) =
        scan_loop-reads matches message_of (limit_of limit) poll bound bound 0 empty_scan done.0
          done.1 ended in
      let seen = reads poll 0 sizes in
      (
        sizes,
        ap (λ k. k.messages) same
            ∙ ap (λ k. k.messages) counted
            ∙ scan_records-messages matches message_of (limit_of limit) (limit_of limit) empty_scan
                seen (omega arith),
        ap (λ k. k.scanned) same
            ∙ ap (λ k. k.scanned) counted
            ∙ omega
                (arith, scan_records-counts matches message_of (limit_of limit) empty_scan seen),
        ap (λ k. k.matched) same
            ∙ ap (λ k. k.matched) counted
            ∙ omega
                (arith, scan_records-counts matches message_of (limit_of limit) empty_scan seen),
        λ p.
            ap (λ k. lookup p k.next_partition_offsets) same
            ∙ ap (λ k. lookup p k.next_partition_offsets) counted
            ∙ scan_records-offsets matches message_of (limit_of limit) empty_scan seen p,
      )

  short :
      (result : ConsumeResult Message)
      → asked ≡ some (ok result)
      → length result.messages ≤ limit_of limit
  short result h =
      let (sizes, made, _, _, _) = consume_messages_lem result h in
      let seen = keep_if matches (reads poll 0 sizes) in
      omega (
        arith,
        ap length made,
        length-map message_of (take (limit_of limit) seen),
        length-take (limit_of limit) seen,
      )

  more : (result : ConsumeResult Message) → asked ≡ some (ok result) → result.has_more ≡ true
  more result h =
      let (done, ended, same) = inverted result h in
      let (sizes, counted, stop) =
        scan_loop-reads matches message_of (limit_of limit) poll bound bound 0 empty_scan done.0
          done.1 ended in
      ap (λ k. k.has_more) same
      ∙ says_more done.0.matched (limit_of limit) bound done.0.scanned done.1 stop

  -- A request whose slice of messages is made ends, with an error or a result.
  made_ends :
      make_panics (limit_of limit) ≡ false
      → AtMost poll
      → Advances poll
      → (asked ≢ some (err panics))
        × (outcome : Result (Failure E) (ConsumeResult Message)) × (asked ≡ some outcome)
        × ((result : ConsumeResult Message) → outcome ≡ ok result → result.scanned ≤ bound)
  unfolding consume_messages
  made_ends made at_most advances =
      let (outcome, ended, within) =
        scan_loop-ends matches message_of (limit_of limit) poll bound bound 0 empty_scan
          (omega arith) (omega arith) at_most advances in
      elim (Result-cases outcome) [
        | inl (e, failed) ↦ stopped e (rw (made, ended ∙ ap some failed, consume_messages) refl)
        | inr (done, good) ↦ elim (Option-cases commit_error) [
          | inr (e, refused) ↦
              stopped e (rw (made, ended ∙ ap some good, refused, consume_messages) refl)
          | inl accepted ↦
              let answered : asked ≡ some (ok (result_of (limit_of limit) bound done)) =
                rw (made, ended ∙ ap some good, accepted, consume_messages) refl in
              (
                λ h. ground (arith, answered, h),
                ok (result_of (limit_of limit) bound done),
                answered,
                λ result h.
                    subst (λ k. k ≤ bound) (ap (λ k. k.scanned) (ok_injective h))
                      (subst (Within matches message_of (limit_of limit) poll bound) good within),
              )
        ]
      ]
    where
      stopped :
          (e : E)
          → asked ≡ some (err (broken e))
          → (asked ≢ some (err panics))
            × (outcome : Result (Failure E) (ConsumeResult Message)) × (asked ≡ some outcome)
            × ((result : ConsumeResult Message) → outcome ≡ ok result → result.scanned ≤ bound)
      stopped e h =
          (λ p. ground (arith, h, p), err (broken e), h, λ result absent. absurd (ground arith))

  -- If polls return no more than they are asked for and wait for records, the request comes to its end: with
  -- a panic, which happens exactly if the messages of the limit, of 176 bytes each, take more than 2^48
  -- bytes, with an error, or with a result of no more scanned records than the bound and no more messages
  -- than the limit, which says that there is more.
  pub consume_messages-ends :
      AtMost poll
      → Advances poll
      → ((asked ≡ some (err panics)) ↔ (2 ^ 48 < limit_of limit * 176))
        × (outcome : Result (Failure E) (ConsumeResult Message)) × (asked ≡ some outcome)
        × ((result : ConsumeResult Message)
            → outcome ≡ ok result
            → (result.scanned ≤ bound)
              × (length result.messages ≤ limit_of limit)
              × (result.has_more ≡ true))
  unfolding consume_messages
  consume_messages-ends at_most advances = elim (Bool-cases (make_panics (limit_of limit))) [
    | inl huge ↦
        let answered : asked ≡ some (err panics) = rw (huge, consume_messages) refl in
        (
          (λ _. ground (arith, huge), λ _. answered),
          err panics,
          answered,
          λ result h. absurd (ground arith),
        )
    | inr made ↦
        let (calm, outcome, ended, within) = made_ends made at_most advances in
        (
          (λ p. absurd (calm p), λ large. absurd (ground (arith, made, large))),
          outcome,
          ended,
          λ result h.
              let reached = ended ∙ ap some h in
              (within result h, short result reached, more result reached),
        )
  ]

  -- When more records match than the limit, the first matching record that is not among the messages lies
  -- before the cursor of its partition, so that who reads on from there does not see it.
  pub consume_messages_skips :
      (result : ConsumeResult Message)
      → asked ≡ some (ok result)
      → limit_of limit < result.matched
      → (sizes : List ℕ) × (r : KafkaRecord) × (n : ℕ) × (get_elem?
            (keep_if matches (reads poll 0 sizes))
            (limit_of limit)
          ≡ some r)
        × (result.messages
            ≡ map message_of (take (limit_of limit) (keep_if matches (reads poll 0 sizes))))
        × (lookup r.partition result.next_partition_offsets ≡ some n)
        × (r.offset < n)
  consume_messages_skips result h over =
      let (sizes, made, _, count, cursor) = consume_messages_lem result h in
      let seen = reads poll 0 sizes in
      let (r, there) =
        element_at (limit_of limit) (keep_if matches seen) (omega (arith, over, count)) in
      let (j, read) = get_elem?-keep_if matches seen (limit_of limit) r there in
      let (n, last, before) = after_last-covers seen j r read in
      (sizes, r, n, there, made, cursor r.partition ∙ last, before)
