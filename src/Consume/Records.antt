-- ===== src/Consume/Records.antt =====
-- What a scan holds, in terms of the records that the polls returned.
use dbx_plugin_kafka.Base.{
  ℕ, zero, suc, ◌+◌, ◌-◌, ◌≤◌, ◌<◌, max, ◌≡◌, refl, sym, ap, ◌∙◌, inl, inr, Bool, false, not,
  Option, none, some, List, [], ◌∷◌, ◌++◌, append_assoc, append-nil, map, length, length-append,
  take, keep_if, get_elem?, if◌then◌else◌, leb, ◌==◌, nat_eq, arith, le→leb, Bool-cases,
  Option-cases,
}
use dbx_plugin_kafka.Base.Dict.{Dict, lookup, lookup-insert}
use dbx_plugin_kafka.Consume.{
  KafkaRecord, next_partition_offset, ScanState, scan_record, scan_records,
}

-- The larger of two numbers that may be missing.
abbrev pub merged : Option ℕ → Option ℕ → Option ℕ
merged none o = o
merged (some m) none = some m
merged (some m) (some n) = some (max m n)

-- The offset after the last one of the records of a partition.
unfoldable pub after_last : ℕ → List KafkaRecord → Option ℕ
after_last p [] = none
after_last p (r ∷ rs) =
    let rest = after_last p rs in
    if r.partition == p then merged (some (r.offset + 1)) rest else rest

merged_covers : (m : ℕ) (o : Option ℕ) → (n : ℕ) × (merged (some m) o ≡ some n) × (m ≤ n)
merged_covers m none = (m, refl, omega arith)
merged_covers m (some k) = (max m k, refl, omega arith)

-- The offset after the last record of a partition is beyond each record of it.
pub after_last-covers :
    (rs : List KafkaRecord) (j : ℕ) (r : KafkaRecord)
    → get_elem? rs j ≡ some r
    → (n : ℕ) × (after_last r.partition rs ≡ some n) × (r.offset < n)
unfolding after_last
after_last-covers [] j r h = absurd (ground arith)
after_last-covers (t ∷ rs) zero r h =
    let same : t ≡ r = ground arith in
    let (n, found, above) = merged_covers (t.offset + 1) (after_last r.partition rs) in
    (
      n,
      rw ((nat_eq.same_iff t.partition r.partition).1 (ap (λ k. k.partition) same)) found,
      omega (arith, above, ap (λ k. k.offset) same),
    )
after_last-covers (t ∷ rs) (suc j) r h =
    let (n, found, above) = after_last-covers rs j r h in
    elim (Bool-cases (t.partition == r.partition)) [
      | inl same ↦ (max (t.offset + 1) n, rw (same, found) refl, omega arith)
      | inr other ↦ (n, rw other found, above)
    ]

merged_assoc : (a b c : Option ℕ) → merged (merged a b) c ≡ merged a (merged b c)
merged_assoc none b c = refl
merged_assoc (some l) none c = refl
merged_assoc (some l) (some m) none = refl
merged_assoc (some l) (some m) (some n) = ap some (omega arith)

merged-none : (a : Option ℕ) → merged a none ≡ a
merged-none none = refl
merged-none (some n) = refl

lookup-next_partition_offset :
    (p : ℕ) (next : Dict ℕ ℕ) (r : KafkaRecord)
    → lookup p (next_partition_offset next r)
      ≡ (if r.partition == p then merged (lookup p next) (some (r.offset + 1)) else lookup p next)
unfolding next_partition_offset
lookup-next_partition_offset p next r = elim (Option-cases (lookup r.partition next)) [
  | inl missing ↦
      rw (missing, next_partition_offset)
        (ground (
          arith,
          missing,
          lookup-insert p r.partition (r.offset + 1) next,
          nat_eq.same_iff r.partition p,
          λ (e : r.partition ≡ p). ap (λ k. lookup k next) e,
        ))
  | inr (current, there) ↦
      rw (there, next_partition_offset)
        (ground (
          arith,
          there,
          lookup-insert p r.partition (r.offset + 1) next,
          nat_eq.same_iff r.partition p,
          λ (e : r.partition ≡ p). ap (λ k. lookup k next) e,
        ))
]

module _ {Message : Type 0} (matches : KafkaRecord → Bool) (message_of : KafkaRecord → Message)
    (limit : ℕ) where
  pub scan_records-counts :
      (s : ScanState Message) (rs : List KafkaRecord)
      → ((scan_records matches message_of limit s rs).scanned ≡ s.scanned + length rs)
        × ((scan_records matches message_of limit s rs).matched
            ≡ s.matched + length (keep_if matches rs))
  unfolding scan_records scan_record keep_if
  scan_records-counts s [] = omega arith
  scan_records-counts s (r ∷ rs) =
      ground (arith, scan_records-counts (scan_record matches message_of limit s r) rs)

  scan_record-offsets :
      (s : ScanState Message) (r : KafkaRecord)
      → (scan_record matches message_of limit s r).next_partition_offsets
        ≡ next_partition_offset s.next_partition_offsets r
  unfolding scan_record
  scan_record-offsets s r = ground arith

  scan_record-messages :
      (s : ScanState Message) (r : KafkaRecord)
      → (scan_record matches message_of limit s r).messages ≡ (
          if not (matches r)
          then s.messages
          else if leb limit (length s.messages)
          then s.messages
          else s.messages ++ (message_of r ∷ []))
  unfolding scan_record
  scan_record-messages s r = ground arith

  -- A matching record is a message as long as there is room.
  pub scan_records-messages :
      (room : ℕ) (s : ScanState Message) (rs : List KafkaRecord)
      → limit - length s.messages ≡ room
      → (scan_records matches message_of limit s rs).messages
        ≡ s.messages ++ map message_of (take room (keep_if matches rs))
  unfolding scan_records keep_if
  scan_records-messages zero s [] h = sym (append-nil s.messages)
  scan_records-messages (suc room) s [] h = sym (append-nil s.messages)
  scan_records-messages zero s (r ∷ rs) h =
      let next = scan_record matches message_of limit s r in
      let same : next.messages ≡ s.messages =
        scan_record-messages s r
        ∙ rw (le→leb limit (length s.messages) (omega arith)) (ground arith) in
      let room_left : limit - length next.messages ≡ 0 = ap (λ l. limit - length l) same ∙ h in
      scan_records-messages zero next rs room_left
      ∙ append-nil next.messages
      ∙ same
      ∙ sym (append-nil s.messages)
  scan_records-messages (suc room) s (r ∷ rs) h = elim (Bool-cases (matches r)) [
    | inr other ↦
        let next = scan_record matches message_of limit s r in
        let same : next.messages ≡ s.messages = scan_record-messages s r ∙ rw other refl in
        rw other (
          scan_records-messages (suc room) next rs (ap (λ l. limit - length l) same ∙ h)
          ∙ ap (λ l. l ++ map message_of (take (suc room) (keep_if matches rs))) same)
    | inl hit ↦
        let next = scan_record matches message_of limit s r in
        let same : next.messages ≡ s.messages ++ (message_of r ∷ []) =
          scan_record-messages s r ∙ rw (hit, not_full (length s.messages) room h) refl in
        rw hit (
          scan_records-messages room next rs (
            ap (λ l. limit - length l) same
            ∙ omega (arith, length-append s.messages (message_of r ∷ []), h))
          ∙ ap (λ l. l ++ map message_of (take room (keep_if matches rs))) same
          ∙ append_assoc s.messages (message_of r ∷ [])
              (map message_of (take room (keep_if matches rs))))
  ]
    where
      not_full : (n m : ℕ) → limit - n ≡ suc m → leb limit n ≡ false
      not_full n m e = ground arith

  pub scan_records-offsets :
      (s : ScanState Message) (rs : List KafkaRecord) (p : ℕ)
      → lookup p (scan_records matches message_of limit s rs).next_partition_offsets
        ≡ merged (lookup p s.next_partition_offsets) (after_last p rs)
  unfolding scan_records after_last
  scan_records-offsets s [] p = sym (merged-none (lookup p s.next_partition_offsets))
  scan_records-offsets s (r ∷ rs) p =
      scan_records-offsets (scan_record matches message_of limit s r) rs p
      ∙ ap (λ n. merged (lookup p n) (after_last p rs)) (scan_record-offsets s r)
      ∙ ap (λ o. merged o (after_last p rs))
          (lookup-next_partition_offset p s.next_partition_offsets r)
      ∙ elim (Bool-cases (r.partition == p)) [
        | inl same ↦ rw same (
            merged_assoc (lookup p s.next_partition_offsets) (some (r.offset + 1))
              (after_last p rs))
        | inr other ↦ rw other refl
      ]
