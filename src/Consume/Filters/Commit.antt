-- ===== src/Consume/Filters/Commit.antt =====
-- A request that commits has no filter.
use dbx_plugin_kafka.Base.{
  ℕ, ◌≡◌, refl, sym, ap, ◌∙◌, String, Bool, true, false, ◌&&◌, Option, none, some, List, [], ◌∷◌,
  map, length, take, keep_if, if◌then◌else◌, nat_eq, string_eq, arith,
}
use dbx_plugin_kafka.Base.Int.{ℤ, pos, is_neg}
use dbx_plugin_kafka.Base.Result.{ok}
use dbx_plugin_kafka.Consume.{KafkaRecord, Fetches, ConsumeResult, limit_of, consume_messages}
use dbx_plugin_kafka.Consume.Ending.{reads}
use dbx_plugin_kafka.Consume.Answer.{consume_messages_lem}
use dbx_plugin_kafka.Consume.Filters.{
  ConsumeFieldFilter, ConsumeParams, GoText, MatchMode, ParamsError, is_blank, is_given,
  has_field_filters, has_consume_filter, validate_range, timestamp_range, offset_range,
  negative_max_scan, group_required, commit_with_filter, ◌or_else◌,
}
use dbx_plugin_kafka.Consume.Filters.Match.{
  partition_allowed, not_below, not_above, passes, record_matches, field_filters_match,
  field_filters_need_value, wanted,
}
use dbx_plugin_kafka.Consume.Filters.Validate.{if_error, validate_consume_params}

both_none : (a b : Option ParamsError) → (a or_else b) ≡ none → (a ≡ none) × (b ≡ none)
both_none none b h = (refl, h)
both_none (some e) b h = absurd (ground arith)

none_set :
    (commit set : Bool) (e : ParamsError)
    → (if commit && set then some e else none) ≡ none
    → commit ≡ true
    → set ≡ false
none_set commit set e h c = ground arith

no_filter :
    (go : GoText) (p : ConsumeParams)
    → validate_consume_params go p ≡ none
    → p.commit ≡ true
    → has_consume_filter p ≡ false
unfolding validate_consume_params
no_filter go p h commit =
    let (_, h1) = both_none (validate_range p.timestamp_from p.timestamp_to timestamp_range) _ h in
    let (_, h2) = both_none (validate_range p.offset_from p.offset_to offset_range) _ h1 in
    let (_, h3) = both_none (if_error go (is_neg p.max_scan_records) negative_max_scan) _ h2 in
    let (_, h4) = both_none (if_error go (p.commit && is_blank p.group_id) group_required) _ h3 in
    let (unfiltered, _) =
      both_none (if_error go (p.commit && has_consume_filter p) commit_with_filter) _ h4 in
    none_set p.commit (has_consume_filter p) commit_with_filter unfiltered commit

all_off :
    (go : GoText) (fs : List ConsumeFieldFilter) (mode : MatchMode) (r : KafkaRecord)
    (decoded : Option String)
    → has_field_filters fs ≡ false
    → field_filters_match go fs mode r decoded ≡ true
unfolding has_field_filters field_filters_match
all_off go [] mode r decoded h = refl
all_off go (f ∷ fs) mode r decoded h = ground (arith, all_off go fs mode r decoded)

not_given_below : (n : ℤ) (o : Option ℤ) → is_given o ≡ false → not_below n o ≡ true
not_given_below n none h = refl
not_given_below n (some lo) h = absurd (ground arith)

not_given_above : (n : ℤ) (o : Option ℤ) → is_given o ≡ false → not_above n o ≡ true
not_given_above n none h = refl
not_given_above n (some hi) h = absurd (ground arith)

allowed_anywhere : (ps : List ℕ) (n : ℕ) → ps ≡ [] → partition_allowed ps n ≡ true
unfolding partition_allowed
allowed_anywhere [] n h = refl
allowed_anywhere (p ∷ ps) n h = absurd (ground arith)

-- The parts of the test that no filter is set.
unset :
    (p : ConsumeParams)
    → has_consume_filter p ≡ false
    → (has_field_filters p.field_filters ≡ false)
      × (is_given p.timestamp_from ≡ false)
      × (is_given p.timestamp_to ≡ false)
      × (is_given p.offset_from ≡ false)
      × (is_given p.offset_to ≡ false)
      × (is_blank p.filter ≡ true)
      × (is_blank p.key_filter ≡ true)
      × (is_blank p.value_filter ≡ true)
      × (is_blank p.header_filter ≡ true)
unfolding has_consume_filter
unset p h = ground arith

record_matches_unfiltered :
    (go : GoText) (p : ConsumeParams) (mode : MatchMode) (r : KafkaRecord)
    → has_consume_filter p ≡ false
    → p.partitions ≡ []
    → record_matches go p mode r ≡ true
unfolding record_matches passes
record_matches_unfiltered go p mode r h everywhere =
    let (_, t, u, o, q, a, b, c, d) = unset p h in
    rw
      (
        allowed_anywhere p.partitions r.partition everywhere,
        not_given_below r.timestamp p.timestamp_from t,
        not_given_above r.timestamp p.timestamp_to u,
        not_given_below (pos r.offset) p.offset_from o,
        not_given_above (pos r.offset) p.offset_to q,
        a,
        b,
        c,
        d,
      )
      refl

wanted_unfiltered :
    (go : GoText) (p : ConsumeParams) (mode : MatchMode) (decoded : KafkaRecord → Option String)
    (r : KafkaRecord)
    → has_consume_filter p ≡ false
    → p.partitions ≡ []
    → wanted go p mode decoded r ≡ true
unfolding wanted
wanted_unfiltered go p mode decoded r h everywhere =
    let f = (unset p h).0 in
    rw
      (
        record_matches_unfiltered go p mode r h everywhere,
        all_off go p.field_filters mode r
            (if field_filters_need_value p.field_filters then decoded r else r.value) f,
      )
      refl

keep_all : {A : Type 0} (p : A → Bool) → ((x : A) → p x ≡ true) → (xs : List A) → keep_if p xs ≡ xs
unfolding keep_if
keep_all p h [] = refl
keep_all p h (x ∷ xs) = rw (h x) (ap (λ t. x ∷ t) (keep_all p h xs))

-- A request to commit that is accepted and names no partition filters nothing out: when it succeeds, it
-- counts every record that it scanned as matching, and its messages are made of the first of these records,
-- in their order, and of no more than the limit allows.
pub consume_messages-commit :
    {Message E : Type 0} (go : GoText) (p : ConsumeParams) (mode : MatchMode)
    (decoded : KafkaRecord → Option String) (message_of : KafkaRecord → Message)
    (poll : ℕ → ℕ → Fetches E) (limit : ℤ) (commit_error : Option E)
    (result : ConsumeResult Message)
    → validate_consume_params go p ≡ none
    → p.commit ≡ true
    → p.partitions ≡ []
    → consume_messages
        (wanted go p mode decoded)
        message_of
        poll
        limit
        p.max_scan_records
        commit_error
      ≡ some (ok result)
    → (sizes : List ℕ) × (result.messages
        ≡ map message_of (take (limit_of limit) (reads poll 0 sizes)))
      × (result.scanned ≡ length (reads poll 0 sizes))
      × (result.matched ≡ result.scanned)
consume_messages-commit go p mode decoded message_of poll limit commit_error result valid commit
      everywhere h =
    let (sizes, made, scanned, matched, _) =
      consume_messages_lem (wanted go p mode decoded) message_of poll limit p.max_scan_records
        commit_error result h in
    let seen = reads poll 0 sizes in
    let all : keep_if (wanted go p mode decoded) seen ≡ seen =
      keep_all (wanted go p mode decoded)
        (λ r. wanted_unfiltered go p mode decoded r (no_filter go p valid commit) everywhere)
        seen in
    (
      sizes,
      made ∙ ap (λ t. map message_of (take (limit_of limit) t)) all,
      scanned,
      matched ∙ ap length all ∙ sym scanned,
    )
