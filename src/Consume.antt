-- ===== src/Consume.antt =====
-- backend/internal/kafkaconn/messages.go: consuming messages once (`consumeMessages`). Its filters are in
-- Consume.Filters, the loop and its result here. The Kafka client is a parameter: what a poll of at most so
-- many records returns, by the number of the poll. So are the decoded value of a record and the message that is made of
-- it. The pool of clients, the wait for the cluster and the calls before them are not here; `matches` stands for
-- the two tests on a record.
pub mod JsonPath
pub mod Decode
pub mod Filters
pub mod Records
pub mod Ending
pub mod Answer
mod Tests
use dbx_plugin_kafka.Base.{
  ℕ, zero, suc, ◌+◌, ◌-◌, Bool, true, false, ◌&&◌, ◌||◌, not, Option, none, some, List, [], ◌∷◌,
  ◌++◌, length, if◌then◌else◌, ltb, leb, ◌==◌, nat_eq, String,
}
use dbx_plugin_kafka.Base.Alloc.{make_panics}
use dbx_plugin_kafka.Base.Int.{ℤ, is_positive, pos_part}
use dbx_plugin_kafka.Base.Dict.{Dict, lookup, insert}
use dbx_plugin_kafka.Base.Result.{Result, ok, err}
use dbx_plugin_kafka.Offsets.{consume_max_scan_records}

pub record KafkaRecord : Type 0 where
  pub topic : String
  pub partition : ℕ
  pub offset : ℕ
  pub timestamp : ℤ
  -- `none` is `nil`.
  pub key : Option String
  pub value : Option String
  pub headers : List (String × String)

unfoldable pub next_partition_offset : Dict ℕ ℕ → KafkaRecord → Dict ℕ ℕ
next_partition_offset next r = elim (lookup r.partition next) [
  | none ↦ insert r.partition (r.offset + 1) next
  | some current ↦
      if ltb current (r.offset + 1) then insert r.partition (r.offset + 1) next else next
]

unfoldable pub consume_scan_batch_size : ℕ → ℕ
consume_scan_batch_size remaining =
    if ltb remaining 256 then if ltb 0 remaining then remaining else 1 else 256

-- What stands beside the records of a poll: nothing, the end of the time, or another error.
pub data PollEnd (E : Type 0) : Type 0 where
  fine deadline : PollEnd E
  failed : E → PollEnd E

pub record Fetches (E : Type 0) : Type 0 where
  pub records : List KafkaRecord
  pub ended : PollEnd E
  -- The context is over.
  pub expired : Bool

pub record ScanState (Message : Type 0) : Type 0 where
  pub messages : List Message
  pub scanned : ℕ
  pub matched : ℕ
  pub next_partition_offsets : Dict ℕ ℕ

pub record ConsumeResult (Message : Type 0) : Type 0 where
  pub messages : List Message
  pub scanned : ℕ
  pub matched : ℕ
  pub limited : Bool
  pub has_more : Bool
  pub next_partition_offsets : Dict ℕ ℕ

abbrev pub empty_scan : {Message : Type 0} → ScanState Message
empty_scan = record { messages = []; scanned = 0; matched = 0; next_partition_offsets = [] }

-- `params.Limit`, 100 if it is not positive.
unfoldable pub limit_of : ℤ → ℕ
limit_of limit = if is_positive limit then pos_part limit else 100

module _ {Message : Type 0} (matches : KafkaRecord → Bool) (message_of : KafkaRecord → Message)
    (limit : ℕ) where
  unfoldable pub scan_record : ScanState Message → KafkaRecord → ScanState Message
  unfolding next_partition_offset
  scan_record s r =
      let seen = record s {
        scanned = s.scanned + 1;
        next_partition_offsets = next_partition_offset s.next_partition_offsets r;
      } in
      if not (matches r)
      then seen
      else if leb limit (length s.messages)
      then record seen { matched = s.matched + 1 }
      else record seen { matched = s.matched + 1; messages = s.messages ++ (message_of r ∷ []) }

  unfoldable pub scan_records : ScanState Message → List KafkaRecord → ScanState Message
  unfolding scan_record
  scan_records s [] = s
  scan_records s (r ∷ rs) = scan_records (scan_record s r) rs

  module _ {E : Type 0} (poll : ℕ → ℕ → Fetches E) (max_scan : ℕ) where
    abbrev pub goes_on : ScanState Message → Bool
    goes_on s = ltb s.scanned max_scan && ltb s.matched limit

    -- The loop from the poll of the number `round` on, with the flag `timedOut`; `none` means that the
    -- fuel ran out.
    unfoldable pub scan_loop :
        ℕ → ℕ → ScanState Message → Option (Result E (ScanState Message × Bool))
    unfolding scan_records consume_scan_batch_size
    scan_loop zero round s = if goes_on s then none else some (ok (s, false))
    scan_loop (suc fuel) round s = elim (goes_on s) [
      | false ↦ some (ok (s, false))
      | true ↦
          let fetches = poll round (consume_scan_batch_size (max_scan - s.scanned)) in
          let s' = scan_records s fetches.records in
          elim fetches.ended [
            | failed e ↦ some (err e)
            | deadline ↦ some (ok (s', true))
            | fine ↦ elim fetches.expired [
              | true ↦ some (ok (s', true))
              | false ↦ scan_loop fuel (round + 1) s'
            ]
          ]
    ]

abbrev pub result_of : {Message : Type 0} → ℕ → ℕ → ScanState Message × Bool → ConsumeResult Message
result_of limit max_scan (s, timed_out) = record {
  messages = s.messages;
  scanned = s.scanned;
  matched = s.matched;
  limited = leb limit s.matched;
  has_more = leb limit s.matched || leb max_scan s.scanned || timed_out;
  next_partition_offsets = s.next_partition_offsets;
}

-- What ends a request without a result: a panic, or an error of the client.
pub data Failure (E : Type 0) : Type 0 where
  panics : Failure E
  broken : E → Failure E

-- From the making of the slice of messages on; `commit_error` is what `CommitUncommittedOffsets` answers, `none` where the request
-- does not commit.
unfoldable pub consume_messages :
    {Message E : Type 0}
    → (KafkaRecord → Bool)
    → (KafkaRecord → Message)
    → (ℕ → ℕ → Fetches E)
    → ℤ
    → ℤ
    → Option E
    → Option (Result (Failure E) (ConsumeResult Message))
unfolding scan_loop limit_of
consume_messages matches message_of poll limit max_scan_records commit_error =
    let limit' = limit_of limit in
    let max_scan = consume_max_scan_records limit' max_scan_records in
    elim (make_panics limit') [
      | true ↦ some (err panics)
      | false ↦ elim (scan_loop matches message_of limit' poll max_scan max_scan 0 empty_scan) [
        | none ↦ none
        | some (err e) ↦ some (err (broken e))
        | some (ok done) ↦ elim commit_error [
          | some e ↦ some (err (broken e))
          | none ↦ some (ok (result_of limit' max_scan done))
        ]
      ]
    ]
