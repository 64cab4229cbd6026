-- ===== src/Stream/Ring.antt =====
-- `ringBuffer` of backend/internal/kafkaconn/stream.go: the last messages of a session. The buffer is
-- made with a blank message in every place, as `make` does. An `int` is 64 bits wide.
pub mod Contents
pub mod Places
pub mod Append
pub mod Page
mod Tests
use dbx_plugin_kafka.Base.{
  ℕ, zero, suc, ◌+◌, ◌-◌, ◌%◌, ◌^◌, Bool, true, false, ◌&&◌, Option, none, some, List, [], ◌∷◌,
  if◌then◌else◌, ltb, leb, length, get_or, set, replicate,
}
use dbx_plugin_kafka.Base.Alloc.{make_panics}
use dbx_plugin_kafka.Base.Int.{
  ℤ, pos, negsuc, pos_part, is_positive, is_neg, ltb_ℤ, sub_ℕ, int64_of_bits,
}

-- `StreamRingCapacity`
abbrev pub stream_ring_capacity : ℕ
stream_ring_capacity = 10000

pub record RingBuffer (A : Type 0) : Type 0 where
  pub data_ : List A
  pub head : ℕ
  pub size : ℕ
  pub capacity : ℕ

-- `offset + limit` in 64 bits, for an offset that is not negative.
abbrev pub add_int64 : ℕ → ℤ → ℤ
add_int64 offset (pos limit) = int64_of_bits (offset + limit)
add_int64 offset (negsuc limit) = sub_ℕ offset (suc limit)

-- `end - offset` in 64 bits
abbrev pub sub_int64 : ℤ → ℕ → ℤ
sub_int64 (pos end) offset = sub_ℕ end offset
sub_int64 (negsuc end) offset =
    if ltb (end + offset) (2 ^ 63) then negsuc (end + offset) else pos (2 ^ 64 - 1 - (end + offset))

-- The lengths at which `make` panics, where what the buffer has itself is not too much.
abbrev pub too_long : ℕ → ℕ → Bool
too_long size count = ltb size count && make_panics count

abbrev pub clip : ℤ → ℕ → ℤ
clip end size = if ltb_ℤ (pos size) end then pos size else end

module _ {A : Type 0} where
  unfoldable pub new_ring_buffer : A → ℤ → RingBuffer A
  new_ring_buffer blank capacity =
      let places = if is_positive capacity then pos_part capacity else stream_ring_capacity in
      record { data_ = replicate places blank; head = 0; size = 0; capacity = places }

  unfoldable pub append : A → RingBuffer A → RingBuffer A
  append msg rb = record rb {
    data_ = set rb.data_ rb.head msg;
    head = (rb.head + 1) % rb.capacity;
    size = if ltb rb.size rb.capacity then rb.size + 1 else rb.size;
  }

  unfoldable pub append_batch : List A → RingBuffer A → RingBuffer A
  append_batch [] rb = rb
  append_batch (msg ∷ msgs) rb = append_batch msgs (append msg rb)

  -- `(rb.head - rb.size + rb.capacity) % rb.capacity`, where the size is at most the capacity
  abbrev pub base : RingBuffer A → ℕ
  base rb = (rb.head + rb.capacity - rb.size) % rb.capacity

  -- `rb.data[(base+i)%rb.capacity]`
  abbrev pub at : A → RingBuffer A → ℕ → A
  at blank rb i = get_or rb.data_ ((base rb + i) % rb.capacity) blank

  -- The loop of `Page`, from place `i` on.
  unfoldable pub collect : A → RingBuffer A → ℕ → ℕ → List A
  collect blank rb i zero = []
  collect blank rb i (suc count) = at blank rb i ∷ collect blank rb (suc i) count

  -- `none` is the panic of `make` at a negative length or one that is too great.
  unfoldable pub collect_to : A → RingBuffer A → ℕ → ℤ → Option (List A)
  unfolding collect
  collect_to blank rb start end = elim (sub_int64 end start) [
    | negsuc count ↦ none
    | pos count ↦ if too_long rb.size count then none else some (collect blank rb start count)
  ]

  unfoldable pub page : A → ℤ → ℤ → RingBuffer A → Option (List A)
  unfolding collect_to
  page blank offset limit rb =
      let start = pos_part offset in
      if leb rb.size start
      then some []
      else collect_to blank rb start (clip (add_int64 start limit) rb.size)

  -- What `StreamMessages` answers, under the session's lock: the total and the page.
  unfoldable pub stream_messages : A → ℤ → ℤ → RingBuffer A → Option (ℕ × List A)
  unfolding page
  stream_messages blank offset limit rb =
      elim (page blank offset (if is_positive limit then limit else pos 100) rb) [
        | none ↦ none
        | some msgs ↦ some (rb.size, msgs)
      ]
