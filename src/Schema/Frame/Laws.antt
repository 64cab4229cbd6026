-- ===== src/Schema/Frame/Laws.antt =====
-- What is put around the bytes of a message comes off again.
use dbx_plugin_kafka.Base.{
  ℕ, zero, suc, ◌+◌, ◌*◌, ◌/◌, ◌%◌, ◌^◌, ◌<◌, ◌≡◌, refl, sym, ap, ◌∙◌, inl, inr, true, some, List,
  [], ◌∷◌, ◌++◌, append_assoc, append-nil, length, drop, ltb, nat_eq, arith, Bool-cases,
}
use dbx_plugin_kafka.Base.Int.{ℤ, pos, negsuc, is_positive, pos_part}
use dbx_plugin_kafka.Base.Result.{ok}
use dbx_plugin_kafka.Schema.Frame.{
  Bytes, word, word32, word64, put_uint32, encode_wire_frame, decode_wire_frame, uvarint_bytes,
  append_uvarint, append_indexes, encode_protobuf_message_indexes, uvarint_count, strip_rounds,
  strip_protobuf_message_indexes,
}

word-lt : (size : ℕ) (x : ℤ) → 0 < size → word size x < size
word-lt size (pos n) h = grind arith
word-lt size (negsuc n) h = omega arith

pub decode_wire_frame-encode_wire_frame :
    (schema_id : ℤ) (payload : Bytes)
    → decode_wire_frame (encode_wire_frame schema_id payload) ≡ ok (word32 schema_id, payload)
unfolding decode_wire_frame encode_wire_frame put_uint32
decode_wire_frame-encode_wire_frame schema_id payload =
    ap (λ v. ok (v, payload))
      (four_bytes (word32 schema_id) (word-lt (2 ^ 32) schema_id (omega arith)))
  where
    four_bytes :
        (v : ℕ)
        → v < 2 ^ 32
        → v / 2 ^ 24 % 256 * 2 ^ 24 + v / 2 ^ 16 % 256 * 2 ^ 16 + v / 2 ^ 8 % 256 * 2 ^ 8 + v % 256
          ≡ v
    four_bytes v h = omega arith

-- 2 * 128 ^ rounds
abbrev limit : ℕ → ℕ
limit zero = 2
limit (suc rounds) = 128 * limit rounds

-- The bytes of a number with `i` bytes before it, ten in all, are counted up to their last.
uvarint_count-uvarint_bytes :
    (rounds i x : ℕ) (rest : Bytes)
    → i + rounds ≡ 9
    → x < limit rounds
    → uvarint_count i (uvarint_bytes rounds x ++ rest) ≡ pos (i + length (uvarint_bytes rounds x))
unfolding uvarint_count uvarint_bytes
uvarint_count-uvarint_bytes zero i x rest h bound = ground arith
uvarint_count-uvarint_bytes (suc rounds) i x rest h bound = elim (Bool-cases (ltb x 128)) [
  | inl small ↦ rw small (ground arith)
  | inr large ↦ rw large (ground (arith, uvarint_count-uvarint_bytes rounds (i + 1) (x / 128) rest))
]

drop-length-append : (front rest : Bytes) → drop (length front) (front ++ rest) ≡ rest
drop-length-append [] rest = refl
drop-length-append (b ∷ front) rest = drop-length-append front rest

some_bytes : (rounds x : ℕ) → 0 < length (uvarint_bytes rounds x)
unfolding uvarint_bytes
some_bytes zero x = omega arith
some_bytes (suc rounds) x = ground (arith, some_bytes rounds (x / 128))

drop_counted : (front rest : Bytes) → drop (0 + length front) (front ++ rest) ≡ rest
drop_counted front rest =
    ap (λ k. drop k (front ++ rest)) {y = length front} (omega arith)
    ∙ drop-length-append front rest

one_index :
    (n : ℕ) (index : ℤ) (rest : Bytes)
    → strip_rounds (suc n) (uvarint_bytes 9 (word64 index) ++ rest) ≡ strip_rounds n rest
unfolding strip_rounds
one_index n index rest =
    let counted =
      uvarint_count-uvarint_bytes 9 0 (word64 index) rest (omega arith)
        (word-lt (2 ^ 64) index (omega arith)) in
    let positive : is_positive (uvarint_count 0 (uvarint_bytes 9 (word64 index) ++ rest)) ≡ true =
      rw counted (ground (arith, some_bytes 9 (word64 index))) in
    rw positive (
      ap (λ k. strip_rounds n (drop (pos_part k) (uvarint_bytes 9 (word64 index) ++ rest))) counted
      ∙ ap (strip_rounds n) (drop_counted (uvarint_bytes 9 (word64 index)) rest))

append_indexes-append :
    (out : Bytes) (indexes : List ℤ) → append_indexes out indexes ≡ out ++ append_indexes [] indexes
unfolding append_indexes append_uvarint
append_indexes-append out [] = sym (append-nil out)
append_indexes-append out (x ∷ xs) =
    append_indexes-append (out ++ uvarint_bytes 9 (word64 x)) xs
    ∙ append_assoc out (uvarint_bytes 9 (word64 x)) (append_indexes [] xs)
    ∙ ap (λ t. out ++ t) (sym (append_indexes-append (uvarint_bytes 9 (word64 x)) xs))

-- The indexes alone, with the bytes that follow.
stripped :
    (indexes : List ℤ) (payload : Bytes)
    → strip_rounds (length indexes) (append_indexes [] indexes ++ payload) ≡ some payload
unfolding strip_rounds append_indexes append_uvarint
stripped [] payload = refl
stripped (x ∷ xs) payload =
    ap (λ t. strip_rounds (suc (length xs)) (t ++ payload))
      (append_indexes-append (uvarint_bytes 9 (word64 x)) xs)
    ∙ ap (strip_rounds (suc (length xs)))
        (append_assoc (uvarint_bytes 9 (word64 x)) (append_indexes [] xs) payload)
    ∙ one_index (length xs) x (append_indexes [] xs ++ payload)
    ∙ stripped xs payload

pub strip-encode_protobuf_message_indexes :
    (indexes : List ℤ) (payload : Bytes)
    → strip_protobuf_message_indexes
        (encode_protobuf_message_indexes indexes ++ payload)
        (pos (length indexes))
      ≡ some payload
unfolding strip_protobuf_message_indexes encode_protobuf_message_indexes
strip-encode_protobuf_message_indexes indexes payload = stripped indexes payload
