-- ===== src/Schema/Frame.antt =====
-- backend/internal/kafkaconn/schema.go: what stands around the bytes of a message, `encodeWireFrame`,
-- `decodeWireFrame`, `encodeProtobufMessageIndexes` and `stripProtobufMessageIndexes`. Bytes are numbers below
-- 256. Go's `binary.BigEndian`, `AppendUvarint` and `Uvarint` are written out; of `Uvarint` the program reads
-- the count of bytes only.
pub mod Laws
use dbx_plugin_kafka.Base.{
  ℕ, zero, suc, ◌+◌, ◌-◌, ◌*◌, ◌/◌, ◌%◌, ◌^◌, Bool, true, false, ◌&&◌, not, Option, none, some,
  List, [], ◌∷◌, ◌++◌, length, drop, if◌then◌else◌, ltb, ◌==◌, nat_eq,
}
use dbx_plugin_kafka.Base.Int.{ℤ, pos, negsuc, is_positive, pos_part}
use dbx_plugin_kafka.Base.Result.{Result, ok, err}

abbrev pub Bytes : Type 0
Bytes = List ℕ

-- The bits of an `int` in the lowest places, as `uint32(x)` and `uint64(x)` take them.
abbrev pub word : ℕ → ℤ → ℕ
word size (pos n) = n % size
word size (negsuc n) = size - 1 - n % size

abbrev pub word32 : ℤ → ℕ
word32 = word (2 ^ 32)

abbrev pub word64 : ℤ → ℕ
word64 = word (2 ^ 64)

unfoldable pub put_uint32 : ℕ → Bytes
put_uint32 v = v / 2 ^ 24 % 256 ∷ v / 2 ^ 16 % 256 ∷ v / 2 ^ 8 % 256 ∷ v % 256 ∷ []

abbrev pub confluent_wire_magic_byte : ℕ
confluent_wire_magic_byte = 0

unfoldable pub encode_wire_frame : ℤ → Bytes → Bytes
unfolding put_uint32
encode_wire_frame schema_id payload =
    confluent_wire_magic_byte ∷ put_uint32 (word32 schema_id) ++ payload

pub data FrameError : Type 0 where
  too_short : FrameError
  wrong_magic : ℕ → FrameError

unfoldable pub decode_wire_frame : Bytes → Result FrameError (ℕ × Bytes)
decode_wire_frame (magic ∷ a ∷ b ∷ c ∷ d ∷ payload) =
    if magic == confluent_wire_magic_byte
    then ok (a * 2 ^ 24 + b * 2 ^ 16 + c * 2 ^ 8 + d, payload)
    else err (wrong_magic magic)
decode_wire_frame _ = err too_short

-- `for x >= 0x80 { buf = append(buf, byte(x)|0x80); x >>= 7 }` and the last byte. A number of 64 bits
-- takes nine rounds at most.
unfoldable pub uvarint_bytes : ℕ → ℕ → Bytes
uvarint_bytes zero x = x % 256 ∷ []
uvarint_bytes (suc rounds) x =
    let rest = uvarint_bytes rounds (x / 128) in
    if ltb x 128 then x % 256 ∷ [] else (x % 128 + 128) ∷ rest

unfoldable pub append_uvarint : Bytes → ℕ → Bytes
unfolding uvarint_bytes
append_uvarint buf x = buf ++ uvarint_bytes 9 x

unfoldable pub append_indexes : Bytes → List ℤ → Bytes
unfolding append_uvarint
append_indexes out [] = out
append_indexes out (index ∷ indexes) = append_indexes (append_uvarint out (word64 index)) indexes

unfoldable pub encode_protobuf_message_indexes : List ℤ → Bytes
unfolding append_indexes
encode_protobuf_message_indexes indexes = append_indexes [] indexes

-- The second result of `binary.Uvarint`, with `i` bytes behind: 0 for bytes that end too early, and a number
-- below it for a value of more than 64 bits.
unfoldable pub uvarint_count : ℕ → Bytes → ℤ
uvarint_count i [] = pos 0
uvarint_count i (b ∷ bytes) =
    let rest = uvarint_count (i + 1) bytes in
    if i == 10
    then negsuc i
    else if ltb b 128
    then if i == 9 && ltb 1 b then negsuc i else pos (i + 1)
    else rest

unfoldable pub strip_rounds : ℕ → Bytes → Option Bytes
unfolding uvarint_count
strip_rounds zero rest = some rest
strip_rounds (suc n) rest =
    let next = strip_rounds n (drop (pos_part (uvarint_count 0 rest)) rest) in
    if is_positive (uvarint_count 0 rest) then next else none

-- `none` is the answer `nil, false`.
unfoldable pub strip_protobuf_message_indexes : Bytes → ℤ → Option Bytes
unfolding strip_rounds
strip_protobuf_message_indexes payload depth = strip_rounds (pos_part depth) payload
