-- ===== src/Consume/Decode.antt =====
-- backend/internal/kafkaconn/messages.go: how the value of a record is decoded (`decodeConsumeValue` with
-- `decompressPayload` and `decompressSnappy`) and how it is shown as base64 (`encodeBase64WithLimit`). The codecs
-- of Go's library and of the packages for lz4, zstd and snappy are parameters. Each gives bytes or the text of an
-- error.
use Prim.Native.String.{◌++◌ as cat}
use dbx_plugin_kafka.Base.{
  ℕ, ◌≡◌, refl, String, Bool, true, false, ◌||◌, List, length, take, if◌then◌else◌, ltb, string_eq,
}
use dbx_plugin_kafka.Base.Result.{Result, ok, err}
use dbx_plugin_kafka.Base.Strings.{trim_space, is_word}

abbrev Bytes : Type 0
Bytes = List ℕ

abbrev Codec : Type 0
Codec = Bytes → Result String Bytes

pub record Codecs : Type 0 where
  pub decode_base64 : Codec
  pub gzip_reader : Codec
  pub lz4_reader : Codec
  pub zstd_decoder : Codec
  pub snappy_block : Codec
  pub snappy_framed : Codec
  pub encode_base64 : Bytes → String

pub data DecodeMethod : Type 0 where
  as_it_is from_base64 : DecodeMethod

pub data DecompressMethod : Type 0 where
  uncompressed gzip lz4 zstd snappy : DecompressMethod

-- Both words for no decoding are one method.
unfoldable pub normalize_decode_method : String → Result String DecodeMethod
normalize_decode_method decode =
    let name = trim_space decode in
    if is_word name "" || is_word name "none"
    then ok as_it_is
    else if is_word name "base64"
    then ok from_base64
    else err "decode must be none or base64"

unfoldable pub normalize_decompress_method : String → Result String DecompressMethod
normalize_decompress_method decompression =
    let name = trim_space decompression in
    if is_word name "" || is_word name "none"
    then ok uncompressed
    else if is_word name "gzip"
    then ok gzip
    else if is_word name "lz4"
    then ok lz4
    else if is_word name "zstd"
    then ok zstd
    else if is_word name "snappy"
    then ok snappy
    else err "decompression must be none, gzip, lz4, zstd, or snappy"

-- The bytes, whether they were decoded, and the text of an error.
pub record Decoded : Type 0 where
  pub bytes : Bytes
  pub decoded : Bool
  pub error : String

module _ (codecs : Codecs) where
  unfoldable pub decompress_snappy : Bytes → Result String Bytes
  decompress_snappy value = elim (codecs.snappy_block value) [
    | ok bytes ↦ ok bytes
    | err block ↦ elim (codecs.snappy_framed value) [
      | ok bytes ↦ ok bytes
      | err framed ↦
          err (cat "snappy decompression failed: block: " (cat block (cat "; framed: " framed)))
    ]
  ]

  unfoldable pub decompress_payload : Bytes → DecompressMethod → Result String Bytes
  unfolding decompress_snappy
  decompress_payload value gzip = codecs.gzip_reader value
  decompress_payload value lz4 = codecs.lz4_reader value
  decompress_payload value zstd = codecs.zstd_decoder value
  decompress_payload value snappy = decompress_snappy value
  decompress_payload value uncompressed =
      err "decompression must be none, gzip, lz4, zstd, or snappy"

  -- The second half, behind the decoding of base64.
  unfoldable pub decompressed : Bytes → Bool → DecompressMethod → Decoded
  decompressed value was uncompressed = record { bytes = value; decoded = was; error = "" }
  decompressed value was method = elim (decompress_payload value method) [
    | ok bytes ↦ record { bytes = bytes; decoded = true; error = "" }
    | err e ↦ record { bytes = value; decoded = was; error = e }
  ]

  unfoldable pub decode_consume_value : Bytes → DecodeMethod → DecompressMethod → Decoded
  unfolding decompressed
  decode_consume_value value as_it_is method = decompressed value false method
  decode_consume_value value from_base64 method = elim (codecs.decode_base64 value) [
    | err e ↦ record { bytes = value; decoded = false; error = e }
    | ok bytes ↦ decompressed bytes true method
  ]

  -- A text that is longer than the limit is cut, and the second part of the result says so.
  unfoldable pub encode_base64_with_limit : Bytes → ℕ → String × Bool
  encode_base64_with_limit payload limit =
      if ltb limit (length payload)
      then (codecs.encode_base64 (take limit payload), true)
      else (codecs.encode_base64 payload, false)

  -- What remains of a value whose compression is not read.
  decompressed-failed :
      (value : Bytes) (was : Bool) (method : DecompressMethod) {e : String}
      → ¬ method ≡ uncompressed
      → decompress_payload value method ≡ err e
      → decompressed value was method ≡ record { bytes = value; decoded = was; error = e }
  unfolding decompressed
  decompressed-failed value was uncompressed known failed = absurd (known refl)
  decompressed-failed value was gzip known failed = rw (failed, decompressed) refl
  decompressed-failed value was lz4 known failed = rw (failed, decompressed) refl
  decompressed-failed value was zstd known failed = rw (failed, decompressed) refl
  decompressed-failed value was snappy known failed = rw (failed, decompressed) refl

  -- Of a value whose base64 is read, but whose compression is not, the bytes behind the base64 remain.
  decode_consume_value-half :
      (value inner : Bytes) (method : DecompressMethod) {e : String}
      → codecs.decode_base64 value ≡ ok inner
      → ¬ method ≡ uncompressed
      → decompress_payload inner method ≡ err e
      → decode_consume_value value from_base64 method
        ≡ record { bytes = inner; decoded = true; error = e }
  unfolding decode_consume_value
  decode_consume_value-half value inner method read known failed =
      rw (read, decode_consume_value) (decompressed-failed inner true method known failed)
