-- ===== src/Base/Alloc.antt =====
-- The slices of messages for which Go's `make` panics, on amd64: those of more than 2^48 bytes. A `ConsumedMessage`
-- of backend/internal/kafkaconn/messages.go takes 176 bytes there. That the memory may be full before is left out.
use Prim.Native.Nat.{ℕ, ◌*◌, ◌^◌}
use mathlib.Core.Bool.{Bool}
use dbx_plugin_kafka.Base.Tests.{ltb}

abbrev pub make_panics : ℕ → Bool
make_panics length = ltb (2 ^ 48) (length * 176)
