-- ===== src/Stream/Ring/Tests.antt =====
-- Runs of the buffer of backend/internal/kafkaconn/stream.go on small inputs; a message is a number.
use dbx_plugin_kafka.Base.{ℕ, ◌-◌, ◌^◌, ◌≡◌, refl, [], ◌∷◌, none, some, take, drop, arith}
use dbx_plugin_kafka.Base.Int.{pos, negsuc}
use dbx_plugin_kafka.Stream.Ring.{
  RingBuffer, new_ring_buffer, append, append_batch, collect, collect_to, page, stream_messages,
}
use dbx_plugin_kafka.Stream.Ring.Contents.{contents}
use dbx_plugin_kafka.Stream.Ring.Append.{contents-append_batch-new}
use dbx_plugin_kafka.Stream.Ring.Page.{stream_messages_lem, stream_messages_panics}

abbrev five : RingBuffer ℕ
five = append_batch (1 ∷ 2 ∷ 3 ∷ 4 ∷ 5 ∷ []) (new_ring_buffer 0 (pos 3))

second_page : stream_messages 0 (pos 1) (pos 1) five ≡ some (3, 4 ∷ [])
unfolding stream_messages page collect_to collect append_batch append new_ring_buffer
second_page = refl

contents-append_batch-new_example : contents 0 five ≡ 3 ∷ 4 ∷ 5 ∷ []
contents-append_batch-new_example = contents-append_batch-new 0 (pos 3) (1 ∷ 2 ∷ 3 ∷ 4 ∷ 5 ∷ [])

stream_messages_lem_example :
    stream_messages 0 (negsuc 4) (pos 0) five
    ≡ some (five.size, take 100 (drop 0 (contents 0 five)))
stream_messages_lem_example = stream_messages_lem 0 (negsuc 4) (pos 0) five (omega arith)

stream_messages_panics_example : stream_messages 0 (pos 1) (pos (2 ^ 63 - 1)) five ≡ none
unfolding append_batch append new_ring_buffer
stream_messages_panics_example =
    stream_messages_panics 0 (pos 1) (2 ^ 63 - 1) five (omega arith) (omega arith) (omega arith)
      (omega arith)
