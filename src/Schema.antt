-- ===== src/Schema.antt =====
-- backend/internal/kafkaconn/schema.go: the client of the schema registry. The registry itself and the codecs
-- of the payloads are not here.
pub mod Lines
pub mod Diff
pub mod Frame
pub mod Decoder
mod Tests
