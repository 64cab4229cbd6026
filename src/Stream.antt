-- ===== src/Stream.antt =====
-- backend/internal/kafkaconn/stream.go: the buffer of a streaming session and the table of the sessions.
pub mod Ring
pub mod Registry
