-- ===== src/Lib.antt =====
-- Kafka Studio: the backend of a Kafka plugin, with an interface for people and one for agents
-- (MCP).
--
-- An agent calls tools of the MCP server (backend/internal/mcp/server.go). Reading tools leave
-- their rows in cursor sessions, tools that act on the user interface go through intents, and the
-- tools that destroy data go in two phases: the first call previews the request and draws a one-time
-- token, the second shows the token and executes the request through the Kafka layer
-- (backend/internal/kafkaconn), which has guards of its own. The limits of all this are settings,
-- kept in a file.
--
-- Confirm     backend/internal/mcp/confirm.go: `ConfirmStore` with `SetTTL`, `Issue`, `Consume`.
-- Cursor      backend/internal/mcp/cursor.go: `CursorStore` with `Put`, `Next`, `SetTTL`, `SetCapacity`.
-- Intent      backend/internal/mcp/intent.go: `IntentStore` with `Register`, `Report`, `Get`, `SetSnapshot`.
-- Lru         the table with an eviction order that both of these keep.
-- Settings    backend/internal/mcp/settings.go: `Sanitized`, `LoadSettings`, `SaveSettings` and
--             `applySettingsUpdate`.
-- Server      backend/internal/mcp/server.go: `NewServer` and `SettingsSet`.
-- Gate        backend/internal/mcp/server.go: `topicsDelete`, `groupsOffsetsReset`, `topicsRecordsClear`
--             and `twoPhase`, with the checks before them.
-- Policy      backend/internal/kafkaconn/policy.go: the guards of the Kafka layer.
-- Offsets     backend/internal/kafkaconn/messages.go: `normalizeConsumePartitions`, `consumeOffset` and
--             `buildConsumeOpts`, with the limit of a scan.
-- Consume     backend/internal/kafkaconn/messages.go: `consumeMessages` from its loop on, with the checks of
--             the request (`validateConsumeParams`) and the tests on a record (`recordMatches`,
--             `fieldFiltersMatch`, with the paths into JSON values, `parseJSONPath`), and the decoding of
--             a value (`decodeConsumeValue`).
-- Groups      backend/internal/kafkaconn/groups.go: `ResetGroupOffsets` with `offsetResetRows`,
--             and `groupOffsetRows` with the lag.
-- Schema      backend/internal/kafkaconn/schema.go: the difference of two schema texts (`schemaTextDiff`), the
--             frame around an encoded value, and the way of a value from `encodeForProduce` to the
--             `schemaDecoder` with its cache.
-- Pool        backend/internal/kafkaconn/consume_pool.go: the pool of consumer clients, with the entries
--             that requests hold beside the table.
-- Topics      backend/internal/kafkaconn/topics.go: `CreateTopics`, `DeleteTopics` and `ClearTopicRecords` behind these
--             guards.
-- Stream      backend/internal/kafkaconn/stream.go: the ring buffer of a session with its paging, and the
--             registry of the sessions.
-- Histogram   backend/internal/mcp/digest.go: `buildTimeHistogram`.
-- TopGroups   backend/internal/mcp/digest.go: `topGroups`.
-- Base        numbers, lists, texts, maps and results that the others share.
--
-- A method is a function from the old state to the new state and the result; its name is the
-- method's in small letters. Each method of a store runs under the store's mutex from start to
-- end, so that a history of a store is a list of its calls; where the program lets the mutex go
-- between two parts of an operation, in the start and the shutdown of a stream and in
-- `SettingsSet`, the parts are steps of their own; `settings_set` is all of them in a row, for a
-- call that runs alone. The release of a client to the pool is one step, as its file says. Times
-- are nanoseconds (in streams and histograms milliseconds) as plain numbers; the clock and the
-- random source are inputs. An `int` that is only compared and copied is an integer; where the
-- program adds two of them without a bound, in the paging of a stream, the sum wraps around at
-- 64 bits, and so does the tenfold of the limit of a scan. A number of a JSON request is a
-- `float64`, which is cut to an `int` as on amd64. `make` panics at a slice of messages of more
-- than 2^48 bytes; that the memory may be full before is left out. A map is an association list.
-- Loops are structural recursion; the eviction of the pool takes the size of the table as the
-- bound on its turns, and each turn makes the table smaller. The loop of a scan takes the limit
-- of scanned records as the bound on its polls, each of which reads one record at least; the
-- loop that merges the operations of a difference takes their number.
--
-- Not modelled: the network, the Kafka client and its protocol, TLS, Kerberos and OAuth, the
-- registry of schemas and its codecs, the reading and writing of JSON, the codecs of values, the
-- file system, and the dispatch of requests. The hash of a request is a parameter of Gate; the
-- polls of the client are one of Consume, with the library's lower case, regular expressions,
-- numbers and JSON; the answers of the broker are one of Topics and Groups; the answers of the
-- registry and the codecs are parameters of Schema.
pub mod Base
pub mod Confirm
pub mod Consume
pub mod Cursor
pub mod Gate
pub mod Groups
pub mod Histogram
pub mod Intent
pub mod Lru
pub mod Offsets
pub mod Policy
pub mod Pool
pub mod Schema
pub mod Server
pub mod Settings
pub mod Stream
pub mod TopGroups
pub mod Topics
