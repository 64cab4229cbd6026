-- ===== src/Stream/Registry.antt =====
-- `StreamRegistry` of backend/internal/kafkaconn/stream.go: the table of the streaming sessions. A start
-- takes the registry's lock twice: it counts the sessions and draws a number, builds a client without
-- the lock, and then enters the session. Who takes sessions out of the table shuts them down after it has let
-- the lock go: `leaving` lists the clients of the sessions that are out of the table and not yet shut down,
-- and `closed` those that were closed. A session's `closeClient` is a number. Times are milliseconds; the clock and the text of an id are inputs. A message is
-- of any type `A`, and what the emitter is told is a value.
pub mod Closing
pub mod Limit
pub mod Accounts
pub mod Under
pub mod Numbers
mod Tests
use dbx_plugin_kafka.Base.{
  ℕ, suc, ◌+◌, ◌*◌, String, Bool, true, false, not, ◌||◌, Option, none, some, List, [], ◌∷◌, ◌++◌,
  map, if◌then◌else◌, ltb, leb, length, ◌==◌, contains, string_eq, nat_eq,
}
use dbx_plugin_kafka.Base.Dict.{Dict, lookup, insert, delete}
use dbx_plugin_kafka.Stream.Ring.{RingBuffer, append_batch}

-- `StreamMaxSessions`
abbrev pub max_sessions : ℕ
max_sessions = 20

-- `StreamIdleTimeout`
abbrev pub idle_timeout : ℕ
idle_timeout = 1800000

pub record StreamSession (A : Type 0) : Type 0 where
  pub connection_id : String
  pub client : ℕ
  pub ring : RingBuffer A
  pub total_scanned : ℕ
  pub total_matched : ℕ
  pub paused : Bool
  pub last_activity : ℕ

pub record StreamRegistry (A : Type 0) : Type 0 where
  pub next : ℕ
  pub sessions : Dict String (StreamSession A)
  pub leaving : List ℕ
  pub closed : List ℕ

-- `kafka/stream/messages`, as an event.
pub record StreamMessageBatch (A : Type 0) : Type 0 where
  pub session_id : String
  pub messages : List A
  pub scanned : ℕ
  pub matched : ℕ

-- The list without a number.
unfoldable pub without : ℕ → List ℕ → List ℕ
without n [] = []
without n (m ∷ ms) = let rest = without n ms in if m == n then rest else m ∷ rest

module _ {A : Type 0} where
  unfoldable pub new_stream_registry : StreamRegistry A
  new_stream_registry = record { next = 0; sessions = []; leaving = []; closed = [] }

  -- The first locked part of `StartStream`: the number of the new session, or the limit is reached.
  unfoldable pub reserve : StreamRegistry A → StreamRegistry A × Option ℕ
  reserve r =
      if leb max_sessions (length r.sessions)
      then (r, none)
      else (record r { next = suc r.next }, some (suc r.next))

  -- The second locked part.
  unfoldable pub enter : String → StreamSession A → StreamRegistry A → StreamRegistry A
  enter session_id session r = record r { sessions = insert session_id session r.sessions }

  -- The locked part of `Stop`.
  unfoldable pub stop : String → StreamRegistry A → StreamRegistry A
  stop session_id r = elim (lookup session_id r.sessions) [
    | none ↦ r
    | some session ↦ record r {
      sessions = delete session_id r.sessions;
      leaving = session.client ∷ r.leaving;
    }
  ]

  abbrev pub ids : StreamRegistry A → List String
  ids r = map (λ e. e.0) r.sessions

  unfoldable pub stop_all : StreamRegistry A → StreamRegistry A
  stop_all r = record r { sessions = []; leaving = map (λ e. e.1.client) r.sessions ++ r.leaving }

  -- `shutdownSession`, by the one who took the session out of the table.
  unfoldable pub shutdown_session : ℕ → StreamRegistry A → StreamRegistry A
  unfolding without
  shutdown_session client r =
      if contains client r.leaving
      then record r { leaving = without client r.leaving; closed = client ∷ r.closed }
      else r

  -- A loop over the table that takes out the sessions that pass a test.
  unfoldable pub stop_if :
      (StreamSession A → Bool) → List String → StreamRegistry A → StreamRegistry A
  unfolding stop
  stop_if test [] r = r
  stop_if test (id ∷ more) r = elim (lookup id r.sessions) [
    | none ↦ stop_if test more r
    | some session ↦ elim (test session) [
      | true ↦ stop_if test more (stop id r)
      | false ↦ stop_if test more r
    ]
  ]

  unfoldable pub stop_all_for_connection : String → StreamRegistry A → StreamRegistry A
  unfolding stop_if
  stop_all_for_connection connection_id r =
      stop_if (λ session. session.connection_id == connection_id) (ids r) r

  -- `nowMs-last > StreamIdleTimeout`
  abbrev pub is_idle : ℕ → StreamSession A → Bool
  is_idle now session = ltb (session.last_activity + idle_timeout) now

  unfoldable pub evict_idle : ℕ → StreamRegistry A → StreamRegistry A
  unfolding stop_if
  evict_idle now r = stop_if (is_idle now) (ids r) r

  unfoldable pub set_paused : String → Bool → StreamRegistry A → StreamRegistry A × Bool
  set_paused session_id paused r = elim (lookup session_id r.sessions) [
    | none ↦ (r, false)
    | some session ↦ (
      record r { sessions = insert session_id (record session { paused = paused }) r.sessions },
      true,
    )
  ]

  -- `flush`, on a session: what becomes of it and what is emitted. The emitter is there.
  unfoldable pub flush :
      String → List A → ℕ → StreamSession A → StreamSession A × Option (StreamMessageBatch A)
  flush session_id [] now session = (session, none)
  flush session_id (msg ∷ msgs) now session =
      let session' = record session {
        last_activity = now;
        ring = append_batch (msg ∷ msgs) session.ring;
      } in
      (
        session',
        (if session.paused
            then none
            else some (record {
              session_id = session_id;
              messages = msg ∷ msgs;
              scanned = session.total_scanned;
              matched = session.total_matched;
            })),
      )
