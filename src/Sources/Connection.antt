-- ===== src/Sources/Connection.antt =====
-- `handle_connection` of src/ingest.rs: what a sensor's connection tells `check_sources_conn` from
-- its handshake to its end. The handshake, the certificate and the clock are inputs, as is whether
-- the channel takes a message.
mod Ended
pub mod Observed
use giganto.Prelude.{
  ℕ, ◌+◌, Bool, true, false, Option, none, some, List, [], ◌∷◌, ◌++◌, if◌then◌else◌, String,
}
use giganto.Bytes.{Bytes}
use giganto.Int64.{ℤ}
use giganto.Outcome.{Outcome, ok, err, ◌>>=◌, ◌>>◌}
use giganto.Filter.{contains}
use giganto.Sources.{Map, insert, ConnState, connected, disconnected, Event, source_info}

-- What `await`, `server_handshake`, `finish` and the certificate give; the last the agent and the
-- source.
pub record Incoming : Type 0 where
  pub connection : Outcome (Unit {0})
  pub handshake : Outcome (Unit {0})
  pub finish : Outcome (Unit {0})
  pub certificate : Outcome (Bytes × Bytes)
  pub packet_sender : ℕ

-- `quinn::ConnectionError`
pub data ConnectionError : Type 0 where
  application_closed : ConnectionError
  other_error : String → ConnectionError

-- What the `select!` of a connection wakes up for: a stream, the end of the connection, at the time
-- that `Utc::now` gives, or the shutdown.
pub data Wakeup : Type 0 where
  accepted : Wakeup
  connection_lost : ConnectionError → ℤ → Wakeup
  shutdown : Wakeup

-- The agent and the source, of a version that is compatible.
abbrev pub identified : Incoming → Outcome (Bytes × Bytes)
identified incoming = do
  incoming.connection
  incoming.handshake
  incoming.finish
  incoming.certificate

-- The messages that the channel took, the senders of packet captures, the streams that were given
-- to `handle_request`, and what was returned, if the connection has ended.
pub record Handled : Type 0 where
  pub sent : List Event
  pub packet_sources : Map ℕ
  pub streams : ℕ
  pub result : Option (Outcome (Unit {0}))

-- "reproduce"
abbrev pub reproduce : Bytes
reproduce = 114 ∷ 101 ∷ 112 ∷ 114 ∷ 111 ∷ 100 ∷ 117 ∷ 99 ∷ 101 ∷ []

module _ (sends : Event → Outcome (Unit {0})) where
  -- `sender.send`, whose failure is only logged.
  unfoldable pub send : Event → Handled → Handled
  send e h = elim (sends e) [ ok _ ↦ record h { sent = h.sent ++ e ∷ [] } | err _ ↦ h ]

  -- The loop.
  unfoldable pub serve : Bytes → Bool → List Wakeup → Handled → Handled
  unfolding send
  serve source rep [] h = h
  serve source rep (accepted ∷ wakeups) h =
      serve source rep wakeups (record h { streams = h.streams + 1 })
  serve source rep (connection_lost application_closed now ∷ wakeups) h =
      record (send (source_info source now disconnected rep) h) { result = some (ok tt) }
  serve source rep (connection_lost (other_error e) now ∷ wakeups) h =
      record (send (source_info source now disconnected rep) h) { result = some (err e) }
  serve source rep (shutdown ∷ wakeups) h = record h { result = some (ok tt) }

  unfoldable pub handle_connection : Incoming → ℤ → List Wakeup → Map ℕ → Handled
  unfolding serve send
  handle_connection incoming now wakeups packet_sources = elim (identified incoming) [
    | err e ↦ record {
      sent = [];
      packet_sources = packet_sources;
      streams = 0;
      result = some (err e);
    }
    | ok c ↦
        let rep = contains c.0 reproduce in
        let senders =
          if rep then packet_sources else insert c.1 incoming.packet_sender packet_sources in
        serve c.1 rep wakeups (
          send (source_info c.1 now connected rep)
            (record { sent = []; packet_sources = senders; streams = 0; result = none }))
  ]
