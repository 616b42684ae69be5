-- ===== src/Publish/Answers.antt =====
-- The connection of a subscriber and its requests for ranges and raw events in src/publish.rs:
-- `handle_connection` and `handle_request`. An event of any type is a value of one type, whose bytes
-- are decoded by the store; the network, `bincode` and the parser of kinds are parameters.
pub mod Stores
use giganto.Prelude.{ℕ, Bool, true, false, Option, none, some, List, [], ◌∷◌, ◌++◌, String}
use giganto.Bytes.{Bytes}
use giganto.Int64.{ℤ}
use giganto.Outcome.{Outcome, ok, err, ◌>>=◌, ◌>>◌}
use giganto.Chrono.{Chrono}
use giganto.Dispatch.{RawEventKind, range_handler, raw_data_handler}
use giganto.Families.{Accessor}
use giganto.Sources.Connection.{ConnectionError, application_closed, other_error}
use giganto.Store.{RawEventStore}
use giganto.Publish.{RequestRange, Sent, process_range_data, process_raw_events}
use giganto.Publish.Requests.{Extract}

pub data MessageCode : Type 0 where
  req_range pcap raw_data : MessageCode

-- `RequestRawData`: the text of the kind, and the timestamps for each source.
pub record RequestRawData : Type 0 where
  pub kind : Bytes
  pub input : List (Bytes × List ℤ)

-- What `handle_request` leaves: what it returned, the records that it sent, and what was done for
-- packets.
pub record Answer (T : Type 0) : Type 0 where
  pub result : Outcome (Unit {0})
  pub records : List (Sent T)
  pub extract : Option Extract

-- What the `select!` of a connection wakes up for: a stream, with its request, the end of the
-- connection or the shutdown.
pub data Wakeup : Type 0 where
  stream_accepted : Outcome (MessageCode × Bytes) → Wakeup
  connection_lost : ConnectionError → Wakeup
  shutdown : Wakeup

module _ {T : Type 0} where
  abbrev pub failed : String → Answer T
  failed e = record { result = err e; records = []; extract = none }

  abbrev pub sent_records : Outcome (Unit {0}) × List (Sent T) → Answer T
  sent_records (r, sent) = record { result = r; records = sent; extract = none }

-- `RawEventKind::from_str(..).unwrap_or_default()`
abbrev pub kind_of : (Bytes → Outcome RawEventKind) → RawEventKind → Bytes → RawEventKind
kind_of from_str default_kind text = elim (from_str text) [ ok kind ↦ kind | err e ↦ default_kind ]

module _ {T : Type 0} (io : List (Sent T) → Sent T → Outcome (Unit {0})) (c : Chrono)
    (deserialize : Accessor → Bytes → Outcome T) (open_store : Accessor → Outcome RawEventStore)
    (from_str : Bytes → Outcome RawEventKind) (default_kind : RawEventKind)
    (decode_range : Bytes → Outcome RequestRange) (decode_raw : Bytes → Outcome RequestRawData)
    (process_pcap : Bytes → Extract) where
  unfoldable pub answer_range : RequestRange → Answer T
  unfolding process_range_data
  answer_range msg = elim (range_handler (kind_of from_str default_kind msg.kind)) [
    | none ↦ record { result = ok tt; records = []; extract = none }
    | some h ↦ elim (open_store h.0) [
      | err e ↦ failed e
      | ok store ↦ sent_records (process_range_data io c (deserialize h.0) store msg h.1)
    ]
  ]

  unfoldable pub answer_raw : RequestRawData → Answer T
  unfolding process_raw_events
  answer_raw msg = elim (raw_data_handler (kind_of from_str default_kind msg.kind)) [
    | none ↦ record { result = ok tt; records = []; extract = none }
    | some a ↦ elim (open_store a) [
      | err e ↦ failed e
      | ok store ↦ sent_records (process_raw_events io (deserialize a) store msg.input)
    ]
  ]

  unfoldable pub handle_request : Outcome (MessageCode × Bytes) → Answer T
  unfolding answer_range answer_raw
  handle_request (err e) = failed e
  handle_request (ok (req_range, msg_buf)) = elim (decode_range msg_buf) [
    | err e ↦ failed "Failed to deserialize message"
    | ok msg ↦ answer_range msg
  ]
  handle_request (ok (pcap, msg_buf)) =
      let x = process_pcap msg_buf in record { result = x.result; records = []; extract = some x }
  handle_request (ok (raw_data, msg_buf)) = elim (decode_raw msg_buf) [
    | err e ↦ failed "Failed to deserialize message"
    | ok msg ↦ answer_raw msg
  ]

  -- What the loop returned, if it has ended, and the answers. That one fails is only logged.
  unfoldable pub serve :
      List Wakeup → List (Answer T) → Option (Outcome (Unit {0})) × List (Answer T)
  unfolding handle_request
  serve [] answers = (none, answers)
  serve (stream_accepted request ∷ wakeups) answers =
      serve wakeups (answers ++ handle_request request ∷ [])
  serve (connection_lost application_closed ∷ wakeups) answers = (some (ok tt), answers)
  serve (connection_lost (other_error e) ∷ wakeups) answers = (some (err e), answers)
  serve (shutdown ∷ wakeups) answers = (some (ok tt), answers)

  -- With what the task of `request_stream` is started: the source. The inputs are what `await`, the
  -- handshake and the certificate give.
  unfoldable pub handle_connection :
      Outcome (Unit {0})
      → Outcome (Unit {0})
      → Outcome Bytes
      → List Wakeup
      → Option Bytes × Option (Outcome (Unit {0})) × List (Answer T)
  unfolding serve
  handle_connection connection handshake certificate wakeups =
      elim (connection >> (handshake >> certificate)) [
        | err e ↦ (none, some (err e), [])
        | ok source ↦ (let (r, answers) = serve wakeups [] in (some source, r, answers))
      ]
