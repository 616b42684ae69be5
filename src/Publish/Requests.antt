-- ===== src/Publish/Requests.antt =====
-- The requests of a subscriber in src/publish.rs for packets and streams: `request_stream`,
-- `process_pcap_extract` and `process_stream`. An event of any type is a value of
-- one type, whose bytes are decoded by the store; the network, `bincode` and the parser of kinds are parameters.
pub mod Pcap
use giganto.Prelude.{
  if◌then◌else◌, ℕ, Bool, true, false, Option, none, some, List, [], ◌∷◌, ◌++◌, String,
}
use giganto.Bytes.{Bytes}
use giganto.Int64.{ℤ}
use giganto.Outcome.{Outcome, ok, err, ◌>>=◌, ◌>>◌}
use giganto.Chrono.{Chrono}
use giganto.Dispatch.{
  RawEventKind, RequestStreamRecord, range_handler, raw_data_handler, stream_handler,
}
use giganto.Families.{Accessor}
use giganto.Filter.{IpAddr}
use giganto.Sources.{Map}
use giganto.Sources.Connection.{ConnectionError, application_closed, other_error}
use giganto.Store.{RawEventStore, equals}
use giganto.Publish.{RequestRange, Sent, process_range_data, process_raw_events}
use giganto.Publish.Channel.{RequestHogStream, RequestCrusherStream}
use giganto.Publish.Streams.{Request, hog, crusher, Stream, send_stream}

-- `PcapFilter` of the client library: its source and the rest of it.
pub record PcapFilter : Type 0 where
  pub source : Bytes
  pub content : Bytes

-- What `send_ok` and `send_err` send.
pub data Reply : Type 0 where
  accepted refused : Reply

-- What `process_pcap_extract` leaves: what it returned, its reply, if that was sent, and the
-- requests that are passed on, each with the connection of its source.
pub record Extract : Type 0 where
  pub result : Outcome (Unit {0})
  pub reply : Option Reply
  pub passed_on : List (ℕ × PcapFilter)

abbrev pub get : Bytes → Map ℕ → Option ℕ
get name [] = none
get name (e ∷ m) = if equals e.0 name then some e.1 else get name m

-- The loop of the task. The connections are those at the time when such filters are left; what
-- comes of a request that was passed on is only logged.
unfoldable pub pass_on : (List PcapFilter → Map ℕ) → List PcapFilter → List (ℕ × PcapFilter)
pass_on packet_sources [] = []
pass_on packet_sources (filter ∷ filters) =
    let rest = pass_on packet_sources filters in
    elim (get filter.source (packet_sources (filter ∷ filters))) [
      | none ↦ rest
      | some source_conn ↦ (source_conn, filter) ∷ rest
    ]

module _ (decode_filters : Bytes → Outcome (List PcapFilter)) (sends : Reply → Outcome (Unit {0}))
    (packet_sources : List PcapFilter → Map ℕ) where
  unfoldable pub process_pcap_extract : Bytes → Extract
  unfolding pass_on
  process_pcap_extract filter_data = elim (decode_filters filter_data) [
    | ok filters ↦ elim (sends accepted) [
      | ok _ ↦ record {
        result = ok tt;
        reply = some accepted;
        passed_on = pass_on packet_sources filters;
      }
      | err e ↦ record { result = err "Failed to send ok"; reply = none; passed_on = [] }
    ]
    | err e ↦ elim (sends refused) [
      | ok _ ↦ record {
        result = err "Failed to deserialize Pcapfilters";
        reply = some refused;
        passed_on = [];
      }
      | err e' ↦ record { result = err "Failed to send err"; reply = none; passed_on = [] }
    ]
  ]

pub data NodeType : Type 0 where
  hog_node crusher_node : NodeType

-- What `request_stream` does for a request: packets are asked for, a stream is started, with the
-- source of the connection for a hog, or the message cannot be decoded, which is logged.
pub data Action : Type 0 where
  extracted : Extract → Action
  started : Option Bytes → RequestStreamRecord → Request → Action
  undecodable : Action

abbrev pub is_pcap : RequestStreamRecord → Bool
is_pcap RequestStreamRecord.pcap = true
is_pcap _ = false

module _ (extract : Bytes → Extract) (decode_hog : Bytes → Outcome RequestHogStream)
    (decode_crusher : Bytes → Outcome RequestCrusherStream) where
  abbrev pub start_stream : Bytes → NodeType → RequestStreamRecord → Bytes → Action
  start_stream conn_source hog_node record_type raw_data = elim (decode_hog raw_data) [
    | ok msg ↦ started (some conn_source) record_type (hog msg)
    | err e ↦ undecodable
  ]
  start_stream conn_source crusher_node record_type raw_data = elim (decode_crusher raw_data) [
    | ok msg ↦ started none record_type (crusher msg)
    | err e ↦ undecodable
  ]

  -- What the task returned, if it has ended, and what it has done. The inputs are what
  -- `receive_stream_request` gives.
  unfoldable pub request_stream :
      Bytes
      → List (Outcome (NodeType × RequestStreamRecord × Bytes))
      → List Action
      → Option (Outcome (Unit {0})) × List Action
  request_stream conn_source [] done = (none, done)
  request_stream conn_source (err e ∷ requests) done = (some (ok tt), done)
  request_stream conn_source (ok (node_type, record_type, raw_data) ∷ requests) done =
      let x = extract raw_data in
      let after_extract = request_stream conn_source requests (done ++ extracted x ∷ []) in
      let after_start =
        request_stream conn_source requests
          (done ++ start_stream conn_source node_type record_type raw_data ∷ []) in
      elim (is_pcap record_type) [
        | true ↦ elim x.result [
          | ok _ ↦ after_extract
          | err e ↦ (some (err e), done ++ extracted x ∷ [])
        ]
        | false ↦ after_start
      ]

-- A request for a stream: what `process_stream` leaves, which always returns `Ok`. It does nothing
-- if the store cannot be opened. The texts of record types are `convert_to_str`.
module _ (hog_name crusher_name : Bytes) (text_of : RequestStreamRecord → Bytes) {T : Type 0}
    (io : List (Sent T) → Sent T → Outcome (Unit {0})) (c : Chrono)
    (deserialize : Accessor → Bytes → Outcome T) (addrs : T → Option IpAddr × Option IpAddr)
    (open_store : Accessor → Outcome RawEventStore) where
  unfoldable pub process_stream :
      Outcome (Unit {0})
      → Outcome (Unit {0})
      → Option Bytes
      → Option Bytes
      → RequestStreamRecord
      → Request
      → ℕ
      → Map ℕ
      → Option (Stream T)
  unfolding send_stream
  process_stream opens starts source kind record_type request_msg sender channels =
      elim (stream_handler record_type) [
        | none ↦ none
        | some a ↦ elim (open_store a) [
          | err e ↦ none
          | ok store ↦ some (
              send_stream hog_name crusher_name io c (deserialize a) addrs store opens starts
                request_msg source kind (text_of record_type) sender channels)
        ]
      ]
