-- ===== src/Tests/Requests.antt =====
-- Requests of a subscriber (src/publish.rs).
use giganto.Prelude.{◌≡◌, refl, none, some, List, [], ◌∷◌}
use giganto.Bytes.{Bytes, cmp, to_be, of_be}
use giganto.Chrono.{nanos}
use giganto.Dispatch.{RawEventKind, RequestStreamRecord, ingest_handler}
use giganto.Families.{Accessor}
use giganto.Int64.{pos, to_be_bytes, from_be_bytes}
use giganto.Iter.{decode}
use giganto.Key.{start_key, mid_key, end_key, lower_closed_bound_end_key, upper_open_bound_end_key}
use giganto.Outcome.{Outcome, ok, err}
use giganto.Publish.{RequestRange, record_data, none_left, finish}
use giganto.Publish.Range.{sends}
use giganto.Publish.Channel.{RequestHogStream, RequestCrusherStream}
use giganto.Publish.Requests.{
  PcapFilter, Extract, hog_node, crusher_node, undecodable, request_stream,
}
use giganto.Publish.Answers.{
  MessageCode, req_range, raw_data, RequestRawData, Answer, handle_request,
}
use giganto.Publish.Answers.Stores.{handle_request-range, handle_request-raw}
use giganto.Publish.Requests.Pcap.{run, refusal, request_stream_refused}
use giganto.Store.{RawEventStore}
use giganto.Tests.{table, three_entries, three_entries-Scans, source, key_at, deserialize}

-- Every store has the three events.
abbrev opens : Accessor → Outcome RawEventStore
opens a = ok (table three_entries)

abbrev kinds : Bytes → Outcome RawEventKind
kinds text = err "unknown kind"

abbrev first_two : RequestRange
first_two = record { source = source; kind = 99 ∷ []; start = pos 10; end = pos 400; count = 2 }

abbrev two_times : RequestRawData
two_times = record { kind = 99 ∷ []; input = (source, pos 300 ∷ pos 15 ∷ pos 10 ∷ []) ∷ [] }

abbrev no_packets : Bytes → Extract
no_packets b = record { result = ok tt; reply = none; passed_on = [] }

abbrev answer : MessageCode → Answer Bytes
answer code =
    handle_request sends nanos (λ a. deserialize) opens kinds RawEventKind.conn (λ b. ok first_two)
      (λ b. ok two_times) no_packets (ok (code, 1 ∷ []))

-- The kind of the request is unknown, and answered as `Conn`.
handle_request-range_example : answer req_range ≡ record {
  result = ok tt;
  records =
      record_data (1 ∷ []) (pos 10) source
      ∷ record_data (2 ∷ []) (pos 20) source
      ∷ none_left
      ∷ finish
      ∷ [];
  extract = none;
}
unfolding cmp end_key start_key mid_key lower_closed_bound_end_key upper_open_bound_end_key
    to_be_bytes to_be decode from_be_bytes of_be ingest_handler
handle_request-range_example =
    handle_request-range nanos (λ a. deserialize) opens kinds RawEventKind.conn (λ b. ok first_two)
      (λ b. ok two_times) no_packets RawEventKind.conn Accessor.conn (some "conn")
      (table three_entries) three_entries refl refl refl three_entries-Scans (1 ∷ []) first_two
      ((key_at 10, 1 ∷ []) ∷ (key_at 20, 2 ∷ []) ∷ []) refl refl refl refl (refl, (refl, tt))

handle_request-raw_example : answer raw_data ≡ record {
  result = ok tt;
  records =
      record_data (3 ∷ []) (pos 300) source
      ∷ record_data (1 ∷ []) (pos 10) source
      ∷ none_left
      ∷ finish
      ∷ [];
  extract = none;
}
unfolding cmp end_key start_key to_be_bytes to_be ingest_handler
handle_request-raw_example =
    handle_request-raw nanos (λ a. deserialize) opens kinds RawEventKind.conn (λ b. ok first_two)
      (λ b. ok two_times) no_packets RawEventKind.conn Accessor.conn (some "conn")
      (table three_entries) three_entries refl refl refl three_entries-Scans (1 ∷ []) two_times
      (((pos 300, source, 3 ∷ []), 3 ∷ []) ∷ ((pos 10, source, 1 ∷ []), 1 ∷ []) ∷ []) refl refl refl
      (refl, (refl, tt))

abbrev one_filter : PcapFilter
one_filter = record { source = source; content = 5 ∷ [] }

-- One text decodes.
abbrev filters_of : Bytes → Outcome (List PcapFilter)
filters_of b = elim b [
  | [] ↦ err "no filters"
  | x ∷ xs ↦ ok (one_filter ∷ record { source = 9 ∷ []; content = [] } ∷ [])
]

abbrev no_hog : Bytes → Outcome RequestHogStream
no_hog b = err "invalid message"

abbrev no_crusher : Bytes → Outcome RequestCrusherStream
no_crusher b = err "invalid message"

-- Behind a request whose message cannot be decoded, which is passed over.
request_stream_refused_example :
    run filters_of
      (λ r. ok tt)
      (λ left. [])
      no_hog
      no_crusher
      source
      (ok (hog_node, RequestStreamRecord.conn, [])
        ∷ ok (crusher_node, RequestStreamRecord.pcap, [])
        ∷ ok (hog_node, RequestStreamRecord.dns, [])
        ∷ [])
      []
    ≡ (some (err "Failed to deserialize Pcapfilters"), undecodable ∷ refusal ∷ [])
unfolding request_stream
request_stream_refused_example =
    request_stream_refused filters_of (λ r. ok tt) (λ left. []) no_hog no_crusher source
      (ok (hog_node, RequestStreamRecord.conn, []) ∷ [])
      (ok (hog_node, RequestStreamRecord.dns, []) ∷ []) crusher_node [] "no filters" [] refl refl
      refl
