-- ===== src/Publish/Answers/Stores.antt =====
-- What a request for ranges or raw events is answered with, from the stores that the events are
-- ingested into (`handle_request` of src/publish.rs with that of src/ingest.rs).
use mathlib.Core.List.{append_assoc}
use giganto.Prelude.{
  ◌≡◌, refl, sym, ap, ◌∙◌, Bool, true, false, Option, none, some, List, [], ◌∷◌, ◌++◌, map, String,
  All, length, leb, Option-cases, inl, inr,
}
use giganto.Bytes.{Bytes}
use giganto.Int64.{ℤ}
use giganto.Outcome.{Outcome, ok}
use giganto.Chrono.{Chrono}
use giganto.Dispatch.{RawEventKind, conn, log, ingest_handler, range_handler, raw_data_handler}
use giganto.Dispatch.Agreement.{is_published, range_kind, raw_data_handler-ingest}
use giganto.Families.{Accessor}
use giganto.Iter.{decode}
use giganto.Key.{builder, start_key, end_key, build}
use giganto.Store.{Entry, RawEventStore, Scans, lookup}
use giganto.Publish.{
  RequestRange, Sent, record_data, none_left, finish, multi_get_with_source, send_raw, gather,
  process_raw_events,
}
use giganto.Publish.Range.{sends, message, requested, process_range_data-sends}
use giganto.Publish.Requests.{Extract}
use giganto.Publish.Answers.{
  MessageCode, req_range, raw_data, RequestRawData, Answer, kind_of, answer_range, answer_raw,
  handle_request,
}

-- The kind that is looked up by a middle part of the key.
abbrev pub is_log : RawEventKind → Bool
is_log log = true
is_log _ = false

abbrev with_middle : Bool → Option (Accessor × Option String) → Option (Accessor × Bool)
with_middle b none = none
with_middle b (some (a, p)) = some (a, b)

range_handler_lem :
    (kind : RawEventKind)
    → range_handler kind ≡ elim (is_published kind) [
      | true ↦ with_middle (is_log kind) (ingest_handler (range_kind kind))
      | false ↦ none
    ]
unfolding range_handler ingest_handler
range_handler_lem conn = refl
range_handler_lem _ = refl

-- The stored events of a source at such times, in their order; what is not there is passed over.
abbrev pub at_times : List Entry → Bytes → List ℤ → List (ℤ × Bytes × Bytes)
at_times entries source [] = []
at_times entries source (ts ∷ timestamps) =
    elim (lookup (build (end_key (start_key builder source) ts)) entries) [
      | none ↦ at_times entries source timestamps
      | some value ↦ (ts, source, value) ∷ at_times entries source timestamps
    ]

abbrev pub found : List Entry → List (Bytes × List ℤ) → List (ℤ × Bytes × Bytes)
found entries [] = []
found entries ((source, timestamps) ∷ input) =
    at_times entries source timestamps ++ found entries input

multi_get_with_source-lookup :
    (store : RawEventStore) (entries : List Entry) (source : Bytes) (timestamps : List ℤ)
    → Scans store entries
    → multi_get_with_source store source timestamps ≡ at_times entries source timestamps
unfolding multi_get_with_source
multi_get_with_source-lookup store entries source [] scans = refl
multi_get_with_source-lookup store entries source (ts ∷ timestamps) scans =
    let key = build (end_key (start_key builder source) ts) in
    let rest = multi_get_with_source-lookup store entries source timestamps scans in
    elim (Option-cases (lookup key entries)) [
      | inl e ↦ rw (multi_get_with_source, at_times, scans.get_lookup key, e) rest
      | inr (v, e) ↦
          rw (multi_get_with_source, at_times, scans.get_lookup key, e)
            (ap (λ l. (ts, source, v) ∷ l) rest)
    ]

gather-found :
    (T : Type 0) (store : RawEventStore) (entries : List Entry) (input : List (Bytes × List ℤ))
    → Scans store entries
    → gather (sends {T = T}) store input ≡ found entries input
unfolding gather
gather-found T store entries [] scans = refl
gather-found T store entries ((source, timestamps) ∷ input) scans =
    rw
      (
        multi_get_with_source-lookup store entries source timestamps scans,
        gather-found T store entries input scans,
      )
      refl

-- The found events with what they decode to.
abbrev pub AllDecoded : {T : Type 0} → (Bytes → Outcome T) → List ((ℤ × Bytes × Bytes) × T) → Type 0
AllDecoded deserialize items = All (λ i. deserialize i.0.2 ≡ ok i.1) items

abbrev pub raw_message : {T : Type 0} → (ℤ × Bytes × Bytes) × T → Sent T
raw_message i = record_data i.1 i.0.0 i.0.1

send_raw_lem :
    {T : Type 0} (deserialize : Bytes → Outcome T) (items : List ((ℤ × Bytes × Bytes) × T))
    (sent : List (Sent T))
    → AllDecoded deserialize items
    → send_raw sends deserialize (map (λ i. i.0) items) sent
      ≡ (ok tt, sent ++ (map raw_message items ++ none_left ∷ finish ∷ []))
unfolding send_raw
send_raw_lem deserialize [] sent h =
    ap (λ l. (ok tt, l)) (append_assoc sent (none_left ∷ []) (finish ∷ []))
send_raw_lem deserialize (((ts, source, value), v) ∷ items) sent h =
    let m = record_data v ts source in
    rw (send_raw, h.0)
      (send_raw_lem deserialize items (sent ++ m ∷ []) h.1
        ∙ ap (λ l. (ok tt, l))
            (append_assoc sent (m ∷ []) (map raw_message items ++ none_left ∷ finish ∷ [])))

module _ {T : Type 0} (c : Chrono) (deserialize : Accessor → Bytes → Outcome T)
    (open_store : Accessor → Outcome RawEventStore) (from_str : Bytes → Outcome RawEventKind)
    (default_kind : RawEventKind) (decode_range : Bytes → Outcome RequestRange)
    (decode_raw : Bytes → Outcome RequestRawData) (process_pcap : Bytes → Extract)
    (kind : RawEventKind) (a : Accessor) (protocol : Option String) (store : RawEventStore)
    (entries : List Entry) (published : is_published kind ≡ true)
    (ingested : ingest_handler kind ≡ some (a, protocol)) (opens : open_store a ≡ ok store)
    (scans : Scans store entries) where
  abbrev answer : MessageCode → Bytes → Answer T
  answer code msg_buf =
      handle_request sends c deserialize open_store from_str default_kind decode_range decode_raw
        process_pcap (ok (code, msg_buf))

  -- A range request for a published kind other than `FileCreateTime`, which is also the one for a
  -- text that names no kind if that is the default, is answered from the store that events of the kind are
  -- ingested into, if that is read without errors: with the first `count` entries of the source,
  -- and of the kind of log that the text is if it asks for logs, between the bounds of its times, in the order of their keys,
  -- each with the timestamp of its key, and then the end mark and the end of the stream. The
  -- entries decode, their keys have at least eight bytes, and every message can be sent.
  pub handle_request-range :
      (msg_buf : Bytes) (msg : RequestRange) (items : List (Bytes × T))
      → decode_range msg_buf ≡ ok msg
      → kind_of from_str default_kind msg.kind ≡ kind
      → range_kind kind ≡ kind
      → map (decode (deserialize a)) (requested c (deserialize a) msg (is_log kind) entries)
        ≡ map ok items
      → All (λ item. leb 8 (length item.0) ≡ true) items
      → answer req_range msg_buf ≡ record {
        result = ok tt;
        records = map (message msg.source) items ++ none_left ∷ finish ∷ [];
        extract = none;
      }
  unfolding handle_request answer_range
  handle_request-range msg_buf msg items decodes named same values long =
      let r : range_handler kind ≡ some (a, is_log kind) =
        range_handler_lem kind ∙ rw (published, same, ingested) refl in
      let sent =
        process_range_data-sends c (deserialize a) store entries msg (is_log kind) items scans
          values long in
      rw (answer, handle_request, decodes, answer_range, named, r, opens, sent) refl

  -- A request for raw events of a published kind, under the same conditions on the kind and the
  -- store, is answered with the entries whose keys are a source of the request, a zero byte and one
  -- of its timestamps for that source, in the order of the request and without those that are not there, and
  -- then the end mark and the end of the stream. An entry whose key has a kind between the two, as a
  -- log's has, is answered only if the request's source holds that kind too. The entries decode, and
  -- every message can be sent.
  pub handle_request-raw :
      (msg_buf : Bytes) (msg : RequestRawData) (items : List ((ℤ × Bytes × Bytes) × T))
      → decode_raw msg_buf ≡ ok msg
      → kind_of from_str default_kind msg.kind ≡ kind
      → map (λ i. i.0) items ≡ found entries msg.input
      → AllDecoded (deserialize a) items
      → answer raw_data msg_buf ≡ record {
        result = ok tt;
        records = map raw_message items ++ none_left ∷ finish ∷ [];
        extract = none;
      }
  unfolding handle_request answer_raw process_raw_events
  handle_request-raw msg_buf msg items decodes named at values =
      let r : raw_data_handler kind ≡ some a =
        raw_data_handler-ingest kind ∙ rw (published, ingested) refl in
      let sent : process_raw_events sends (deserialize a) store msg.input
          ≡ (ok tt, map raw_message items ++ none_left ∷ finish ∷ []) =
        ap (λ l. send_raw sends (deserialize a) l [])
          (gather-found T store entries msg.input scans ∙ sym at)
        ∙ send_raw_lem (deserialize a) items [] values in
      rw (answer, handle_request, decodes, answer_raw, named, r, opens, sent) refl
