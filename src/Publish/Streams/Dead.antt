-- ===== src/Publish/Streams/Dead.antt =====
-- A crusher's request for events without addresses (`send_stream` and `send_direct_stream` of
-- src/publish.rs, `handle_data` of src/ingest.rs).
use giganto.Prelude.{
  ◌≡◌, refl, ℕ, ◌<◌, ◌^◌, Bool, true, false, ◌&&◌, ◌||◌, Option, none, some, List, [], ◌∷◌, ◌++◌,
  any, length, ◌==◌, ==_of_eq, if◌then◌else◌,
}
use giganto.Bytes.{Bytes}
use giganto.Int64.{ℤ}
use giganto.Outcome.{Outcome, ok, err}
use giganto.Chrono.{Chrono}
use giganto.Dispatch.{RawEventKind}
use giganto.Events.Admitted.{Event, fields_of, has_flow, no_flow}
use giganto.Filter.{IpAddr}
use giganto.Ingest.{Effect, direct, Input, received, Session, is_close, pause, handle_data}
use giganto.Ingest.Failed.{after_append, handle_data_unsent}
use giganto.Ingest.EventKey.{Formats, event_key}
use giganto.Iter.{boundary_iter}
use giganto.Key.{
  builder, start_key, mid_key, build, lower_closed_bound_end_key, upper_open_bound_end_key,
}
use giganto.Publish.{Sent, both, send_stored, send_crusher_stored}
use giganto.Publish.Channel.{
  RequestCrusherStream, crusher_channel_key, network_key, subscribed, send_direct_stream,
}
use giganto.Publish.Direct.{send_direct_stream-closed, subscribed-suffix}
use giganto.Publish.Streams.{crusher, channel_key, Stream, stored, send_stream}
use giganto.Sources.{Map, keys, insert, remove}
use giganto.Store.{RawEventStore, forward, equals}
use giganto.Store.Sorted.{equals_refl}

abbrev lookup : Bytes → Map ℕ → Option ℕ
lookup name [] = none
lookup name (e ∷ m) = if equals e.0 name then some e.1 else lookup name m

-- Whether the receiver of a channel is gone: that of a stream whose task was not started, and those
-- of others.
abbrev pub closed_by : {T : Type 0} → Stream T → ℕ → (Bytes → Bool) → Bytes → Bool
closed_by s sender others name = elim (lookup name s.channels) [
  | none ↦ others name
  | some n ↦ elim s.live [ none ↦ (n == sender) || others name | some l ↦ others name ]
]

lookup-insert : (name : Bytes) (n : ℕ) (m : Map ℕ) → lookup name (insert name n m) ≡ some n
unfolding insert
lookup-insert name n m = rw (equals_refl name) refl

closed_lem :
    {T : Type 0} (s : Stream T) (sender : ℕ) (others : Bytes → Bool) (name : Bytes)
    → lookup name s.channels ≡ some sender
    → s.live ≡ none
    → closed_by s sender others name ≡ true
closed_lem s sender others name e l = rw (closed_by, e, l, ==_of_eq sender sender refl) refl

any_first : (p : Bytes → Bool) (k : Bytes) (ks : List Bytes) → p k ≡ true → any p (k ∷ ks) ≡ true
any_first p k ks h = rw h refl

abbrev addresses : Event → Option IpAddr × Option IpAddr
addresses e = ((fields_of e).orig_addr, (fields_of e).resp_addr)

no_pair : (e : Event) → has_flow e ≡ false → both (addresses e).0 (addresses e).1 ≡ none
no_pair e h = rw ((no_flow e h).0) refl

module _ (hog_name crusher_name : Bytes) (serialize : Bytes → Outcome Bytes)
    (io : List (Sent Event) → Sent Event → Outcome (Unit {0})) (c : Chrono)
    (deserialize : Bytes → Outcome Event) (store : RawEventStore) (msg : RequestCrusherStream)
    (source : Bytes) (named : msg.source ≡ some source) where
  abbrev pub stored_items : List (Outcome (Bytes × Event))
  stored_items =
      boundary_iter deserialize store
        (build (
          lower_closed_bound_end_key c (start_key builder source)
            (some (c.timestamp_nanos msg.start))))
        (build (upper_open_bound_end_key c (start_key builder source) none)) forward

  -- What the request leaves.
  abbrev pub left : Bytes → ℕ → Map ℕ → Stream Event
  left record_type sender channels =
      send_stream hog_name crusher_name io c deserialize addresses store (ok tt) (ok tt)
        (crusher msg) none none record_type sender channels

  module _ (key : Bytes) (e : Event) (rest : List (Outcome (Bytes × Event)))
      (first : stored_items ≡ ok (key, e) ∷ rest) (none_there : has_flow e ≡ false) where
    stored_fails :
        send_crusher_stored io c deserialize addresses store msg none
        ≡ (err "Failed to deserialize database data", [])
    unfolding send_crusher_stored send_stored mid_key
    stored_fails = rw (send_crusher_stored, named, first, send_stored, no_pair e none_there) refl

    abbrev subscription : Bytes → Bytes
    subscription record_type = crusher_name ++ 0 ∷ msg.id ++ 0 ∷ source ++ 0 ∷ record_type

    left_lem :
        (record_type : Bytes) (sender : ℕ) (channels : Map ℕ)
        → left record_type sender channels ≡ record {
          result = err "Failed to deserialize database data";
          sent = [];
          channels = insert (subscription record_type) sender channels;
          live = none;
        }
    unfolding send_stream stored crusher_channel_key
    left_lem record_type sender channels =
        rw (send_stream, channel_key, named, stored, stored_fails) (rw (stored, stored_fails) refl)

    -- The channel is there and its receiver is gone.
    subscription_gone :
        (record_type : Bytes) (sender : ℕ) (channels : Map ℕ) (others : Bytes → Bool)
        → let s = left record_type sender channels in
          any
            (λ k. subscribed (network_key source record_type) k && closed_by s sender others k)
            (keys s.channels)
          ≡ true
    unfolding insert
    subscription_gone record_type sender channels others =
        let name = subscription record_type in
        let s : Stream Event = record {
          result = err "Failed to deserialize database data";
          sent = [];
          channels = insert name sender channels;
          live = none;
        } in
        rw (left_lem record_type sender channels) (
          any_first
            (λ k. subscribed (network_key source record_type) k && closed_by s sender others k) name
            (keys (remove name channels))
            (rw
              (
                subscribed-suffix crusher_name msg.id [] source record_type,
                closed_lem s sender others name (lookup-insert name sender channels) refl,
              )
              refl))

    -- What `handle_data` meets: only sending an event to the subscriptions can fail.
    abbrev pub ingest_io :
        Stream Event → ℕ → (Bytes → Bool) → Bytes → List Effect → Effect → Outcome (Unit {0})
    ingest_io s sender others record_type done (direct raw ts) =
        (send_direct_stream hog_name serialize (closed_by s sender others)
          (network_key source record_type) raw ts source (keys s.channels)).0
    ingest_io s sender others record_type done _ = ok tt

    -- A crusher's request for the events of a source, of which the first that is stored has no
    -- addresses, as a log has none, fails and leaves its subscription among the channels; from then
    -- on the next event of the source and the kind that is ingested, of whatever connection, is
    -- stored, and `handle_data` ends with an error without having counted or acknowledged it, as
    -- long as the serialized name and the event fit in 32 bits; the interval task, which runs at any
    -- moments, goes on.
    pub handle_data_closed :
        (record_type : Bytes) (sender : ℕ) (channels : Map ℕ) (others : Bytes → Bool)
        (schedule : ℕ → ℕ) (formats : Formats) (kind : RawEventKind)
        (raw stored_key stored_raw source_bytes : Bytes) (ts : ℤ) (shutdown : Bool)
        (inputs : List Input) (s : Session)
        → is_close raw ts ≡ false
        → event_key formats kind source raw ts ≡ ok (stored_key, stored_raw)
        → serialize source ≡ ok source_bytes
        → length source_bytes < 2 ^ 32
        → length stored_raw < 2 ^ 32
        → let io = ingest_io (left record_type sender channels) sender others record_type in
          handle_data io schedule formats kind source true (received raw ts shutdown ∷ inputs) s ≡ (
            err "channel closed",
            pause io schedule (
                pause io schedule (
                  after_append io schedule formats kind source stored_key stored_raw ts shutdown s
                    "channel closed")),
          )
    handle_data_closed record_type sender channels others schedule formats kind raw stored_key
          stored_raw source_bytes ts shutdown inputs s not_close known named' short short' =
        let fails =
          send_direct_stream-closed hog_name serialize
            (closed_by (left record_type sender channels) sender others)
            (network_key source record_type) stored_raw source source_bytes ts
            (keys (left record_type sender channels).channels) named' short short'
            (subscription_gone record_type sender channels others) in
        handle_data_unsent (ingest_io (left record_type sender channels) sender others record_type)
          schedule formats kind source stored_key stored_raw ts shutdown s "channel closed" refl
          fails raw inputs not_close known
