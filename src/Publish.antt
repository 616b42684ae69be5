-- ===== src/Publish.antt =====
-- What src/publish.rs and src/publish/implement.rs send: the records of a range request
-- (`process_range_data`), raw events by their timestamps (`process_raw_events`), the stored part of
-- a crusher's stream (`send_stream`) and the events as they arrive (`send_direct_stream`). The
-- network is a parameter: what was sent so far decides whether the next message can be sent.
pub mod Channel
pub mod Range
pub mod Direct
pub mod Raw
pub mod Stored
pub mod Streams
pub mod Requests
pub mod Answers
use giganto.Prelude.{
  ℕ, ◌-◌, ◌^◌, Bool, true, false, ◌||◌, Option, none, some, List, [], ◌∷◌, ◌++◌, map, reverse,
  length, take, drop, ltb, leb, if◌then◌else◌,
}
use giganto.Bytes.{Bytes, to_be}
use giganto.Int64.{ℤ, pos, to_be_bytes, from_be_bytes}
use giganto.Outcome.{Outcome, ok, err, ◌>>=◌}
use giganto.Chrono.{Chrono}
use giganto.Key.{
  StorageKeyBuilder, timestamp_size, builder, start_key, mid_key, end_key, build,
  lower_closed_bound_end_key, upper_open_bound_end_key,
}
use giganto.Store.{RawEventStore, forward}
use giganto.Iter.{boundary_iter}
use giganto.Filter.{IpAddr}
use Channel.{RequestCrusherStream, filter_ip}

-- `RequestRange` without its kind's text, which selects the store.
pub record RequestRange : Type 0 where
  pub source : Bytes
  pub kind : Bytes
  pub start : ℤ
  pub end : ℤ
  pub count : ℕ

-- A message on the stream: `Some((value, timestamp, source))`, `None`, and the stream's end.
pub data Sent (T : Type 0) : Type 0 where
  record_data : T → ℤ → Bytes → Sent T
  none_left finish : Sent T

-- `i64::from_be_bytes(key[(key.len() - TIMESTAMP_SIZE)..].try_into()?)`, which panics on a key
-- shorter than a timestamp.
abbrev pub timestamp_of : Bytes → Outcome ℤ
timestamp_of key =
    if leb timestamp_size (length key)
    then ok (from_be_bytes (drop (length key - timestamp_size) key))
    else err "attempt to subtract with overflow"

-- `let (Some(a), Some(b)) = .. else`
abbrev pub both {ℓ} : {A : Type ℓ} → Option A → Option A → Option (A × A)
both none b = none
both (some a) none = none
both (some a) (some b) = some (a, b)

-- `RawEventStore::multi_get_with_source`: what cannot be read is passed over.
unfoldable pub multi_get_with_source : RawEventStore → Bytes → List ℤ → List (ℤ × Bytes × Bytes)
multi_get_with_source store source [] = []
multi_get_with_source store source (ts ∷ timestamps) =
    let rest = multi_get_with_source store source timestamps in
    elim (store.get_cf (build (end_key (start_key builder source) ts))) [
      | ok (some value) ↦ (ts, source, value) ∷ rest
      | ok none ↦ rest
      | err e ↦ rest
    ]

module _ {T : Type 0} (io : List (Sent T) → Sent T → Outcome (Unit {0})) where
  abbrev pub Transcript : Type 0
  Transcript = Outcome (Unit {0}) × List (Sent T)

  -- A message that cannot be sent ends the request.
  abbrev pub then_send : Sent T → (List (Sent T) → Transcript) → List (Sent T) → Transcript
  then_send m k sent = elim (io sent m) [ ok u ↦ k (sent ++ m ∷ []) | err e ↦ (err e, sent) ]

  abbrev pub send_end : List (Sent T) → Transcript
  send_end = then_send none_left (then_send finish (λ sent. (ok tt, sent)))

  unfoldable pub send_items : Bytes → List (Outcome (Bytes × T)) → List (Sent T) → Transcript
  send_items source [] sent = send_end sent
  send_items source (err e ∷ rest) sent = (err e, sent)
  send_items source (ok (key, val) ∷ rest) sent = elim (timestamp_of key) [
    | err e ↦ (err e, sent)
    | ok ts ↦ then_send (record_data val ts source) (send_items source rest) sent
  ]

  unfoldable pub process_range_data :
      Chrono → (Bytes → Outcome T) → RawEventStore → RequestRange → Bool → Transcript
  unfolding send_items
  process_range_data c deserialize store msg availed_kind =
      let key_builder =
        mid_key (start_key builder msg.source) (if availed_kind then some msg.kind else none) in
      let from_key =
        build (lower_closed_bound_end_key c key_builder (some (c.timestamp_nanos msg.start))) in
      let to_key =
        build (upper_open_bound_end_key c key_builder (some (c.timestamp_nanos msg.end))) in
      send_items msg.source
        (take msg.count (boundary_iter deserialize store from_key to_key forward)) []

  unfoldable pub send_raw :
      (Bytes → Outcome T) → List (ℤ × Bytes × Bytes) → List (Sent T) → Transcript
  send_raw deserialize [] sent = send_end sent
  send_raw deserialize ((timestamp, source, value) ∷ output) sent = elim (deserialize value) [
    | err e ↦ (err e, sent)
    | ok val ↦ then_send (record_data val timestamp source) (send_raw deserialize output) sent
  ]

  unfoldable pub gather : RawEventStore → List (Bytes × List ℤ) → List (ℤ × Bytes × Bytes)
  unfolding multi_get_with_source
  gather store [] = []
  gather store ((source, timestamps) ∷ msg) =
      multi_get_with_source store source timestamps ++ gather store msg

  unfoldable pub process_raw_events :
      (Bytes → Outcome T) → RawEventStore → List (Bytes × List ℤ) → Transcript
  unfolding send_raw gather
  process_raw_events deserialize store msg = send_raw deserialize (gather store msg) []

  -- The `NodeType::Crusher` branch of `send_stream`, behind the start message: the stored records
  -- that the policy's addresses admit, and the time of the last one. The two addresses of an event
  -- are what `EventFilter` returns.
  unfoldable pub send_stored :
      (T → Option IpAddr × Option IpAddr)
      → RequestCrusherStream
      → Bytes
      → List (Outcome (Bytes × T))
      → ℤ
      → List (Sent T)
      → (Outcome ℤ × List (Sent T))
  unfolding filter_ip
  send_stored addrs msg source [] last_ts sent = (ok last_ts, sent)
  send_stored addrs msg source (err e ∷ rest) last_ts sent = (err e, sent)
  send_stored addrs msg source (ok (key, val) ∷ rest) last_ts sent =
      let passed_over = send_stored addrs msg source rest last_ts sent in
      elim (both (addrs val).0 (addrs val).1) [
        | none ↦ (err "Failed to deserialize database data", sent)
        | some pair ↦
            if filter_ip msg.src_ip msg.dst_ip pair.0 pair.1
            then elim (timestamp_of key) [
              | err e ↦ (err e, sent)
              | ok ts ↦ elim (io sent (record_data val ts source)) [
                | ok u ↦
                    send_stored addrs msg source rest ts (sent ++ record_data val ts source ∷ [])
                | err e ↦ (err e, sent)
              ]
            ]
            else passed_over
      ]

  unfoldable pub send_crusher_stored :
      Chrono
      → (Bytes → Outcome T)
      → (T → Option IpAddr × Option IpAddr)
      → RawEventStore
      → RequestCrusherStream
      → Option Bytes
      → (Outcome ℤ × List (Sent T))
  unfolding send_stored
  send_crusher_stored c deserialize addrs store msg kind = elim msg.source [
    | none ↦ (err "Failed to generate crusher key, source is required.", [])
    | some source ↦
        (let key_builder = mid_key (start_key builder source) kind in
          let from_key =
            build (lower_closed_bound_end_key c key_builder (some (c.timestamp_nanos msg.start))) in
          let to_key = build (upper_open_bound_end_key c key_builder none) in
          send_stored addrs msg source (boundary_iter deserialize store from_key to_key forward)
            (pos 0) [])
  ]
