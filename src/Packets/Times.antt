-- ===== src/Packets/Times.antt =====
-- The times of a packet, from its ingestion to the query (src/ingest.rs, src/graphql/packet.rs).
use mathlib.Core.List.{append_assoc}
use giganto.Prelude.{
  ◌≡◌, refl, ap, ◌∙◌, ℕ, ◌+◌, ◌-◌, true, none, some, [], ◌∷◌, ◌++◌, length, length-append, take,
  take-append, leb, arith,
}
use giganto.Bytes.{Bytes}
use giganto.Int64.{ℤ, InI64, to_be_bytes, length-to_be_bytes}
use giganto.Outcome.{ok}
use giganto.Chrono.{Chrono}
use giganto.Dispatch.{packet}
use giganto.Export.File.{returned}
use giganto.Filter.{Text}
use giganto.Ingest.EventKey.{Formats, event_key}
use giganto.Key.{builder, start_key, mid_key, end_key, build, get_timestamp_from_key}
use giganto.Key.Shape.{get_timestamp_from_key-end_key}
use giganto.Packets.{Pk, from_key_value}

abbrev packet_key : Bytes → ℤ → ℤ → Bytes
packet_key source ts packet_ts =
    build (end_key (mid_key (start_key builder source) (some (to_be_bytes ts))) packet_ts)

-- The key is that of the request's time, a zero byte and the packet's time.
packet_key-parts :
    (source : Bytes) (ts packet_ts : ℤ)
    → packet_key source ts packet_ts
      ≡ build (end_key (start_key builder source) ts) ++ 0 ∷ to_be_bytes packet_ts
unfolding end_key mid_key
packet_key-parts source ts packet_ts =
    append_assoc ((start_key builder source).pre_key ++ to_be_bytes ts) (0 ∷ [])
      (to_be_bytes packet_ts)

long_enough : (n m : ℕ) → n ≡ m + 9 → (leb 9 n ≡ true) × (n - 9 ≡ m)
long_enough n m h = ground arith

module _ (c : Chrono) (encode : Bytes → Text) where
  packet_parts :
      (source : Bytes) (ts packet_ts : ℤ)
      → let key = packet_key source ts packet_ts in
        (leb 9 (length key) ≡ true)
        × (take (length key - 9) key ≡ build (end_key (start_key builder source) ts))
  packet_parts source ts packet_ts =
      let p = build (end_key (start_key builder source) ts) in
      let e = packet_key-parts source ts packet_ts in
      let n : length (packet_key source ts packet_ts) ≡ length p + 9 =
        ap length e
        ∙ length-append p (0 ∷ to_be_bytes packet_ts)
        ∙ omega (arith, length-to_be_bytes packet_ts) in
      let (long, rest) = long_enough _ (length p) n in
      (long, rw (rest, e) (take-append p (0 ∷ to_be_bytes packet_ts)))

  plain_time :
      (source : Bytes) (ts : ℤ)
      → InI64 ts
      → get_timestamp_from_key c (build (end_key (start_key builder source) ts))
        ≡ ok (c.timestamp_nanos ts)
  unfolding mid_key
  plain_time source ts h = get_timestamp_from_key-end_key c source none ts h

  -- A packet that is ingested with a timestamp, both its times in range of `i64`, is shown by the
  -- query with that timestamp as the request's time and its own time as the packet's.
  pub from_key_value-event_key :
      (formats : Formats) (source raw : Bytes) (ts packet_ts : ℤ) (pk : Pk)
      → InI64 ts
      → InI64 packet_ts
      → formats.packet_timestamp raw ≡ ok packet_ts
      → (key : Bytes) × (event_key formats packet source raw ts ≡ ok (key, raw))
        × (from_key_value c encode key pk
            ≡ returned (
                ok (record {
                  request_time = c.timestamp_nanos ts;
                  packet_time = c.timestamp_nanos packet_ts;
                  packet = encode pk.packet;
                })))
  unfolding event_key from_key_value
  from_key_value-event_key formats source raw ts packet_ts pk h k e =
      let (long, first) = packet_parts source ts packet_ts in
      (
        packet_key source ts packet_ts,
        rw e refl,
        rw
            (
              long,
              first,
              plain_time source ts h,
              get_timestamp_from_key-end_key c source (some (to_be_bytes ts)) packet_ts k,
            )
            refl,
      )
