-- ===== src/Packets.antt =====
-- The packets of src/graphql/packet.rs: `PacketFilter`, `Packet::from_key_value` and the query
-- `pcap`, with `write_run_tcpdump` of src/graphql.rs. Base64, the crate that writes packet captures
-- and the `tcpdump` process are parameters.
pub mod Times
pub mod Fraction
use Prim.Native.Nat.{bit_and}
use giganto.Prelude.{
  ℕ, suc, ◌+◌, ◌-◌, ◌/◌, Bool, true, Option, none, some, List, [], ◌∷◌, map, length, take, leb,
  if◌then◌else◌, ltb, ◌^◌,
}
use giganto.Bytes.{Bytes}
use giganto.Int64.{ℤ, pos, negsuc, to_be_bytes, word}
use giganto.Outcome.{Outcome, ok, err, ◌>>=◌}
use giganto.Chrono.{Chrono}
use giganto.Export.File.{Ended, returned, panicked, a_billion, minus}
use giganto.Key.{
  timestamp_size, builder, start_key, mid_key, build, lower_closed_bound_end_key,
  upper_open_bound_end_key, get_timestamp_from_key,
}
use giganto.Store.{RawEventStore, forward}
use giganto.Iter.{boundary_iter}
use giganto.Page.{Query, collect_records}
use giganto.Filter.{Text}

-- `Packet` of the client library: what is used of it.
pub record Pk : Type 0 where
  pub packet_timestamp : ℤ
  pub packet : Bytes

module _ (c : Chrono) where
  open c use {DateTime, timestamp_nanos_opt}

  pub record PacketFilter : Type 0 where
    pub source : Bytes
    pub request_time : DateTime
    pub packet_time : Option (Option DateTime × Option DateTime)

  -- `KeyExtractor` and `RawEventFilter`: the time of the request is the middle part of the key, or
  -- there is none where it has no number of nanoseconds.
  abbrev pub packet_query : PacketFilter → Query c Pk
  packet_query filter = record {
    check = λ packet. ok true;
    get_start_key = filter.source;
    get_mid_key = elim (timestamp_nanos_opt filter.request_time) [
      | none ↦ none
      | some ns ↦ some (to_be_bytes ns)
    ];
    start = elim filter.packet_time [ none ↦ none | some t ↦ t.0 ];
    end = elim filter.packet_time [ none ↦ none | some t ↦ t.1 ];
  }

  pub record Packet : Type 0 where
    pub request_time : DateTime
    pub packet_time : DateTime
    pub packet : Text

  unfoldable pub from_key_value : (Bytes → Text) → Bytes → Pk → Ended Packet
  from_key_value encode key pk =
      if leb (timestamp_size + 1) (length key)
      then returned (do
        request_time ← get_timestamp_from_key c (take (length key - (timestamp_size + 1)) key)
        packet_time ← get_timestamp_from_key c key
        ok (record {
          request_time = request_time;
          packet_time = packet_time;
          packet = encode pk.packet;
        }))
      else panicked "attempt to subtract with overflow"

-- Division of an `i64` by 1,000,000,000, towards 0.
abbrev pub quotient : ℤ → ℤ
quotient (pos n) = pos (n / a_billion)
quotient (negsuc n) = minus (suc n / a_billion)

pub record PacketHeader : Type 0 where
  pub tv_sec : ℤ
  pub tv_usec : ℤ
  pub caplen : ℕ
  pub len : ℕ

-- `u32::try_from(..).unwrap_or_default()`
abbrev pub or_zero : ℕ → ℕ
or_zero n = if ltb n (2 ^ 32) then n else 0

-- On Linux. `&` with 1,000,000,000 is never negative.
unfoldable pub header_of : Pk → PacketHeader
header_of pk = record {
  tv_sec = quotient pk.packet_timestamp;
  tv_usec = pos (bit_and (word pk.packet_timestamp) a_billion);
  caplen = or_zero (length pk.packet);
  len = or_zero (length pk.packet);
}

-- What the capture holds is what `tcpdump` is given.
unfoldable pub write_run_tcpdump :
    (List (PacketHeader × Bytes) → Outcome Text) → List Pk → Outcome Text
write_run_tcpdump tcpdump packets = tcpdump (map (λ pk. (header_of pk, pk.packet)) packets)

pub record Pcap (c : Chrono) : Type 0 where
  pub request_time : c.DateTime
  pub parsed_pcap : Text

module _ (c : Chrono) (deserialize : Bytes → Outcome Pk) where
  unfoldable pub pcap :
      (List (PacketHeader × Bytes) → Outcome Text)
      → RawEventStore
      → PacketFilter c
      → Outcome (Pcap c)
  unfolding write_run_tcpdump
  pcap tcpdump store filter =
      let q = packet_query c filter in
      let key_builder = mid_key (start_key builder q.get_start_key) q.get_mid_key in
      let from_key = build (lower_closed_bound_end_key c key_builder q.start) in
      let to_key = build (upper_open_bound_end_key c key_builder q.end) in
      let records =
        (collect_records q.check (boundary_iter deserialize store from_key to_key forward)
          1000).0 in
      do
        parsed ← write_run_tcpdump tcpdump (map (λ r. r.1) records)
        ok (record { request_time = filter.request_time; parsed_pcap = parsed })
