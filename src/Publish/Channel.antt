-- ===== src/Publish/Channel.antt =====
-- The keys of the direct channels (src/publish/implement.rs), `NetworkKey` (src/ingest.rs) and
-- `send_direct_stream` (src/publish.rs). The names of the node types and `bincode` are parameters.
use giganto.Prelude.{
  ℕ, ◌^◌, Bool, true, false, ◌&&◌, ◌||◌, Option, none, some, List, [], ◌∷◌, ◌++◌, map, reverse,
  length, ltb, if◌then◌else◌,
}
use giganto.Bytes.{Bytes, to_be}
use giganto.Int64.{ℤ, to_be_bytes}
use giganto.Outcome.{Outcome, ok, err, ◌>>=◌}
use giganto.Filter.{IpAddr, addr_eq, contains}

pub record RequestHogStream : Type 0 where
  pub start : ℤ
  pub source : Option (List Bytes)

pub record RequestCrusherStream : Type 0 where
  pub start : ℤ
  pub id : Bytes
  pub src_ip : Option IpAddr
  pub dst_ip : Option IpAddr
  pub source : Option Bytes

-- The cases of `RequestCrusherStream::filter_ip`: the addresses that the policy names, and those of
-- the event.
unfoldable pub filter_ip : Option IpAddr → Option IpAddr → IpAddr → IpAddr → Bool
filter_ip (some c_orig_addr) (some c_resp_addr) orig_addr resp_addr =
    addr_eq c_orig_addr orig_addr && addr_eq c_resp_addr resp_addr
filter_ip none (some c_resp_addr) orig_addr resp_addr = addr_eq c_resp_addr resp_addr
filter_ip (some c_orig_addr) none orig_addr resp_addr = addr_eq c_orig_addr orig_addr
filter_ip none none orig_addr resp_addr = true

pub record NetworkKey : Type 0 where
  pub source_key : Bytes
  pub all_key : Bytes

-- "all"
abbrev pub all_sources : Bytes
all_sources = 97 ∷ 108 ∷ 108 ∷ []

unfoldable pub network_key : Bytes → Bytes → NetworkKey
network_key source protocol = record {
  source_key = source ++ 0 ∷ protocol;
  all_key = all_sources ++ 0 ∷ protocol;
}

-- `req_key.contains(..) || req_key.contains(..)`
unfoldable pub subscribed : NetworkKey → Bytes → Bool
unfolding contains
subscribed key req_key = contains req_key key.source_key || contains req_key key.all_key

-- `u32::try_from(n)?.to_le_bytes()`
abbrev pub u32_le : ℕ → Outcome Bytes
u32_le n =
    if ltb n (2 ^ 32) then ok (reverse (to_be 4 n)) else err "out of range integral type conversion"

-- The publishing node's own name is `source`; `unwrap` on it panics.
unfoldable pub hog_channel_key :
    Bytes → RequestHogStream → Option Bytes → Bytes → Outcome (List Bytes)
hog_channel_key hog msg source record_type = elim (msg.source) [
  | none ↦ err "Failed to generate hog channel key, source is required."
  | some source_list ↦ elim source [
    | none ↦
        if elim source_list [ [] ↦ true | s ∷ ss ↦ false ]
        then ok []
        else err "called `Option::unwrap()` on a `None` value"
    | some name ↦
        ok (
          map (λ target_source. hog ++ 0 ∷ name ++ 0 ∷ target_source ++ 0 ∷ record_type)
            source_list)
  ]
]

unfoldable pub crusher_channel_key : Bytes → RequestCrusherStream → Bytes → Outcome (List Bytes)
crusher_channel_key crusher msg record_type = elim msg.source [
  | none ↦ err "Failed to generate crusher channel key, source is required."
  | some target_source ↦ ok ((crusher ++ 0 ∷ msg.id ++ 0 ∷ target_source ++ 0 ∷ record_type) ∷ [])
]

module _ (hog : Bytes) (serialize : Bytes → Outcome Bytes) where
  -- What a subscription is sent of an event.
  unfoldable pub frame : Bytes → ℤ → Bytes → Bytes → Outcome Bytes
  unfolding contains
  frame raw_event timestamp source req_key = do
    raw_len ← u32_le (length raw_event)
    prefix' ←
        if contains req_key hog
        then (do
          source_bytes ← serialize source
          source_len ← u32_le (length source_bytes)
          ok (source_len ++ source_bytes))
        else ok []
    ok (reverse (to_be_bytes timestamp) ++ prefix' ++ raw_len ++ raw_event)

  -- The subscriptions in the order in which the map is read; `closed` are those whose receiver is
  -- gone, at which `sender.send(send_buf)?` ends the loop.
  unfoldable pub send_direct_stream :
      (Bytes → Bool)
      → NetworkKey
      → Bytes
      → ℤ
      → Bytes
      → List Bytes
      → Outcome (Unit {0}) × List (Bytes × Bytes)
  unfolding subscribed frame
  send_direct_stream closed key raw_event timestamp source [] = (ok tt, [])
  send_direct_stream closed key raw_event timestamp source (req_key ∷ channels) =
      let (result, sent) = send_direct_stream closed key raw_event timestamp source channels in
      if subscribed key req_key
      then elim (frame raw_event timestamp source req_key) [
        | err e ↦ (err e, [])
        | ok send_buf ↦
            if closed req_key
            then (err "channel closed", [])
            else (result, (req_key, send_buf) ∷ sent)
      ]
      else (result, sent)
