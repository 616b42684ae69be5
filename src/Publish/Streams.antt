-- ===== src/Publish/Streams.antt =====
-- `send_stream` of src/publish.rs: a subscriber's channel, the stored events, and the task that
-- sends the events as they arrive. A sender of a channel is its number. That the stream opens and
-- the start message is sent are inputs.
pub mod Live
pub mod Dead
use giganto.Prelude.{
  ℕ, ◌-◌, Bool, true, false, Ordering, Option, none, some, List, [], ◌∷◌, ◌++◌, length, take,
  reverse, leb, if◌then◌else◌,
}
use giganto.Bytes.{Bytes}
use giganto.Int64.{ℤ, pos, from_be_bytes, cmp_ℤ}
use giganto.Outcome.{Outcome, ok, err, ◌>>=◌, ◌>>◌}
use giganto.Chrono.{Chrono}
use giganto.Key.{timestamp_size}
use giganto.Store.{RawEventStore}
use giganto.Filter.{IpAddr}
use giganto.Sources.{Map, insert, remove}
use giganto.Publish.{Sent, send_crusher_stored}
use giganto.Publish.Channel.{
  RequestHogStream, RequestCrusherStream, hog_channel_key, crusher_channel_key,
}

-- The message of a subscriber, by the type of its node.
pub data Request : Type 0 where
  hog : RequestHogStream → Request
  crusher : RequestCrusherStream → Request

abbrev pub insert_all : List Bytes → ℕ → Map ℕ → Map ℕ
insert_all [] sender channels = channels
insert_all (c_key ∷ keys) sender channels = insert_all keys sender (insert c_key sender channels)

abbrev pub remove_all : List Bytes → Map ℕ → Map ℕ
remove_all [] channels = channels
remove_all (r_key ∷ keys) channels = remove_all keys (remove r_key channels)

-- What `send_stream` leaves: what it returned, the stored events that it sent, the channels, and,
-- if the task of the live events was started, the keys and the time that this has.
pub record Stream (T : Type 0) : Type 0 where
  pub result : Outcome (Unit {0})
  pub sent : List (Sent T)
  pub channels : Map ℕ
  pub live : Option (List Bytes × ℤ)

-- The names of the node types are `convert_to_str`.
module _ (hog_name crusher_name : Bytes) where
  unfoldable pub channel_key : Request → Option Bytes → Bytes → Outcome (List Bytes)
  unfolding hog_channel_key crusher_channel_key
  channel_key (hog msg) source record_type = hog_channel_key hog_name msg source record_type
  channel_key (crusher msg) source record_type = crusher_channel_key crusher_name msg record_type

  module _ {T : Type 0} (io : List (Sent T) → Sent T → Outcome (Unit {0})) (c : Chrono)
      (deserialize : Bytes → Outcome T) (addrs : T → Option IpAddr × Option IpAddr)
      (store : RawEventStore) where
    -- The stored events, and the time of the last.
    unfoldable pub stored : Request → Option Bytes → Outcome ℤ × List (Sent T)
    stored (hog msg) kind = (ok (pos 0), [])
    stored (crusher msg) kind = send_crusher_stored io c deserialize addrs store msg kind

    unfoldable pub send_stream :
        Outcome (Unit {0})
        → Outcome (Unit {0})
        → Request
        → Option Bytes
        → Option Bytes
        → Bytes
        → ℕ
        → Map ℕ
        → Stream T
    unfolding channel_key
    send_stream opens starts msg source kind record_type sender channels =
        elim (opens >> channel_key msg source record_type) [
          | err e ↦ record { result = err e; sent = []; channels = channels; live = none }
          | ok keys ↦
              let channels' = insert_all keys sender channels in
              let (r, sent) = stored msg kind in
              elim starts [
                | err e ↦ record { result = err e; sent = []; channels = channels'; live = none }
                | ok _ ↦ elim r [
                  | err e ↦ record {
                    result = err e;
                    sent = sent;
                    channels = channels';
                    live = none;
                  }
                  | ok last_ts ↦ record {
                    result = ok tt;
                    sent = sent;
                    channels = channels';
                    live = some (keys, last_ts);
                  }
                ]
              ]
        ]

-- `i64::from_le_bytes(buf.get(..TIMESTAMP_SIZE).expect(..)..)`
abbrev pub buffer_time : Bytes → Option ℤ
buffer_time buf =
    if leb timestamp_size (length buf)
    then some (from_be_bytes (reverse (take timestamp_size buf)))
    else none

abbrev pub is_after : ℤ → ℤ → Bool
is_after a b = elim (cmp_ℤ a b) [ Ordering.gt ↦ true | _ ↦ false ]

-- The task of the live events: what the channel delivers until its senders are gone, what has been
-- sent, and the channels as they are when sending fails. `none`
-- is a panic.
unfoldable pub send_live :
    (List Bytes → Bytes → Bool)
    → List Bytes
    → ℤ
    → Map ℕ
    → List Bytes
    → List Bytes
    → Option (List Bytes × Map ℕ)
send_live sends keys last_ts channels [] sent = some (sent, channels)
send_live sends keys last_ts channels (buf ∷ received) sent =
    let passed_over = send_live sends keys last_ts channels received sent in
    let later = send_live sends keys last_ts channels received (sent ++ buf ∷ []) in
    elim (buffer_time buf) [
      | none ↦ none
      | some ts ↦
          if is_after last_ts ts
          then passed_over
          else if sends sent buf
          then later
          else some (sent, remove_all keys channels)
    ]
