-- ===== src/Tests/Streams.antt =====
-- Streams of events (src/ingest.rs).
use giganto.Prelude.{◌≡◌, ℕ, none, inl, inr, refl, true, false, List, [], ◌∷◌, ◌++◌}
use giganto.Bytes.{Bytes, cmp}
use giganto.Int64.{pos, negsuc}
use giganto.Outcome.{ok, err}
use giganto.Dispatch.{RawEventKind}
use giganto.Ingest.EventKey.{Formats, event_key}
use giganto.Ingest.{
  Input, received, finished_early, recv_error, start, channel_close_message, handle_data,
}
use giganto.Ingest.Kept.{AcksStored}
use giganto.Ingest.Acks.{handle_data-AcksStored}
use giganto.Ingest.Stored.{put, value_of, last_value, succeeds, handle_data_stores}
use giganto.Tests.{source, key_at}

-- Events whose kinds and names are their bytes; a packet cannot be decoded.
abbrev pub formats : Formats
formats = record {
  log_kind = λ raw. ok raw;
  time_series_id = λ raw. ok raw;
  op_log_agent_name = λ raw. ok raw;
  packet_timestamp = λ raw. err "invalid packet";
  statistics_core = λ raw. ok 0;
  secu_log_kind = λ raw. ok raw;
  secu_log_with_source = λ name raw. ok raw;
}

abbrev two_events : List Input
two_events =
    received (1 ∷ []) (pos 10) false
    ∷ received channel_close_message (negsuc 0) false
    ∷ received (2 ∷ []) (pos 20) false
    ∷ []

-- The interval task takes a step before each action of the loop.
abbrev schedule : ℕ → ℕ
schedule n = 1

-- Of two events with one key the second remains.
abbrev one_key : List Input
one_key = two_events ++ received (3 ∷ []) (pos 20) false ∷ []

handle_data_stores_example :
    let (r, s') =
      handle_data succeeds schedule formats RawEventKind.conn source true
        (one_key ++ finished_early ∷ [])
        start in
    (r ≡ ok tt)
    × (put s'.done ≡ (key_at 10, 1 ∷ []) ∷ (key_at 20, 2 ∷ []) ∷ (key_at 20, 3 ∷ []) ∷ [])
    × ((k : Bytes)
        → value_of k s'.done
          ≡ last_value k
              ((key_at 10, 1 ∷ []) ∷ (key_at 20, 2 ∷ []) ∷ (key_at 20, 3 ∷ []) ∷ [])
              none)
unfolding cmp event_key
handle_data_stores_example =
    handle_data_stores formats RawEventKind.conn source true schedule one_key start (
      refl,
      inr ((key_at 10, 1 ∷ []), refl),
      (
        refl,
        inl refl,
        (refl, inr ((key_at 20, 2 ∷ []), refl), (refl, inr ((key_at 20, 3 ∷ []), refl), tt)),
      ),
    )

handle_data-AcksStored_example :
    AcksStored
      (handle_data succeeds schedule formats RawEventKind.conn source true
        (two_events ++ recv_error ∷ [])
        start).1.done
handle_data-AcksStored_example =
    handle_data-AcksStored succeeds schedule formats RawEventKind.conn source true
      (two_events ++ recv_error ∷ [])
