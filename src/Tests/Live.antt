-- ===== src/Tests/Live.antt =====
-- Subscriptions to events (src/publish.rs, src/ingest.rs).
use giganto.Prelude.{◌≡◌, refl, true, false, none, some, List, [], ◌∷◌, ◌++◌, ℕ, arith}
use giganto.Bytes.{Bytes, cmp, to_be, of_be}
use giganto.Chrono.{nanos}
use giganto.Dispatch.{RawEventKind}
use giganto.Events.Admitted.{Event, log}
use giganto.Ingest.{Effect, received, start, pause, handle_data}
use giganto.Ingest.Failed.{after_append}
use giganto.Ingest.EventKey.{event_key}
use giganto.Int64.{pos, to_be_bytes, from_be_bytes}
use giganto.Iter.{decode, boundary_iter}
use giganto.Key.{
  builder, build, start_key, end_key, lower_closed_bound_end_key, upper_open_bound_end_key,
}
use giganto.Outcome.{Outcome, ok, err}
use giganto.Publish.Channel.{RequestCrusherStream, network_key}
use giganto.Publish.Streams.{Stream, send_live}
use giganto.Publish.Streams.Dead.{left, ingest_io, handle_data_closed}
use giganto.Publish.Streams.Live.{Arrival, handed, send_live-recent}
use giganto.Store.{forward}
use giganto.Tests.{table, three_entries, source, key_at}
use giganto.Tests.Streams.{formats}

abbrev hog : Bytes
hog = 104 ∷ []

abbrev crusher : Bytes
crusher = 99 ∷ []

abbrev its_bytes : Bytes → Outcome Bytes
its_bytes s = ok s

abbrev arrival : ℕ → Arrival
arrival n = record {
  key = network_key source (49 ∷ []);
  raw_event = 1 ∷ [];
  timestamp = pos n;
  source = source;
}

-- A crusher's key for the source and that kind.
abbrev a_key : Bytes
a_key = crusher ++ 0 ∷ (49 ∷ []) ++ 0 ∷ source ++ 0 ∷ 49 ∷ []

-- Behind the time 15.
send_live-recent_example :
    send_live
      (λ s b. true)
      []
      (pos 15)
      []
      (handed hog its_bytes a_key (arrival 10 ∷ arrival 20 ∷ []))
      []
    ≡ some (handed hog its_bytes a_key (arrival 20 ∷ []), [])
send_live-recent_example =
    send_live-recent hog its_bytes a_key [] (pos 15) [] (arrival 10 ∷ arrival 20 ∷ []) [] (
      (omega arith, (source, refl, omega arith), omega arith),
      ((omega arith, (source, refl, omega arith), omega arith), tt),
    )

-- A policy for the logs of `src`.
abbrev policy : RequestCrusherStream
policy = record { start = pos 10; id = 49 ∷ []; src_ip = none; dst_ip = none; source = some source }

abbrev a_log : Bytes → Outcome Event
a_log v = ok log

logs_stored :
    boundary_iter a_log
      (table three_entries)
      (build (lower_closed_bound_end_key nanos (start_key builder source) (some (pos 10))))
      (build (upper_open_bound_end_key nanos (start_key builder source) none))
      forward
    ≡ ok (key_at 10, log) ∷ ok (key_at 20, log) ∷ ok (key_at 300, log) ∷ []
unfolding boundary_iter cmp end_key start_key lower_closed_bound_end_key upper_open_bound_end_key
    to_be_bytes to_be decode from_be_bytes of_be
logs_stored = refl

abbrev a_request : Stream Event
a_request =
    left hog crusher its_bytes (λ d m. ok tt) nanos a_log (table three_entries) policy source refl
      (7 ∷ []) 3 []

abbrev io : List Effect → Effect → Outcome (Unit {0})
io =
    ingest_io hog crusher its_bytes (λ d m. ok tt) nanos a_log (table three_entries) policy source
      refl (key_at 10) log (ok (key_at 20, log) ∷ ok (key_at 300, log) ∷ []) logs_stored refl
      a_request 3 (λ k. false) (7 ∷ [])

handle_data_closed_example :
    handle_data io
      (λ n. 1)
      formats
      RawEventKind.conn
      source
      true
      (received (1 ∷ []) (pos 40) false ∷ [])
      start
    ≡ (
      err "channel closed",
      pause io
          (λ n. 1)
          (pause io
            (λ n. 1)
            (after_append io
              (λ n. 1)
              formats
              RawEventKind.conn
              source
              (key_at 40)
              (1 ∷ [])
              (pos 40)
              false
              start
              "channel closed")),
    )
unfolding cmp event_key
handle_data_closed_example =
    handle_data_closed hog crusher its_bytes (λ d m. ok tt) nanos a_log (table three_entries) policy
      source refl (key_at 10) log (ok (key_at 20, log) ∷ ok (key_at 300, log) ∷ []) logs_stored refl
      (7 ∷ []) 3 [] (λ k. false) (λ n. 1) formats RawEventKind.conn (1 ∷ []) (key_at 40) (1 ∷ [])
      source (pos 40) false [] start refl refl refl (omega arith) (omega arith)
