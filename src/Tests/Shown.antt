-- ===== src/Tests/Shown.antt =====
-- An operation log, from its ingestion to the query for it (src/ingest.rs, src/graphql/log.rs).
use giganto.Prelude.{◌≡◌, ◌^◌, refl, none, some, List, [], ◌∷◌, arith, inl}
use giganto.Bytes.{Bytes, cmp, to_be}
use giganto.Chrono.{nanos}
use giganto.Dispatch.{op_log}
use giganto.Events.{nothing}
use giganto.Filter.{Fields, check_op_log}
use giganto.Filter.Keys.{op_log_query}
use giganto.Ingest.EventKey.{Formats, event_key}
use giganto.Int64.{pos, to_be_bytes}
use giganto.Key.{
  builder, start_key, mid_key, end_key, build, lower_closed_bound_end_key, upper_open_bound_end_key,
}
use giganto.Iter.{decode}
use giganto.Outcome.{ok}
use giganto.Page.{Query}
use giganto.Page.Shown.{walk-event_key}
use giganto.Page.Walk.{walk}
use giganto.Search.Found.{In}
use giganto.Store.{Entry}
use giganto.Tests.{with_timestamp, table, table-Scans, source, deserialize}
use giganto.Tests.Streams.{formats}

-- The agent "a".
abbrev log_formats : Formats
log_formats = record formats { op_log_agent_name = λ raw. ok (97 ∷ []) }

abbrev agent : Bytes
agent = 97 ∷ 64 ∷ source

-- The first byte of an event is its level.
abbrev fields : Bytes → Fields
fields raw = record nothing { log_level = some raw }

-- The logs of that agent of the level 5, from 10 on.
abbrev filter : Query nanos Bytes
filter =
    op_log_query nanos fields (record { log_level = some (5 ∷ []); contents = none }) agent
      (some (some (pos 10), none))

abbrev log_key : Bytes
log_key = build (end_key (start_key builder agent) (pos 20))

abbrev logs : List Entry
logs = (log_key, 5 ∷ []) ∷ []

walk-event_key_example :
    (nodes : List Bytes) × (walk nanos deserialize deserialize
        (λ k. k)
        with_timestamp
        (table logs)
        filter
        1
        2
        none
      ≡ some nodes)
    × In (5 ∷ []) nodes
unfolding cmp end_key start_key mid_key lower_closed_bound_end_key upper_open_bound_end_key
    to_be_bytes to_be decode event_key check_op_log
walk-event_key_example =
    walk-event_key nanos deserialize deserialize (λ k. k) (λ key. refl) with_timestamp (λ r. r.1)
      (table logs) filter logs (table-Scans logs (tt, tt)) 1 (omega arith) log_formats op_log source
      (5 ∷ []) log_key (5 ∷ []) (5 ∷ []) 20 10 (2 ^ 63) 2 refl (inl refl)
      (97 ∷ [], refl, refl, refl) refl refl refl refl (omega arith) (omega arith) (omega arith)
      (refl, tt) (omega arith)
