-- ===== src/Ingest/EventKey/Laws.antt =====
-- The kinds whose keys are a source and a timestamp are those that the retention of whole ranges
-- covers (src/ingest.rs, src/storage.rs).
use giganto.Prelude.{◌≡◌, refl, true, Option, some, String}
use giganto.Bytes.{Bytes}
use giganto.Int64.{ℤ}
use giganto.Outcome.{ok}
use giganto.Key.{builder, start_key, end_key, build}
use giganto.Families.{Accessor}
use giganto.Families.Laws.{is_standard}
use giganto.Dispatch.{
  RawEventKind, log, periodic_time_series, op_log, packet, statistics, secu_log, ingest_handler,
}
use giganto.Ingest.EventKey.{Formats, event_key}

-- An event of a kind whose store `retain_period_store` returns is stored unchanged, under its
-- source and its timestamp.
pub event_key-standard :
    (formats : Formats) (kind : RawEventKind) (source raw : Bytes) (ts : ℤ) (a : Accessor)
    (protocol : Option String)
    → ingest_handler kind ≡ some (a, protocol)
    → is_standard a ≡ true
    → event_key formats kind source raw ts ≡ ok (build (end_key (start_key builder source) ts), raw)
unfolding event_key ingest_handler
event_key-standard formats log source raw ts a p h k = cc
event_key-standard formats periodic_time_series source raw ts a p h k = cc
event_key-standard formats op_log source raw ts a p h k = cc
event_key-standard formats packet source raw ts a p h k = cc
event_key-standard formats statistics source raw ts a p h k = cc
event_key-standard formats secu_log source raw ts a p h k = cc
event_key-standard formats _ source raw ts a p h k = refl
