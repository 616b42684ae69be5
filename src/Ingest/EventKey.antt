-- ===== src/Ingest/EventKey.antt =====
-- The storage key of an event by its kind: the `match` in `handle_data` of src/ingest.rs. What it
-- reads of an event with `bincode` is a parameter.
pub mod Laws
use giganto.Prelude.{ℕ, Option, none, some, List, [], ◌∷◌, ◌++◌}
use giganto.Bytes.{Bytes, to_be}
use giganto.Int64.{ℤ, to_be_bytes}
use giganto.Outcome.{Outcome, ok, err, ◌>>=◌}
use giganto.Key.{builder, start_key, mid_key, end_key, build}
use giganto.Dispatch.{RawEventKind, log, periodic_time_series, op_log, packet, statistics, secu_log}

-- What deserialising an event gives, field by field.
pub record Formats : Type 0 where
  pub log_kind : Bytes → Outcome Bytes
  pub time_series_id : Bytes → Outcome Bytes
  pub op_log_agent_name : Bytes → Outcome Bytes
  pub packet_timestamp : Bytes → Outcome ℤ
  pub statistics_core : Bytes → Outcome ℕ
  pub secu_log_kind : Bytes → Outcome Bytes
  -- the event with its source replaced, serialised again
  pub secu_log_with_source : Bytes → Bytes → Outcome Bytes

module _ (formats : Formats) where
  open formats use {
    log_kind, time_series_id, op_log_agent_name, packet_timestamp, statistics_core, secu_log_kind,
    secu_log_with_source,
  }

  -- The key, and the event as it is stored.
  unfoldable pub event_key : RawEventKind → Bytes → Bytes → ℤ → Outcome (Bytes × Bytes)
  event_key log source raw timestamp = do
    kind ← log_kind raw
    ok (build (end_key (mid_key (start_key builder source) (some kind)) timestamp), raw)
  event_key periodic_time_series source raw timestamp = do
    id ← time_series_id raw
    ok (build (end_key (start_key builder id) timestamp), raw)
  event_key op_log source raw timestamp = do
    agent_name ← op_log_agent_name raw
    ok (build (end_key (start_key builder (agent_name ++ 64 ∷ source)) timestamp), raw)
  event_key packet source raw timestamp = do
    packet_time ← packet_timestamp raw
    ok (
      build
          (end_key (mid_key (start_key builder source) (some (to_be_bytes timestamp))) packet_time),
      raw,
    )
  event_key statistics source raw timestamp = do
    core ← statistics_core raw
    ok (build (end_key (mid_key (start_key builder source) (some (to_be 4 core))) timestamp), raw)
  event_key secu_log source raw timestamp = do
    raw' ← secu_log_with_source source raw
    kind ← secu_log_kind raw
    ok (build (end_key (start_key builder kind) timestamp), raw')
  event_key _ source raw timestamp = ok (build (end_key (start_key builder source) timestamp), raw)
