-- ===== src/Filter/Keys.antt =====
-- The filters of the paged queries with their keys: `KeyExtractor` and `RawEventFilter` of
-- src/graphql/network.rs, src/graphql/log.rs, src/graphql/timeseries.rs and
-- src/graphql/security.rs. What a filter reads of an event is a parameter.
use giganto.Prelude.{Bool, true, Option, none, some}
use giganto.Bytes.{Bytes}
use giganto.Outcome.{Outcome, ok}
use giganto.Chrono.{Chrono}
use giganto.Filter.{
  Text, IpAddr, Fields, NetworkFilter, OpLogFilter, SecuLogFilter, check_network_filter,
  check_op_log, check_secu_log,
}
use giganto.Page.{Query}

module _ (c : Chrono) {T : Type 0} (fields : T → Fields) where
  open c use {DateTime}

  abbrev pub TimeRange : Type 0
  TimeRange = Option (Option DateTime × Option DateTime)

  -- `get_start_key`, `get_mid_key` and `get_range_end_key`.
  abbrev pub keyed_query : (T → Outcome Bool) → Bytes → Option Bytes → TimeRange → Query c T
  keyed_query check start_key mid_key time = record {
    check = check;
    get_start_key = start_key;
    get_mid_key = mid_key;
    start = elim time [ none ↦ none | some t ↦ t.0 ];
    end = elim time [ none ↦ none | some t ↦ t.1 ];
  }

  abbrev pub log_query : Bytes → Option Bytes → TimeRange → Query c T
  log_query source kind time = keyed_query (λ e. ok true) source kind time

  abbrev pub time_series_query : Bytes → TimeRange → Query c T
  time_series_query id time = keyed_query (λ e. ok true) id none time

  abbrev pub op_log_query : OpLogFilter → Bytes → TimeRange → Query c T
  op_log_query filter agent_id time =
      keyed_query (λ e. check_op_log filter (fields e)) agent_id none time

  module _ (parse : Text → Outcome IpAddr) where
    abbrev pub network_events : NetworkFilter → Bytes → TimeRange → Query c T
    network_events filter source time =
        keyed_query (λ e. check_network_filter parse filter (fields e)) source none time

    abbrev pub secu_log_query : SecuLogFilter → Bytes → TimeRange → Query c T
    secu_log_query filter kind time =
        keyed_query (λ e. check_secu_log parse filter (fields e)) kind none time
