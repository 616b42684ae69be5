-- ===== src/Tests/Exports.antt =====
-- Exports of a store of three events and of statistics (src/graphql/export.rs).
use giganto.Prelude.{List, ◌≡◌, refl, ℕ, false, none, some, [], ◌∷◌, ◌++◌}
use giganto.Bytes.{Bytes, cmp, to_be, of_be}
use giganto.Int64.{pos, to_be_bytes, from_be_bytes}
use giganto.Outcome.{Outcome, ok, err}
use giganto.Chrono.{nanos}
use giganto.Key.{start_key, mid_key, end_key, lower_closed_bound_end_key, upper_open_bound_end_key}
use giganto.Families.{Accessor, member}
use giganto.Filter.{Text, Fields, check_address, check_port, check_network}
use giganto.Iter.{decode}
use giganto.Export.{
  ExportFilter, find_protocol, export_by_protocol, validate, export, get_mid_key, check_export,
}
use giganto.Export.Protocols.{is_endpoint, export_agent}
use giganto.Export.File.{
  returned, panicked, parse_key, seconds, tab, Output, line, write_line, write_accepted,
  write_filtered_data_to_file, process_export,
}
use giganto.Export.File.Written.{process_export-writes}
use giganto.Export.Statistics.{
  export_statistic_file, first_values, next_ok, write_merged, select_min, advance,
}
use giganto.Tests.{table, three_entries, three_entries-Scans, source, key_at, deserialize}

abbrev lossy : Bytes → Text
lossy s = s

abbrev no_fields : Fields
no_fields = record {
  orig_addr = none;
  resp_addr = none;
  orig_port = none;
  resp_port = none;
  log_level = none;
  log_contents = none;
  text = none;
  source = none;
}

-- A time is shown as its nanoseconds, a value as its bytes.
abbrev plain : Output Bytes
plain = record {
  fields = λ v. no_fields;
  parse = λ s. err "no address";
  from_utf8_lossy = lossy;
  time_text = λ secs n. some (n ∷ []);
  display = λ v. v;
  json = λ v t s. ok v;
  writes = λ file. ok tt;
}

abbrev conn_filter : ExportFilter nanos
conn_filter = record {
  protocol = "conn";
  source_id = source;
  agent_name = none;
  agent_id = none;
  kind = none;
  start = some (pos 10);
  end = some (pos 301);
  orig_addr = none;
  resp_addr = none;
  orig_port = none;
  resp_port = none;
}

abbrev printed : Bytes × Bytes → Text
printed r = elim (parse_key lossy r.0) [
  | panicked p ↦ []
  | returned x ↦ elim x [
    | err e ↦ []
    | ok p ↦ elim (seconds p.1) [ none ↦ [] | some t ↦ (t.1 ∷ []) ++ tab ++ p.0 ++ tab ++ r.1 ]
  ]
]

one_line : (n : ℕ) → Text → Text
one_line n v = (n ∷ []) ++ tab ++ source ++ tab ++ v

process_export-writes_example :
    process_export nanos plain conn_filter "csv" deserialize (table three_entries) (ok tt) []
    ≡ (returned (ok tt), one_line 10 (1 ∷ []) ∷ one_line 20 (2 ∷ []) ∷ one_line 300 (3 ∷ []) ∷ [])
unfolding cmp end_key start_key mid_key lower_closed_bound_end_key upper_open_bound_end_key
    to_be_bytes to_be decode of_be from_be_bytes parse_key line get_mid_key check_export
    check_network check_address check_port one_line
process_export-writes_example =
    process_export-writes nanos plain conn_filter "csv" (λ file. refl) printed deserialize
      (table three_entries) three_entries [] three_entries-Scans
      (
        record {
          source = source;
          timestamp = pos 10;
          time = (pos 0, 10);
          parses = refl;
          divides = refl;
          prints = refl;
        },
        (
          record {
            source = source;
            timestamp = pos 20;
            time = (pos 0, 20);
            parses = refl;
            divides = refl;
            prints = refl;
          },
          (
            record {
              source = source;
              timestamp = pos 300;
              time = (pos 0, 300);
              parses = refl;
              divides = refl;
              prints = refl;
            },
            tt,
          ),
        ),
      )

-- A request for logs that names an agent.
abbrev agent_filter : ExportFilter nanos
agent_filter = record conn_filter { protocol = "log"; agent_name = some (65 ∷ []) }

export_agent_example : is_endpoint Accessor.log ≡ false
unfolding export validate export_by_protocol find_protocol member
export_agent_example =
    export_agent nanos "csv" agent_filter (ok tt) (65 ∷ []) Accessor.log refl refl

abbrev two_cores : List (List (Outcome (Bytes × Bytes)))
two_cores =
    (ok (key_at 20, 2 ∷ []) ∷ []) ∷ (ok (key_at 10, 1 ∷ []) ∷ ok (key_at 300, 3 ∷ []) ∷ []) ∷ []

-- The records of two cores are written in the order of their timestamps.
two_cores_written :
    export_statistic_file nanos plain conn_filter "csv" (ok tt) two_cores []
    ≡ some
        (returned (ok tt), one_line 10 (1 ∷ []) ∷ one_line 20 (2 ∷ []) ∷ one_line 300 (3 ∷ []) ∷ [])
unfolding export_statistic_file first_values next_ok write_merged select_min advance cmp end_key
    start_key to_be_bytes to_be of_be from_be_bytes parse_key line write_line write_accepted
    write_filtered_data_to_file check_export check_network check_address check_port one_line
two_cores_written = refl
