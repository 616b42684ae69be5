-- ===== src/Tests/Searches.antt =====
-- A search by timestamps in a store of three events (src/graphql/network.rs).
use giganto.Prelude.{◌≡◌, refl, ◌↔◌, Option, none, some, List, [], ◌∷◌}
use giganto.Bytes.{Bytes, cmp, to_be}
use giganto.Chrono.{nanos, nanos_order}
use giganto.Filter.{Fields, SearchFilter, check_search, check_network}
use giganto.Int64.{ℤ, pos, to_be_bytes}
use giganto.Key.{end_key, start_key}
use giganto.Outcome.{err}
use giganto.Search.{insert, exist, search}
use giganto.Search.Found.{In, Stored, Admitted, search-Found}
use giganto.Tests.{table, three_entries, source, deserialize}

abbrev no_fields : Fields
no_fields = record {
  orig_addr = none;
  resp_addr = none;
  orig_port = none;
  resp_port = none;
  log_level = none;
  log_contents = none;
  text = none;
  source = none;
}

abbrev any_event : SearchFilter
any_event = record {
  network = record { orig_addr = none; resp_addr = none; orig_port = none; resp_port = none };
  keyword = none;
}

abbrev until_300 : Option (Option ℤ × Option ℤ)
until_300 = some (some (pos 10), some (pos 300))

abbrev found_times : List ℤ
found_times =
    search nanos nanos_order until_300 (λ s. err "no address") (λ s. s) (λ v. no_fields) deserialize
      any_event (table three_entries) source (pos 20 ∷ pos 300 ∷ pos 15 ∷ pos 10 ∷ pos 20 ∷ [])

-- Sorted, without repetitions, without what is not there and without the end.
two_found : found_times ≡ pos 10 ∷ pos 20 ∷ []
unfolding search cmp end_key start_key to_be_bytes to_be insert exist check_search check_network
two_found = refl

search-Found_example : In (pos 10) found_times ↔ (
    In (pos 10) (pos 20 ∷ pos 300 ∷ pos 15 ∷ pos 10 ∷ pos 20 ∷ [])
    × ((value : Bytes) × Stored nanos nanos_order (table three_entries) source (pos 10) value
        × Admitted nanos nanos_order until_300
            (λ s. err "no address")
            (λ s. s)
            (λ v. no_fields)
            deserialize
            any_event
            (pos 10)
            value))
search-Found_example =
    search-Found nanos nanos_order until_300 (λ s. err "no address") (λ s. s) (λ v. no_fields)
      deserialize any_event (table three_entries) source
      (pos 20 ∷ pos 300 ∷ pos 15 ∷ pos 10 ∷ pos 20 ∷ []) (pos 10)
