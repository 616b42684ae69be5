-- ===== src/Tests/Networks.antt =====
-- Pages of two stores together (src/graphql/network.rs): connections and DNS queries, one of each
-- at the time 20.
use giganto.Prelude.{◌≡◌, refl, true, false, none, some, List, [], ◌∷◌, not}
use giganto.Bytes.{Bytes, cmp, to_be, of_be}
use giganto.Int64.{ℤ, pos, to_be_bytes, from_be_bytes}
use giganto.Outcome.{Outcome, ok, err}
use giganto.Chrono.{nanos, nanos_order}
use giganto.Key.{
  start_key, mid_key, end_key, lower_closed_bound_end_key, upper_open_bound_end_key,
  get_timestamp_from_key,
}
use giganto.Store.{equals, Entry}
use giganto.Iter.{decode}
use giganto.Merge.{merge_all}
use giganto.Page.{Query}
use giganto.Network.{network_connection, Connection}
use giganto.Network.Merged.{network_connection-merge}
use giganto.Network.Ordered.{Ascending, network_connection-Ascending}
use giganto.Network.Stores.{network_raw_events}
use giganto.Network.Stores.Pages.{Filled, network_raw_events-first, network_raw_events-after}
use giganto.Tests.{
  table, table-Scans, three_entries, three_entries-Scans, source, key_at, deserialize,
}

abbrev time_of : Bytes × Bytes → ℤ
time_of item = elim (get_timestamp_from_key nanos item.0) [ ok t ↦ t | err e ↦ pos 0 ]

abbrev same : Bytes × Bytes → Bytes × Bytes
same item = item

abbrev edge : Bytes × Bytes → Outcome (Bytes × Bytes)
edge item = ok item

abbrev queries : List Entry
queries = (key_at 20, 4 ∷ []) ∷ (key_at 30, 5 ∷ []) ∷ []

abbrev filled : List Entry → Filled Bytes
filled entries = (record { store = table entries; deserialize = deserialize }, entries)

abbrev all_events : Query nanos Bytes
all_events = record {
  check = λ v. ok (not (equals v (7 ∷ [])));
  get_start_key = source;
  get_mid_key = none;
  start = some (pos 10);
  end = some (pos 301);
}

network_raw_events-first_example :
    network_raw_events nanos deserialize all_events nanos_order edge
      (filled three_entries).0
      ((filled queries).0 ∷ [])
      none
      none
      (some 3)
      none
    ≡ some (ok ((key_at 10, 1 ∷ []) ∷ (key_at 20, 2 ∷ []) ∷ (key_at 20, 4 ∷ []) ∷ [], false, true))
unfolding cmp end_key start_key mid_key lower_closed_bound_end_key upper_open_bound_end_key
    to_be_bytes to_be decode get_timestamp_from_key merge_all from_be_bytes of_be
network_raw_events-first_example =
    network_raw_events-first nanos nanos_order deserialize all_events edge time_of same
      (filled three_entries) (filled queries ∷ []) (some 3)
      (three_entries-Scans, (table-Scans queries ((refl, tt), (tt, tt)), tt))
      (
        ((refl, refl, refl, refl), ((refl, refl, refl, refl), ((refl, refl, refl, refl), tt))),
        (((refl, refl, refl, refl), ((refl, refl, refl, refl), tt)), tt),
      )

-- The query at 20 is in neither page of two events.
network_raw_events-after_example :
    network_raw_events nanos deserialize all_events nanos_order edge
      (filled three_entries).0
      ((filled queries).0 ∷ [])
      (some (key_at 20))
      none
      (some 2)
      none
    ≡ some (ok ((key_at 30, 5 ∷ []) ∷ (key_at 300, 3 ∷ []) ∷ [], false, false))
unfolding cmp end_key start_key mid_key lower_closed_bound_end_key upper_open_bound_end_key
    to_be_bytes to_be decode get_timestamp_from_key merge_all from_be_bytes of_be
network_raw_events-after_example =
    network_raw_events-after nanos nanos_order deserialize all_events edge time_of same
      (filled three_entries) (filled queries ∷ []) (some 2) (key_at 20) (key_at 20) refl refl
      (three_entries-Scans, (table-Scans queries ((refl, tt), (tt, tt)), tt))
      (((refl, refl, refl, refl), tt), (((refl, refl, refl, refl), tt), tt))

abbrev two_lanes : List (List Entry)
two_lanes = three_entries ∷ queries ∷ []

network_connection-merge_example :
    network_connection nanos nanos_order (λ item. item.0) edge two_lanes 2 true
    ≡ some (ok ((key_at 10, 1 ∷ []) ∷ (key_at 20, 2 ∷ []) ∷ [], false, true))
unfolding end_key start_key to_be_bytes to_be get_timestamp_from_key merge_all from_be_bytes of_be
network_connection-merge_example =
    network_connection-merge nanos nanos_order (λ item. item.0) edge time_of same two_lanes 2 true
      (
        ((refl, refl, refl, refl), ((refl, refl, refl, refl), ((refl, refl, refl, refl), tt))),
        (((refl, refl, refl, refl), ((refl, refl, refl, refl), tt)), tt),
      )

network_connection-Ascending_example :
    (s : Connection (Bytes × Bytes)) × (network_connection nanos nanos_order
        (λ item. item.0)
        edge
        two_lanes
        4
        true
      ≡ some (ok s))
    × Ascending nanos nanos_order (λ item. item.0) edge time_of same time_of (λ x. refl) s.0
unfolding end_key start_key to_be_bytes to_be get_timestamp_from_key from_be_bytes of_be
network_connection-Ascending_example =
    network_connection-Ascending nanos nanos_order (λ item. item.0) edge time_of same time_of
      (λ x. refl) two_lanes 4 true
      (
        ((refl, refl, refl, refl), ((refl, refl, refl, refl), ((refl, refl, refl, refl), tt))),
        (((refl, refl, refl, refl), ((refl, refl, refl, refl), tt)), tt),
      )
      (((refl, (refl, tt)), ((refl, tt), (tt, tt))), (((refl, tt), (tt, tt)), tt))
