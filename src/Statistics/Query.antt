-- ===== src/Statistics/Query.antt =====
-- The statistics of sources (src/graphql/statistics.rs): `statistics`, `get_statistics_iter` and
-- `gen_statistics`. `calculate_ps`, the quotient of two numbers as a float, is a parameter.
use giganto.Prelude.{
  ℕ, zero, suc, ◌*◌, ◌%◌, ◌^◌, Bool, Option, none, some, List, [], ◌∷◌, ◌++◌, map, not, every,
  if◌then◌else◌, String,
}
use giganto.Bytes.{Bytes, to_be}
use giganto.Outcome.{Outcome, ok, err}
use giganto.Chrono.{Chrono}
use giganto.Dispatch.{RawEventKind}
use giganto.Export.File.{Ended, returned, panicked}
use giganto.Export.Statistics.{max_core_size, get_elem?, set, remove_at, items_left, has_timestamp}
use giganto.Key.{
  builder, start_key, mid_key, build, lower_closed_bound_end_key, upper_open_bound_end_key,
}
use giganto.Store.{RawEventStore, reverse_order}
use giganto.Iter.{boundary_iter, next_statistics}
use giganto.Page.{is_some}
use giganto.Statistics.{
  Statistics, same_kind, requested_kinds, Item, StatisticsIter, latest_of, timestamp_of, collect,
  StatisticsDetail, StatisticsInfo, StatisticsRawEvent, byte_to_bit,
}

module _ (deserialize : Bytes → Outcome Statistics) {F : Type 0} (calculate_ps : ℕ → ℕ → F) where
  -- The values of the selected iterators are replaced by the following ones.
  unfoldable pub replace :
      List ℕ → List Item → List StatisticsIter → List Item × List StatisticsIter
  unfolding next_statistics
  replace [] values iters = (values, iters)
  replace (i ∷ indices) values iters = elim (get_elem? iters i) [
    | none ↦ replace indices values iters
    | some iter ↦
        let (item, rest) = next_statistics deserialize iter in
        elim item [
          | none ↦ replace indices (remove_at values i) (remove_at iters i)
          | some v ↦ replace indices (set values i v) (set iters i rest)
        ]
  ]

  unfoldable pub detail_of : ℕ → RawEventKind × ℕ × ℕ → StatisticsDetail F
  detail_of period (kind, count, size) =
      if same_kind kind RawEventKind.statistics
      then record {
        protocol = kind;
        bps = some (calculate_ps period ((size * byte_to_bit) % 2 ^ 64));
        pps = some (calculate_ps period count);
        eps = none;
      }
      else record {
        protocol = kind;
        bps = none;
        pps = none;
        eps = some (calculate_ps period count);
      }

  -- The first values of the iterators; one without a value stays among the iterators.
  unfoldable pub next_values : List StatisticsIter → List Item × List StatisticsIter
  unfolding next_statistics
  next_values [] = ([], [])
  next_values (iter ∷ iters) =
      let (values, behind) = next_values iters in
      let (item, rest) = next_statistics deserialize iter in
      elim item [ none ↦ (values, rest ∷ behind) | some v ↦ (v ∷ values, rest ∷ behind) ]

  abbrev pub Generated : Type 0
  Generated = Ended (List (StatisticsInfo F)) × List StatisticsIter

  -- What one round adds.
  unfoldable pub info_of : List RawEventKind → Item → List Item → StatisticsInfo F
  info_of kinds v values =
      let latest = latest_of v values in
      let timestamp = timestamp_of latest.0 in
      record {
        timestamp = timestamp;
        detail = map (detail_of latest.1.period) (collect kinds timestamp 0 (v ∷ values) [] []).0;
      }

  -- The iterators that a round moves on.
  unfoldable pub candidates : List RawEventKind → Item → List Item → List ℕ
  candidates kinds v values =
      (collect kinds (timestamp_of (latest_of v values).0) 0 (v ∷ values) [] []).1

  -- The loop, over the values, the iterators and the results. `none` is that the rounds run out.
  unfoldable pub gen_loop :
      ℕ
      → Bool
      → List RawEventKind
      → List Item
      → List StatisticsIter
      → List (StatisticsInfo F)
      → Option Generated
  gen_loop zero latest_flag kinds values iters stats = none
  gen_loop (suc rounds) latest_flag kinds [] iters stats = some (returned (ok stats), iters)
  gen_loop (suc rounds) latest_flag kinds (v ∷ values) iters stats =
      let stats' = stats ++ info_of kinds v values ∷ [] in
      let (values', iters') = replace (candidates kinds v values) (v ∷ values) iters in
      let later = gen_loop rounds latest_flag kinds values' iters' stats' in
      if every has_timestamp (v ∷ values)
      then (if latest_flag then some (returned (ok stats'), iters') else later)
      else some (panicked "attempt to subtract with overflow", iters)

  unfoldable pub gen_statistics :
      List StatisticsIter
      → Bytes
      → Bool
      → List RawEventKind
      → Option (Ended (StatisticsRawEvent F) × List StatisticsIter)
  gen_statistics iters source latest_flag kinds =
      let (values, behind) = next_values iters in
      elim (gen_loop (suc (items_left iters)) latest_flag kinds values behind []) [
        | none ↦ none
        | some (panicked p, left) ↦ some (panicked p, left)
        | some (returned (err e), left) ↦ some (returned (err e), left)
        | some (returned (ok stats), left) ↦
            some (returned (ok (record { source = source; stats = stats })), left)
      ]

  module _ (c : Chrono) (store : RawEventStore)
      (time : Option (Option (c.DateTime) × Option (c.DateTime))) where
    abbrev pub start_time : Option (c.DateTime)
    start_time = elim time [ none ↦ none | some t ↦ t.0 ]

    abbrev pub end_time : Option (c.DateTime)
    end_time = elim time [ none ↦ none | some t ↦ t.1 ]

    unfoldable pub get_statistics_iter : ℕ → Bytes → StatisticsIter
    get_statistics_iter core_id source =
        let key_builder = mid_key (start_key builder source) (some (to_be 4 core_id)) in
        boundary_iter deserialize store (build (upper_open_bound_end_key c key_builder end_time))
          (build (lower_closed_bound_end_key c key_builder start_time)) reverse_order

    -- The iterators of a number of cores from one on whose `peek` is a value.
    unfoldable pub stats_iters : Bytes → ℕ → ℕ → List StatisticsIter
    unfolding get_statistics_iter next_statistics
    stats_iters source core zero = []
    stats_iters source core (suc n) =
        let iter = get_statistics_iter core source in
        let later = stats_iters source (suc core) n in
        if is_some (next_statistics deserialize iter).0 then iter ∷ later else later

    -- The loop over the sources: what is left of the iterators of one is there for the next.
    unfoldable pub by_source :
        List RawEventKind
        → List Bytes
        → List StatisticsIter
        → List (StatisticsRawEvent F)
        → Option (Ended (List (StatisticsRawEvent F)))
    by_source kinds [] iters total_stats = some (returned (ok total_stats))
    by_source kinds (source ∷ sources) iters total_stats =
        elim (gen_statistics (iters ++ stats_iters source 0 max_core_size) source
          (not (is_some time)) kinds) [
            | none ↦ none
            | some (panicked p, left) ↦ some (panicked p)
            | some (returned (err e), left) ↦ some (returned (err e))
            | some (returned (ok stats), left) ↦
                by_source kinds sources left (total_stats ++ stats ∷ [])
          ]

    unfoldable pub statistics :
        (String → RawEventKind)
        → List Bytes
        → Option (List String)
        → Option (Ended (List (StatisticsRawEvent F)))
    unfolding by_source
    statistics from_str sources protocols = elim (requested_kinds from_str protocols) [
      | err e ↦ some (returned (err e))
      | ok kinds ↦ by_source kinds sources [] []
    ]
