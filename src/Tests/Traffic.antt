-- ===== src/Tests/Traffic.antt =====
-- Statistics of a source's traffic (src/graphql/statistics.rs).
use giganto.Prelude.{List, ◌≡◌, refl, ℕ, none, some, [], ◌∷◌}
use giganto.Bytes.{Bytes, cmp, to_be}
use giganto.Int64.{pos, to_be_bytes}
use giganto.Outcome.{Outcome, ok, err}
use giganto.Chrono.{nanos}
use giganto.Dispatch.{RawEventKind}
use giganto.Export.File.{returned}
use giganto.Export.Statistics.{max_core_size}
use giganto.Iter.{boundary_iter, decode, next_statistics}
use giganto.Key.{
  builder, start_key, mid_key, end_key, build, lower_closed_bound_end_key, upper_open_bound_end_key,
}
use giganto.Statistics.{Statistics, Item}
use giganto.Statistics.Query.{get_statistics_iter, stats_iters, by_source, info_of}
use giganto.Statistics.Leftover.{by_source_leftover}
use giganto.Tests.{table, source}

-- Statistics of so many connections in a minute.
abbrev stats_of : ℕ → Statistics
stats_of n = record { period = 60; stats = (RawEventKind.conn, n, 100) ∷ [] }

abbrev of_value : Bytes → Outcome Statistics
of_value [] = err "no statistics"
of_value (n ∷ v) = ok (stats_of n)

abbrev per_second : ℕ → ℕ → ℕ × ℕ
per_second period n = (n, period)

abbrev stats_key : ℕ → Bytes
stats_key t = build (end_key (mid_key (start_key builder source) (some (to_be 4 0))) (pos t))

-- "sry"
abbrev other : Bytes
other = 115 ∷ 114 ∷ 121 ∷ []

abbrev item_of : ℕ → Item
item_of t = (stats_key t, stats_of t)

abbrev traffic : List (Bytes × Bytes)
traffic =
    (stats_key 10, 10 ∷ [])
    ∷ (stats_key 20, 20 ∷ [])
    ∷ (stats_key 30, 30 ∷ [])
    ∷ (stats_key 40, 40 ∷ [])
    ∷ []

source_iters :
    stats_iters of_value per_second nanos (table traffic) none source 0 max_core_size
    ≡ (ok (item_of 40) ∷ ok (item_of 30) ∷ ok (item_of 20) ∷ ok (item_of 10) ∷ []) ∷ []
unfolding stats_iters get_statistics_iter cmp end_key start_key mid_key to_be_bytes to_be decode
    next_statistics lower_closed_bound_end_key upper_open_bound_end_key boundary_iter
source_iters = refl

other_iters : stats_iters of_value per_second nanos (table traffic) none other 0 max_core_size ≡ []
unfolding stats_iters get_statistics_iter cmp end_key start_key mid_key to_be_bytes to_be decode
    next_statistics lower_closed_bound_end_key upper_open_bound_end_key boundary_iter
other_iters = refl

by_source_leftover_example :
    by_source of_value per_second nanos
      (table traffic)
      none
      (RawEventKind.conn ∷ [])
      (source ∷ other ∷ [])
      []
      []
    ≡ some (
        returned (
          ok (
            record {
              source = source;
              stats = info_of of_value per_second (RawEventKind.conn ∷ []) (item_of 40) [] ∷ [];
            }
            ∷ record {
              source = other;
              stats = info_of of_value per_second (RawEventKind.conn ∷ []) (item_of 20) [] ∷ [];
            }
            ∷ [])))
unfolding end_key mid_key start_key to_be to_be_bytes
by_source_leftover_example =
    by_source_leftover of_value per_second nanos (table traffic) (RawEventKind.conn ∷ []) source
      other (item_of 40) (item_of 30) (item_of 20) (item_of 10) [] source_iters other_iters refl
      refl
