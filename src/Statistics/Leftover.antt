-- ===== src/Statistics/Leftover.antt =====
-- What the statistics of one source leave for the next (`statistics` and `gen_statistics` of
-- src/graphql/statistics.rs).
use giganto.Prelude.{◌≡◌, refl, ℕ, true, Ordering, none, some, List, [], ◌∷◌, arith}
use giganto.Bytes.{Bytes}
use giganto.Int64.{ℤ, pos, negsuc, cmp_ℤ}
use giganto.Outcome.{Outcome, ok}
use giganto.Chrono.{Chrono}
use giganto.Dispatch.{RawEventKind}
use giganto.Export.File.{returned}
use giganto.Export.Statistics.{has_timestamp, max_core_size}
use giganto.Iter.{next_statistics}
use giganto.Store.{RawEventStore}
use giganto.Statistics.{Statistics, Item, StatisticsIter, latest_of, timestamp_of, at_time, collect}
use giganto.Statistics.Query.{
  candidates, replace, next_values, info_of, gen_loop, gen_statistics, stats_iters, by_source,
}

pub cmp_ℤ_refl : (z : ℤ) → cmp_ℤ z z ≡ Ordering.eq
cmp_ℤ_refl (pos n) = ground arith
cmp_ℤ_refl (negsuc n) = ground arith

module _ (deserialize : Bytes → Outcome Statistics) {F : Type 0} (calculate_ps : ℕ → ℕ → F) where
  -- With one iterator, its value is the one that is replaced.
  one_candidate :
      (kinds : List RawEventKind) (v : Item)
      → candidates deserialize calculate_ps kinds v [] ≡ 0 ∷ []
  unfolding candidates latest_of collect
  one_candidate kinds v = rw (candidates, at_time, cmp_ℤ_refl (timestamp_of v.0)) refl

  replaced_once :
      (v w : Item) (rest : StatisticsIter)
      → replace deserialize calculate_ps (0 ∷ []) (v ∷ []) ((ok w ∷ rest) ∷ [])
        ≡ (w ∷ [], rest ∷ [])
  unfolding replace next_statistics
  replaced_once v w rest = refl

  first_only :
      (source : Bytes) (kinds : List RawEventKind) (v w : Item) (rest : StatisticsIter)
      → has_timestamp v ≡ true
      → gen_statistics deserialize calculate_ps ((ok v ∷ ok w ∷ rest) ∷ []) source true kinds
        ≡ some (
          returned (
              ok (record {
                source = source;
                stats = info_of deserialize calculate_ps kinds v [] ∷ [];
              })),
          rest ∷ [],
        )
  unfolding gen_statistics next_values gen_loop next_statistics
  first_only source kinds v w rest t =
      rw (gen_statistics, gen_loop, one_candidate kinds v, replaced_once v w rest, t) refl

  -- Without a time range, where a source has statistics of one core only, of at least four moments,
  -- and the source behind it in the request has none, the answer for the latter is made of the
  -- third latest statistics of the former.
  pub by_source_leftover :
      (c : Chrono) (store : RawEventStore) (kinds : List RawEventKind) (source other : Bytes)
      (x y z w : Item) (rest : StatisticsIter)
      → stats_iters deserialize calculate_ps c store none source 0 max_core_size
        ≡ (ok x ∷ ok y ∷ ok z ∷ ok w ∷ rest) ∷ []
      → stats_iters deserialize calculate_ps c store none other 0 max_core_size ≡ []
      → has_timestamp x ≡ true
      → has_timestamp z ≡ true
      → by_source deserialize calculate_ps c store none kinds (source ∷ other ∷ []) [] []
        ≡ some (
            returned (
              ok (
                record { source = source; stats = info_of deserialize calculate_ps kinds x [] ∷ [] }
                ∷ record {
                  source = other;
                  stats = info_of deserialize calculate_ps kinds z [] ∷ [];
                }
                ∷ [])))
  unfolding by_source
  by_source_leftover c store kinds source other x y z w rest h k t u =
      rw
        (
          by_source,
          h,
          first_only source kinds x y (ok z ∷ ok w ∷ rest) t,
          k,
          first_only other kinds z w rest u,
        )
        refl
