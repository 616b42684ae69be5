-- ===== src/Statistics/Ends.antt =====
-- The loop of `gen_statistics` (src/graphql/statistics.rs) ends.
use giganto.Prelude.{
  ◌≡◌, refl, ℕ, zero, suc, ◌+◌, ◌<◌, ◌≤◌, Bool, true, false, Option, none, some, List, [], ◌∷◌,
  ◌++◌, length, every, arith, Option-cases, inl, inr, if◌then◌else◌,
}
use giganto.Bytes.{Bytes}
use giganto.Outcome.{Outcome, ok, err}
use giganto.Dispatch.{RawEventKind}
use giganto.Export.File.{Ended, returned, panicked}
use giganto.Export.Statistics.{has_timestamp, set, remove_at, items_left}
use giganto.Export.Statistics.Ends.{
  length-set, length-remove_at, items_left-set, items_left-remove_at, get_elem-found,
}
use giganto.Iter.{next_statistics}
use giganto.Statistics.{
  Statistics, Item, StatisticsIter, StatisticsInfo, StatisticsRawEvent, latest_of, timestamp_of,
  at_time,
}
use giganto.Statistics.Query.{
  candidates, replace, next_values, info_of, gen_loop, gen_statistics, Generated,
}
use giganto.Statistics.Selected.{
  Falls, Falls-mono, collect-Falls, collect-more, latest_of-any, at_time_refl,
}

module _ (deserialize : Bytes → Outcome Statistics) {F : Type 0} (calculate_ps : ℕ → ℕ → F) where
  taken_shorter :
      (iter : StatisticsIter) (v : Item)
      → (next_statistics deserialize iter).0 ≡ some v
      → length (next_statistics deserialize iter).1 < length iter
  unfolding next_statistics
  taken_shorter [] v h = cc
  taken_shorter (ok item ∷ rest) v h = omega arith
  taken_shorter (err e ∷ rest) v h = cc

  taken_rest : (iter : StatisticsIter) → length (next_statistics deserialize iter).1 ≤ length iter
  unfolding next_statistics
  taken_rest [] = omega arith
  taken_rest (ok item ∷ rest) = omega arith
  taken_rest (err e ∷ rest) = omega arith

  -- What a replacement leaves: every index is an item or a value less.
  abbrev Leaves : ℕ → ℕ → List Item × List StatisticsIter → Type 0
  Leaves n m r = (items_left r.1 + length r.0 + n ≤ m) × (length r.0 ≤ length r.1)

  replace-Leaves :
      (indices : List ℕ) (values : List Item) (iters : List StatisticsIter)
      → Falls (length values) indices
      → length values ≤ length iters
      → Leaves
          (length indices)
          (items_left iters + length values)
          (replace deserialize calculate_ps indices values iters)
  unfolding replace
  replace-Leaves [] values iters f k = (omega arith, k)
  replace-Leaves (i ∷ indices) values iters f k =
      let (iter, g) = get_elem-found iters i (omega (arith, f.0, k)) in
      let rest = (next_statistics deserialize iter).1 in
      let fewer = length-remove_at values i f.0 in
      let fewer_iters = length-remove_at iters i (omega (arith, f.0, k)) in
      let left = items_left-remove_at iters i in
      let n = length-set values i in
      let n' = length-set iters i rest in
      let sum = items_left-set iters i iter rest g in
      elim (Option-cases (next_statistics deserialize iter).0) [
        | inl e ↦
            let ih =
              replace-Leaves indices (remove_at values i) (remove_at iters i)
                (Falls-mono i (length (remove_at values i)) indices (omega (arith, f.0, fewer)) f.1)
                (omega (arith, fewer, fewer_iters, k)) in
            rw (replace, g, e) (omega (arith, ih.0, fewer, left), ih.1)
        | inr (v, e) ↦
            let short = taken_shorter iter v e in
            let ih =
              replace-Leaves indices (set values i v) (set iters i rest)
                (Falls-mono i (length (set values i v)) indices (omega (arith, f.0, n v)) f.1)
                (omega (arith, n v, n', k)) in
            rw (replace, g, e) (omega (arith, ih.0, n v, sum, short), ih.1)
      ]

  abbrev Ends {ℓ} : {A : Type ℓ} → Option A → Type ℓ
  Ends {A = A} r = (a : A) × (r ≡ some a)

  next_values-Less :
      (iters : List StatisticsIter)
      → (items_left (next_values deserialize calculate_ps iters).1
            + length (next_values deserialize calculate_ps iters).0
          ≤ items_left iters)
        × (length (next_values deserialize calculate_ps iters).0
            ≤ length (next_values deserialize calculate_ps iters).1)
  unfolding next_values
  next_values-Less [] = (omega arith, omega arith)
  next_values-Less (iter ∷ iters) =
      let ih = next_values-Less iters in
      elim (Option-cases (next_statistics deserialize iter).0) [
        | inl e ↦ rw (next_values, e) (omega (arith, taken_rest iter, ih.0), omega (arith, ih.1))
        | inr (v, e) ↦
            let short = taken_shorter iter v e in
            rw (next_values, e) (omega (arith, short, ih.0), omega (arith, ih.1))
      ]

  candidates-Falls :
      (kinds : List RawEventKind) (v : Item) (values : List Item)
      → Falls (suc (length values)) (candidates deserialize calculate_ps kinds v values)
  unfolding candidates
  candidates-Falls kinds v values =
      Falls-mono (0 + length (v ∷ values)) (suc (length values)) _ (omega arith)
        (collect-Falls kinds (timestamp_of (latest_of v values).0) 0 (v ∷ values) [] [] tt)

  candidates-some :
      (kinds : List RawEventKind) (v : Item) (values : List Item)
      → 0 < length (candidates deserialize calculate_ps kinds v values)
  unfolding candidates
  candidates-some kinds v values =
      let t = timestamp_of (latest_of v values).0 in
      (collect-more kinds t 0 (v ∷ values) [] []).1
        (latest_of-any (at_time t) v values (at_time_refl (latest_of v values)))

  -- What follows a round.
  after_round :
      Bool
      → Bool
      → Generated deserialize calculate_ps
      → Generated deserialize calculate_ps
      → Option (Generated deserialize calculate_ps)
      → Option (Generated deserialize calculate_ps)
  after_round timestamps latest_flag first panic later =
      if timestamps then (if latest_flag then some first else later) else some panic

  after :
      (timestamps latest_flag : Bool) (first panic : Generated deserialize calculate_ps)
      (later : Option (Generated deserialize calculate_ps))
      → Ends later
      → Ends (after_round timestamps latest_flag first panic later)
  unfolding after_round
  after false latest_flag first panic later h = (panic, refl)
  after true true first panic later h = (first, refl)
  after true false first panic later h = h

  gen_loop-Ends :
      (rounds : ℕ) (latest_flag : Bool) (kinds : List RawEventKind) (values : List Item)
      (iters : List StatisticsIter) (stats : List (StatisticsInfo F))
      → items_left iters + length values < rounds
      → length values ≤ length iters
      → Ends (gen_loop deserialize calculate_ps rounds latest_flag kinds values iters stats)
  unfolding gen_loop after_round
  gen_loop-Ends zero latest_flag kinds values iters stats h k = absurd (omega (arith, h))
  gen_loop-Ends (suc n) latest_flag kinds [] iters stats h k = ((returned (ok stats), iters), refl)
  gen_loop-Ends (suc n) latest_flag kinds (v ∷ values) iters stats h k =
      let is = candidates deserialize calculate_ps kinds v values in
      let next = replace deserialize calculate_ps is (v ∷ values) iters in
      let stats' = stats ++ info_of deserialize calculate_ps kinds v values ∷ [] in
      let left = replace-Leaves is (v ∷ values) iters (candidates-Falls kinds v values) k in
      let more = candidates-some kinds v values in
      after (every has_timestamp (v ∷ values)) latest_flag (returned (ok stats'), next.1)
        (panicked "attempt to subtract with overflow", iters)
        (gen_loop deserialize calculate_ps n latest_flag kinds next.0 next.1 stats')
        (gen_loop-Ends n latest_flag kinds next.0 next.1 stats' (omega (arith, left.0, more, h))
          left.1)

  answer_of :
      Bytes
      → Option (Generated deserialize calculate_ps)
      → Option (Ended (StatisticsRawEvent F) × List StatisticsIter)
  answer_of source none = none
  answer_of source (some (panicked p, left)) = some (panicked p, left)
  answer_of source (some (returned (err e), left)) = some (returned (err e), left)
  answer_of source (some (returned (ok stats), left)) =
      some (returned (ok (record { source = source; stats = stats })), left)

  answer-Ends :
      (source : Bytes) (r : Option (Generated deserialize calculate_ps))
      → Ends r
      → Ends (answer_of source r)
  unfolding answer_of
  answer-Ends source none (r, h) = cc
  answer-Ends source (some (panicked p, left)) h = ((panicked p, left), refl)
  answer-Ends source (some (returned (err e), left)) h = ((returned (err e), left), refl)
  answer-Ends source (some (returned (ok stats), left)) h =
      ((returned (ok (record { source = source; stats = stats })), left), refl)

  -- The statistics of a source are made in finitely many rounds, whatever the iterators yield: with
  -- a round for each item and one more, `gen_statistics` returns or panics.
  pub gen_statistics-Ends :
      (iters : List StatisticsIter) (source : Bytes) (latest_flag : Bool)
      (kinds : List RawEventKind)
      → (r : Ended (StatisticsRawEvent F) × List StatisticsIter) × (gen_statistics deserialize
            calculate_ps iters source latest_flag kinds
          ≡ some r)
  unfolding gen_statistics answer_of
  gen_statistics-Ends iters source latest_flag kinds =
      let first = next_values-Less iters in
      let next = next_values deserialize calculate_ps iters in
      answer-Ends source
        (gen_loop deserialize calculate_ps (suc (items_left iters)) latest_flag kinds next.0 next.1
          [])
        (gen_loop-Ends (suc (items_left iters)) latest_flag kinds next.0 next.1 []
          (omega (arith, first.0)) first.1)
