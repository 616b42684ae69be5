-- ===== src/Export/Statistics.antt =====
-- The export of statistics, which merges the records of the cores of a source
-- (`process_statistics_export` and `export_statistic_file` of src/graphql/export.rs).
pub mod Lost
pub mod Ends
use giganto.Prelude.{
  ℕ, zero, suc, ◌+◌, ◌-◌, Bool, true, false, Ordering, Option, none, some, List, [], ◌∷◌, length,
  leb, drop, every, is_empty, if◌then◌else◌, String,
}
use giganto.Bytes.{Bytes, cmp, to_be}
use giganto.Outcome.{Outcome, ok, err}
use giganto.Chrono.{Chrono}
use giganto.Filter.{Text}
use giganto.Store.{RawEventStore, forward}
use giganto.Iter.{boundary_iter}
use giganto.Key.{
  StorageKeyBuilder, builder, start_key, mid_key, build, lower_closed_bound_end_key,
  upper_open_bound_end_key, timestamp_size,
}
use giganto.Export.{ExportFilter}
use giganto.Export.File.{Ended, returned, panicked, Output, Written, write_filtered_data_to_file}

abbrev pub max_core_size : ℕ
max_core_size = 16

-- `get_mut(i)`, `*v.get_mut(i).unwrap() = x` and `remove(i)`
abbrev pub get_elem? {ℓ} : {A : Type ℓ} → List A → ℕ → Option A
get_elem? [] i = none
get_elem? (x ∷ xs) zero = some x
get_elem? (x ∷ xs) (suc i) = get_elem? xs i

abbrev pub set {ℓ} : {A : Type ℓ} → List A → ℕ → A → List A
set [] i y = []
set (x ∷ xs) zero y = y ∷ xs
set (x ∷ xs) (suc i) y = x ∷ set xs i y

abbrev pub remove_at {ℓ} : {A : Type ℓ} → List A → ℕ → List A
remove_at [] i = []
remove_at (x ∷ xs) zero = xs
remove_at (x ∷ xs) (suc i) = x ∷ remove_at xs i

module _ {T : Type 0} where
  -- The next item that is not an error, and the iterator behind it.
  unfoldable pub next_ok : List (Outcome T) → Option T × List (Outcome T)
  next_ok [] = (none, [])
  next_ok (err e ∷ rest) = next_ok rest
  next_ok (ok item ∷ rest) = (some item, rest)

  -- The first values of the iterators, and the iterators behind them. One without a value stays
  -- among the iterators.
  unfoldable pub first_values : List (List (Outcome T)) → List T × List (List (Outcome T))
  unfolding next_ok
  first_values [] = ([], [])
  first_values (iter ∷ iters) =
      let (values, behind) = first_values iters in
      let (item, rest) = next_ok iter in
      elim item [ none ↦ (values, rest ∷ behind) | some v ↦ (v ∷ values, rest ∷ behind) ]

  abbrev pub items_left : List (List (Outcome T)) → ℕ
  items_left [] = 0
  items_left (iter ∷ iters) = length iter + items_left iters

-- `key[(key.len() - TIMESTAMP_SIZE)..]`, of a key that is long enough.
abbrev pub timestamp_bytes : Bytes → Bytes
timestamp_bytes key = drop (length key - timestamp_size) key

abbrev pub has_timestamp {ℓ} : {T : Type ℓ} → Bytes × T → Bool
has_timestamp item = leb timestamp_size (length item.0)

-- The fold over the values: the first one with the least timestamp, and its index.
unfoldable pub select_min {ℓ} : {T : Type ℓ} → ℕ → ℕ × Bytes × T → List (Bytes × T) → ℕ × Bytes × T
select_min index best [] = best
select_min index (i, key, value) (item ∷ items) =
    elim (cmp (timestamp_bytes item.0) (timestamp_bytes key)) [
      | Ordering.lt ↦ select_min (suc index) (index, item.0, item.1) items
      | _ ↦ select_min (suc index) (i, key, value) items
    ]

module _ (c : Chrono) {T : Type 0} (o : Output T) (filter : ExportFilter c)
    (export_type : String) where
  abbrev pub Iters : Type 0
  Iters = List (List (Outcome (Bytes × T)))

  -- The iterator and the value at the index of the value that was written.
  unfoldable pub advance : ℕ → List (Bytes × T) → Iters → List (Bytes × T) × Iters
  unfolding next_ok
  advance i values iters = elim (get_elem? iters i) [
    | none ↦ (values, iters)
    | some iter ↦
        let (item, rest) = next_ok iter in
        elim item [
          | none ↦ (remove_at values i, remove_at iters i)
          | some v ↦ (set values i v, set iters i rest)
        ]
  ]

  -- The loop. `none` is that the rounds run out.
  unfoldable pub write_merged : ℕ → List (Bytes × T) → Iters → List Text → Option Written
  write_merged zero values iters file = none
  write_merged (suc rounds) [] iters file = some (panicked "index out of bounds", file)
  write_merged (suc rounds) (v ∷ values) iters file =
      let (i, key, value) = select_min 0 (0, v.0, v.1) (v ∷ values) in
      let step = write_filtered_data_to_file c o filter export_type key value file in
      let (values', iters') = advance i (v ∷ values) iters in
      let later = write_merged rounds values' iters' step.1 in
      if every has_timestamp (v ∷ values)
      then elim step.0 [
        | panicked p ↦ some (panicked p, step.1)
        | returned (err e) ↦ some (returned (err e), step.1)
        | returned (ok _) ↦ if is_empty values' then some (returned (ok tt), step.1) else later
      ]
      else some (panicked "attempt to subtract with overflow", file)

  -- The message of success is left out.
  unfoldable pub export_statistic_file : Outcome (Unit {0}) → Iters → List Text → Option Written
  unfolding write_merged first_values
  export_statistic_file (err e) iters file = some (returned (err e), file)
  export_statistic_file (ok _) iters file =
      let (values, behind) = first_values iters in
      write_merged (suc (items_left iters)) values behind []

  abbrev pub core_builder : ℕ → StorageKeyBuilder
  core_builder core = mid_key (start_key builder filter.source_id) (some (to_be 4 core))

  abbrev pub core_from : ℕ → Bytes
  core_from core = build (lower_closed_bound_end_key c (core_builder core) filter.start)

  abbrev pub core_to : ℕ → Bytes
  core_to core = build (upper_open_bound_end_key c (core_builder core) filter.end)

  -- The iterators of a number of cores from one on that have an item.
  unfoldable pub core_iters : (Bytes → Outcome T) → RawEventStore → ℕ → ℕ → Iters
  core_iters deserialize store core zero = []
  core_iters deserialize store core (suc n) =
      let iter = boundary_iter deserialize store (core_from core) (core_to core) forward in
      let later = core_iters deserialize store (suc core) n in
      if is_empty iter then later else iter ∷ later

  unfoldable pub process_statistics_export :
      (Bytes → Outcome T) → RawEventStore → Outcome (Unit {0}) → List Text → Option Written
  unfolding export_statistic_file core_iters
  process_statistics_export deserialize store create file =
      export_statistic_file create (core_iters deserialize store 0 max_core_size) file
