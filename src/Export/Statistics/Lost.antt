-- ===== src/Export/Statistics/Lost.antt =====
-- Where the export of statistics panics or leaves records out (`export_statistic_file` of
-- src/graphql/export.rs).
use giganto.Prelude.{ℕ, zero, suc, ◌≡◌, refl, true, none, some, List, [], ◌∷◌, map, String}
use giganto.Bytes.{Bytes}
use giganto.Bytes.Order.{cmp_refl}
use giganto.Outcome.{Outcome, ok, err}
use giganto.Chrono.{Chrono}
use giganto.Filter.{Text}
use giganto.Store.{Entry, RawEventStore, Scans}
use giganto.Iter.Range.{between, boundary_iter-forward}
use giganto.Export.{ExportFilter}
use giganto.Export.File.{returned, panicked, Output, write_filtered_data_to_file}
use giganto.Export.Statistics.{
  max_core_size, items_left, next_ok, first_values, select_min, timestamp_bytes, has_timestamp,
  advance, write_merged, export_statistic_file, core_from, core_to, core_iters,
  process_statistics_export,
}

next_ok-errors : {T : Type 0} (es : List String) → next_ok {T = T} (map err es) ≡ (none, [])
unfolding next_ok
next_ok-errors [] = refl
next_ok-errors (e ∷ es) = next_ok-errors es

module _ (c : Chrono) {T : Type 0} (o : Output T) (filter : ExportFilter c)
    (export_type : String) where
  first_lem :
      (es : List String) (item : Bytes × T) (rest : List (Outcome (Bytes × T)))
      → first_values (map err es ∷ (ok item ∷ rest) ∷ []) ≡ (item ∷ [], [] ∷ rest ∷ [])
  unfolding first_values next_ok
  first_lem es item rest =
      let n = next_ok-errors {T = Bytes × T} es in rw (first_values, n) (rw (first_values, n) refl)

  select_one :
      (item : Bytes × T) → select_min 0 (0, item.0, item.1) (item ∷ []) ≡ (0, item.0, item.1)
  unfolding select_min
  select_one item = rw (select_min, cmp_refl (timestamp_bytes item.0)) refl

  advance_end :
      (item : Bytes × T) (iters : List (List (Outcome (Bytes × T))))
      → advance c o filter export_type 0 (item ∷ []) ([] ∷ iters) ≡ ([], iters)
  unfolding advance next_ok
  advance_end item iters = refl

  -- With one value, the loop ends where the first iterator is at its end.
  ended_lem :
      (rounds : ℕ) (item : Bytes × T) (iters : List (List (Outcome (Bytes × T))))
      (file' : List Text)
      → has_timestamp item ≡ true
      → write_filtered_data_to_file c o filter export_type item.0 item.1 []
        ≡ (returned (ok tt), file')
      → write_merged c o filter export_type (suc rounds) (item ∷ []) ([] ∷ iters) []
        ≡ some (returned (ok tt), file')
  unfolding write_merged
  ended_lem rounds item iters file' t w =
      let m = select_one item in
      let a = advance_end item iters in rw (write_merged, m, t, w) (rw (m, a) (rw w refl))

  -- Where the iterator of one core has nothing but records that cannot be decoded, and that of the
  -- next core begins with a record whose key has a timestamp, which is written or refused, the
  -- file ends behind this record, whatever the rest of that core is.
  pub export_statistic_file_loses :
      (es : List String) (item : Bytes × T) (rest : List (Outcome (Bytes × T)))
      (file file' : List Text)
      → has_timestamp item ≡ true
      → write_filtered_data_to_file c o filter export_type item.0 item.1 []
        ≡ (returned (ok tt), file')
      → export_statistic_file c o filter export_type
          (ok tt)
          (map err es ∷ (ok item ∷ rest) ∷ [])
          file
        ≡ some (returned (ok tt), file')
  unfolding export_statistic_file
  export_statistic_file_loses es item rest file file' t w =
      let f = first_lem es item rest in
      rw (export_statistic_file, f)
        ((ended_lem (items_left (map err es ∷ (ok item ∷ rest) ∷ [])) item (rest ∷ []) file' t w))

  no_iters :
      (deserialize : Bytes → Outcome T) (store : RawEventStore) (entries : List Entry)
      → Scans store entries
      → ((core : ℕ)
          → between
              (core_from c o filter export_type core)
              (core_to c o filter export_type core)
              entries
            ≡ [])
      → (core n : ℕ) → core_iters c o filter export_type deserialize store core n ≡ []
  unfolding core_iters
  no_iters deserialize store entries s h core zero = refl
  no_iters deserialize store entries s h core (suc n) =
      let b =
        boundary_iter-forward deserialize store entries (core_from c o filter export_type core)
          (core_to c o filter export_type core) s in
      rw (core_iters, b, h core) (no_iters deserialize store entries s h (suc core) n)

  -- Without a record of any core in the time range, over a store that is read without errors, the
  -- export of statistics panics, and leaves an empty file.
  pub process_statistics_export_panics :
      (deserialize : Bytes → Outcome T) (store : RawEventStore) (entries : List Entry)
      (file : List Text)
      → Scans store entries
      → ((core : ℕ)
          → between
              (core_from c o filter export_type core)
              (core_to c o filter export_type core)
              entries
            ≡ [])
      → process_statistics_export c o filter export_type deserialize store (ok tt) file
        ≡ some (panicked "index out of bounds", [])
  unfolding process_statistics_export export_statistic_file first_values write_merged
  process_statistics_export_panics deserialize store entries file s h =
      rw (process_statistics_export, no_iters deserialize store entries s h 0 max_core_size) refl
