-- ===== src/Retain/Periodic.antt =====
-- The whole of `retain_periodically` of src/storage.rs: its cut-off, its failures and its loop. What
-- fails is an input; a deletion that fails deletes nothing.
pub mod Safe
pub mod Deleted
pub mod Young
use giganto.Prelude.{
  ℕ, suc, ◌+◌, ◌-◌, Bool, true, false, Option, none, some, List, [], ◌∷◌, map, select, leb, ltb,
  ◌^◌, if◌then◌else◌,
}
use giganto.Bytes.{Bytes}
use giganto.Int64.{ℤ, pos, negsuc}
use giganto.Outcome.{Outcome, ok, err}
use giganto.Export.File.{minus}
use giganto.Store.{Entry}
use giganto.Retain.{before, store_duration, delete_keys, retain_store}

-- `timestamp_nanos_opt().unwrap_or(retention_duration) - retention_duration`, without the overflow
-- that a clock centuries before 1970 would give.
abbrev pub cutoff_of : Option ℤ → ℕ → ℤ
cutoff_of none retention = pos 0
cutoff_of (some (pos now)) retention =
    if leb retention now then pos (now - retention) else minus (retention - now)
cutoff_of (some (negsuc now)) retention = negsuc (now + retention)

-- Whether the deletion of a source's range in a store, given by its number, fails, whether the
-- deletion of a source's log fails, and whether flushing does.
pub record Faults : Type 0 where
  pub range_fails : Bytes → ℕ → Bool
  pub flush_fails : Bytes → ℕ → Bool
  pub delete_fails : Bytes → Bytes → Bool
  pub log_flush_fails : Bytes → Bool

-- The stores of `retain_period_store` and the log store.
abbrev pub Stores : Type 0
Stores = List (List Entry) × List Entry

-- What the `select!` wakes up for: a tick, with the clock, the names of the sources if their
-- store and the others can be opened, and what fails, or the shutdown.
pub data Wakeup : Type 0 where
  tick : Option ℤ → Outcome (List Bytes) → Faults → Wakeup
  shutdown : Wakeup

module _ (delete_range_cf : Bytes → Bytes → List Entry → List Entry)
    (prefix_iterator_cf : Bytes → List Entry → List Entry) where
  -- The loop over the stores, from the one with such a number.
  unfoldable pub retain_all :
      Faults → ℤ → Bytes → ℕ → List (List Entry) → Outcome (Unit {0}) × List (List Entry)
  retain_all faults cutoff source n [] = (ok tt, [])
  retain_all faults cutoff source n (store ∷ stores) =
      let store' =
        if faults.range_fails source n
        then store
        else retain_store delete_range_cf prefix_iterator_cf cutoff source store in
      let (r, rest) = retain_all faults cutoff source (suc n) stores in
      if faults.flush_fails source n then (err "flush", store' ∷ stores) else (r, store' ∷ rest)

  -- The logs of the iterator that are older than the cut-off and can be deleted.
  unfoldable pub retain_logs : Faults → ℤ → Bytes → List Entry → List Entry
  unfolding delete_keys
  retain_logs faults cutoff source entries =
      delete_keys
        (select (λ key. if faults.delete_fails source key then false else true)
          (map (λ e. e.0)
            (select (λ e. before (store_duration e.0) cutoff) (prefix_iterator_cf source entries))))
        entries

  -- The loop over the sources.
  unfoldable pub retain_sources : Faults → ℤ → List Bytes → Stores → Outcome (Unit {0}) × Stores
  unfolding retain_all retain_logs
  retain_sources faults cutoff [] stores = (ok tt, stores)
  retain_sources faults cutoff (source ∷ sources) (all_store, log_store) =
      let (r, all_store') = retain_all faults cutoff source 0 all_store in
      let log_store' = retain_logs faults cutoff source log_store in
      let later = retain_sources faults cutoff sources (all_store', log_store') in
      elim r [
        | err e ↦ (err e, (all_store', log_store))
        | ok _ ↦
            if faults.log_flush_fails source then (err "flush", (all_store', log_store')) else later
      ]

  -- What the task returned, if it has ended.
  unfoldable pub retain_loop : ℕ → List Wakeup → Stores → Option (Outcome (Unit {0})) × Stores
  unfolding retain_sources
  retain_loop retention [] stores = (none, stores)
  retain_loop retention (shutdown ∷ wakeups) stores = (some (ok tt), stores)
  retain_loop retention (tick now (err e) faults ∷ wakeups) stores = (some (err e), stores)
  retain_loop retention (tick now (ok names) faults ∷ wakeups) stores =
      let (r, stores') = retain_sources faults (cutoff_of now retention) names stores in
      let later = retain_loop retention wakeups stores' in
      elim r [ err e ↦ (some (err e), stores') | ok _ ↦ later ]

  -- The number is the retention period in nanoseconds.
  unfoldable pub retain_periodically :
      ℕ → List Wakeup → Stores → Option (Outcome (Unit {0})) × Stores
  unfolding retain_loop
  retain_periodically retention wakeups stores =
      if ltb retention (2 ^ 63)
      then retain_loop retention wakeups stores
      else (some (err "out of range integral type conversion attempted"), stores)
