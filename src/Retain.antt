-- ===== src/Retain.antt =====
-- `retain_periodically` of src/storage.rs: what a turn deletes. A column family is the
-- list of its entries, in the order of their keys; RocksDB's `delete_range_cf`, the prefix iterator
-- and the clock are parameters.
pub mod Cutoff
pub mod Periodic
use giganto.Prelude.{
  ℕ, ◌-◌, ◌≡◌, Bool, true, false, ◌&&◌, not, Option, none, some, List, [], ◌∷◌, ◌++◌, map, select,
  length, drop, ltb, if◌then◌else◌, Ordering,
}
use giganto.Bytes.{Bytes, cmp}
use giganto.Int64.{ℤ, pos, negsuc, to_be_bytes, from_be_bytes, cmp_ℤ}
use giganto.Key.{timestamp_size}
use giganto.Store.{Entry, equals}

-- `DEFAULT_FROM`: 61 seconds, in nanoseconds.
abbrev pub default_from : ℤ
default_from = pos 61000000000

abbrev pub range_key : Bytes → ℤ → Bytes
range_key source timestamp = (source ++ 0 ∷ []) ++ to_be_bytes timestamp

-- The timestamp at the end of a key, which is at least that long.
abbrev pub store_duration : Bytes → ℤ
store_duration key = from_be_bytes (drop (length key - timestamp_size) key)

abbrev pub before : ℤ → ℤ → Bool
before a b = elim (cmp_ℤ a b) [ Ordering.lt ↦ true | _ ↦ false ]

-- `log_store.delete` of the keys that the prefix iterator yields and the filter keeps.
unfoldable pub delete_keys : List Bytes → List Entry → List Entry
delete_keys [] entries = entries
delete_keys (key ∷ keys) entries = delete_keys keys (select (λ e. not (equals e.0 key)) entries)

module _ (delete_range_cf : Bytes → Bytes → List Entry → List Entry)
    (prefix_iterator_cf : Bytes → List Entry → List Entry) where
  abbrev pub retain_store : ℤ → Bytes → List Entry → List Entry
  retain_store standard_duration source entries =
      delete_range_cf (range_key source default_from) (range_key source standard_duration) entries
