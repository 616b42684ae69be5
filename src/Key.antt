-- ===== src/Key.antt =====
-- `StorageKeyBuilder` and `StorageKey` of src/storage.rs, and `get_timestamp_from_key` of
-- src/graphql.rs. A key is the parts, each followed by a zero byte, and then the eight
-- big-endian bytes of a timestamp in nanoseconds.
pub mod Shape
pub mod Window
use giganto.Prelude.{
  ℕ, ◌-◌, Bool, Option, none, some, List, [], ◌∷◌, ◌++◌, ltb, length, drop, if◌then◌else◌, String,
}
use giganto.Bytes.{Bytes}
use giganto.Int64.{ℤ, i64_max, pos, to_be_bytes, from_be_bytes, checked_pred, is_nonneg}
use giganto.Outcome.{Outcome, ok, err}
use giganto.Chrono.{Chrono}

abbrev pub timestamp_size : ℕ
timestamp_size = 8

pub record StorageKeyBuilder : Type 0 where
  pub pre_key : Bytes

abbrev pub StorageKey : Type 0
StorageKey = Bytes

abbrev pub builder : StorageKeyBuilder
builder = record { pre_key = [] }

unfoldable pub start_key : StorageKeyBuilder → Bytes → StorageKeyBuilder
start_key b key = record { pre_key = (b.pre_key ++ key) ++ 0 ∷ [] }

unfoldable pub mid_key : StorageKeyBuilder → Option Bytes → StorageKeyBuilder
mid_key b none = b
mid_key b (some key) = record { pre_key = (b.pre_key ++ key) ++ 0 ∷ [] }

unfoldable pub end_key : StorageKeyBuilder → ℤ → StorageKeyBuilder
end_key b key = record { pre_key = b.pre_key ++ to_be_bytes key }

abbrev pub build : StorageKeyBuilder → StorageKey
build b = b.pre_key

-- `unwrap_or(i64::MAX)`
abbrev pub or_max : Option ℤ → ℤ
or_max none = i64_max
or_max (some ns) = ns

-- The `if ns >= 0` under `if let Some(ns) = ns.checked_sub(1)`.
abbrev pub open_end : Option ℤ → ℤ
open_end none = i64_max
open_end (some ns) = if is_nonneg ns then ns else i64_max

module _ (c : Chrono) where
  open c use {DateTime, timestamp_nanos_opt}

  unfoldable pub lower_closed_bound_end_key :
      StorageKeyBuilder → Option DateTime → StorageKeyBuilder
  unfolding end_key
  lower_closed_bound_end_key b none = end_key b (pos 0)
  lower_closed_bound_end_key b (some time) = end_key b (or_max (timestamp_nanos_opt time))

  unfoldable pub upper_closed_bound_end_key :
      StorageKeyBuilder → Option DateTime → StorageKeyBuilder
  unfolding end_key
  upper_closed_bound_end_key b none = end_key b i64_max
  upper_closed_bound_end_key b (some time) = end_key b (or_max (timestamp_nanos_opt time))

  unfoldable pub upper_open_bound_end_key : StorageKeyBuilder → Option DateTime → StorageKeyBuilder
  unfolding end_key
  upper_open_bound_end_key b none = end_key b i64_max
  upper_open_bound_end_key b (some time) =
      end_key b (open_end (checked_pred (or_max (timestamp_nanos_opt time))))

  unfoldable pub get_timestamp_from_key : Bytes → Outcome (c.DateTime)
  get_timestamp_from_key key =
      if ltb timestamp_size (length key)
      then ok (c.timestamp_nanos (from_be_bytes (drop (length key - timestamp_size) key)))
      else err "invalid database key length"
