-- ===== src/Page.antt =====
-- A page of a GraphQL connection (src/graphql.rs): `collect_records`, `get_connection` and
-- `get_filtered_iter`. The filter and what it reads of an event are one record; base64 and bincode
-- are parameters.
pub mod Collect
pub mod Accepted
pub mod Connection
pub mod Loaded
pub mod Walk
pub mod Shown
use Prim.Native.Nat.{min}
use giganto.Prelude.{
  ℕ, Bool, true, false, not, Option, none, some, Ordering, List, [], ◌∷◌, ◌++◌, reverse, length,
  is_empty, ◌==◌, if◌then◌else◌, String,
}
use giganto.Bytes.{Bytes, cmp}
use giganto.Outcome.{Outcome, ok, err, ◌>>=◌}
use giganto.Chrono.{Chrono}
use giganto.Key.{
  StorageKeyBuilder, builder, start_key, mid_key, build, lower_closed_bound_end_key,
  upper_closed_bound_end_key, upper_open_bound_end_key,
}
use giganto.Store.{RawEventStore, Direction, forward, reverse_order, equals}
use giganto.Iter.{boundary_iter}

abbrev pub maximum_page_size : ℕ
maximum_page_size = 100

-- `RawEventFilter`, applied to what `EventFilter` reads of an event, and `KeyExtractor`.
pub record Query (c : Chrono) (T : Type 0) : Type 0 where
  pub check : T → Outcome Bool
  pub get_start_key : Bytes
  pub get_mid_key : Option Bytes
  pub start : Option (c.DateTime)
  pub end : Option (c.DateTime)

-- `.unwrap_or(MAXIMUM_PAGE_SIZE).min(MAXIMUM_PAGE_SIZE)`
abbrev pub page_size : Option ℕ → ℕ
page_size none = maximum_page_size
page_size (some n) = min n maximum_page_size

abbrev pub is_some {ℓ} : {A : Type ℓ} → Option A → Bool
is_some none = false
is_some (some a) = true

abbrev pub is_order : Ordering → Ordering → Bool
is_order Ordering.lt Ordering.lt = true
is_order Ordering.gt Ordering.gt = true
is_order _ _ = false

module _ {T : Type 0} (check : T → Outcome Bool) where
  -- `Ok(true)`
  abbrev pub accepts : Bytes × T → Bool
  accepts item = elim (check item.1) [ ok b ↦ b | err e ↦ false ]

  -- The loop of `collect_records`; the counter of invalid items is only logged.
  unfoldable pub collect_from :
      ℕ → List (Bytes × T) → List (Outcome (Bytes × T)) → List (Bytes × T) × Bool
  collect_from size records [] = (records, false)
  collect_from size records (err e ∷ rest) = collect_from size records rest
  collect_from size records (ok item ∷ rest) =
      let records' = if accepts item then records ++ item ∷ [] else records in
      let later = collect_from size records' rest in
      if length records' == size then (records', not (is_empty rest)) else later

  unfoldable pub collect_records : List (Outcome (Bytes × T)) → ℕ → List (Bytes × T) × Bool
  unfolding collect_from
  collect_records items size = collect_from size [] items

-- `if key.as_ref() == cursor { iter.next(); }` after `peek`.
unfoldable pub skip_cursor {ℓ} :
    {T : Type ℓ} → Bytes → List (Outcome (Bytes × T)) → List (Outcome (Bytes × T))
skip_cursor cursor [] = []
skip_cursor cursor (err e ∷ rest) = err e ∷ rest
skip_cursor cursor (ok item ∷ rest) = if equals item.0 cursor then rest else ok item ∷ rest

module _ (c : Chrono) {T : Type 0} (deserialize : Bytes → Outcome T)
    (base64 : Bytes → Outcome Bytes) (store : RawEventStore) (filter : Query c T) where
  abbrev pub ConnArgs : Type 0
  ConnArgs = List (Bytes × T) × Bool × Bool

  -- `key_builder` and the bounds of `get_connection`.
  abbrev pub key_builder : StorageKeyBuilder
  key_builder = mid_key (start_key builder filter.get_start_key) filter.get_mid_key

  abbrev pub lower_key : Bytes
  lower_key = build (lower_closed_bound_end_key c key_builder filter.start)

  abbrev pub open_key : Bytes
  open_key = build (upper_open_bound_end_key c key_builder filter.end)

  abbrev pub closed_key : Bytes
  closed_key = build (upper_closed_bound_end_key c key_builder filter.end)

  -- Backwards from a cursor.
  unfoldable pub page_before : Bytes → ℕ → Outcome ConnArgs
  page_before cursor last =
      if is_order (cmp cursor closed_key) Ordering.gt
      then err "invalid cursor"
      else (let items =
            skip_cursor cursor (boundary_iter deserialize store cursor lower_key reverse_order) in
          let (records, has_previous) = collect_records filter.check items last in
          ok (reverse records, has_previous, false))

  -- Forwards from a cursor.
  unfoldable pub page_after : Bytes → ℕ → Outcome ConnArgs
  page_after cursor first =
      if is_order (cmp cursor lower_key) Ordering.lt
      then err "invalid cursor"
      else (let items =
            skip_cursor cursor (boundary_iter deserialize store cursor open_key forward) in
          let (records, has_next) = collect_records filter.check items first in
          ok (records, false, has_next))

  -- Backwards from the end of the range.
  unfoldable pub page_last : ℕ → Outcome ConnArgs
  page_last last =
      let (records, has_previous) =
        collect_records filter.check
          (boundary_iter deserialize store open_key lower_key reverse_order) last in
      ok (reverse records, has_previous, false)

  -- Forwards from the start of the range.
  unfoldable pub page_first : ℕ → Outcome ConnArgs
  page_first first =
      let (records, has_next) =
        collect_records filter.check (boundary_iter deserialize store lower_key open_key forward)
          first in
      ok (records, false, has_next)

  -- The arguments are `after`, `before`, `first` and `last`.
  unfoldable pub get_connection :
      Option Bytes → Option Bytes → Option ℕ → Option ℕ → Outcome ConnArgs
  unfolding page_before page_after page_last page_first
  get_connection after (some before) first last =
      if is_some after
      then err "cannot use both `after` and `before`"
      else if is_some first
      then err "'before' and 'first' cannot be specified simultaneously"
      else do cursor ← base64 before; page_before cursor (page_size last)
  get_connection (some after) none first last =
      if is_some last
      then err "'after' and 'last' cannot be specified simultaneously"
      else do cursor ← base64 after; page_after cursor (page_size first)
  get_connection none none first (some last) =
      if is_some first
      then err "first and last cannot be used together"
      else page_last (min last maximum_page_size)
  get_connection none none first none = page_first (page_size first)
