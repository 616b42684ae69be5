-- ===== src/Network/Stores.antt =====
-- `get_filtered_iter` of src/graphql.rs and `network_raw_events` of src/graphql/network.rs: a page of
-- the records of all network stores together. `T` is the sum of their event types; a store comes
-- with the `bincode` of its own type. base64 is a parameter, as in Page.
mod Readable
pub mod Pages
use Prim.Native.Nat.{min}
use giganto.Prelude.{
  ℕ, zero, suc, Bool, true, false, not, ◌||◌, Option, none, some, Ordering, List, [], ◌∷◌, length,
  if◌then◌else◌,
}
use giganto.Bytes.{Bytes, cmp}
use giganto.Outcome.{Outcome, ok, err, ◌>>=◌}
use giganto.Chrono.{Chrono, Moments}
use giganto.Key.{
  StorageKeyBuilder, builder, start_key, build, lower_closed_bound_end_key,
  upper_closed_bound_end_key, upper_open_bound_end_key,
}
use giganto.Store.{RawEventStore, forward, reverse_order, equals}
use giganto.Iter.{boundary_iter, next_filtered}
use giganto.Page.{Query, page_size, is_some, is_order, maximum_page_size}
use giganto.Network.{Lanes, Connection, network_connection}

pub record NetworkStore (T : Type 0) : Type 0 where
  pub store : RawEventStore
  pub deserialize : Bytes → Outcome T

-- `FilteredIter`: the items that it reads.
abbrev pub FilteredIter : Type 0 → Type 0
FilteredIter T = List (Outcome (Bytes × T))

module _ {T : Type 0} where
  -- What calls of `next` yield up to the first `None`, in so many calls.
  unfoldable pub yields :
      (Bytes → Outcome T) → (Bytes × T → Outcome Bool) → ℕ → FilteredIter T → List (Bytes × T)
  yields deserialize check zero items = []
  yields deserialize check (suc calls) items =
      let step = next_filtered deserialize check items in
      let later = yields deserialize check calls step.1 in
      elim step.0 [ none ↦ [] | some item ↦ item ∷ later ]

  -- `if key.as_ref() == cursor { iter.next(); }` after `peek`, if there is a cursor.
  unfoldable pub skip_peeked : Option Bytes → List (Bytes × T) → List (Bytes × T)
  skip_peeked none lane = lane
  skip_peeked (some cursor) [] = []
  skip_peeked (some cursor) (item ∷ lane) = if equals item.0 cursor then lane else item ∷ lane

module _ (c : Chrono) {T : Type 0} (base64 : Bytes → Outcome Bytes) (filter : Query c T) where
  abbrev pub range_builder : StorageKeyBuilder
  range_builder = start_key builder filter.get_start_key

  abbrev pub range_lower : Bytes
  range_lower = build (lower_closed_bound_end_key c range_builder filter.start)

  abbrev pub range_open : Bytes
  range_open = build (upper_open_bound_end_key c range_builder filter.end)

  abbrev pub range_closed : Bytes
  range_closed = build (upper_closed_bound_end_key c range_builder filter.end)

  abbrev pub check_item : Bytes × T → Outcome Bool
  check_item item = filter.check item.1

  -- The arguments are `after`, `before`, `first` and `last`.
  unfoldable pub get_filtered_iter :
      NetworkStore T
      → Option Bytes
      → Option Bytes
      → Option ℕ
      → Option ℕ
      → Outcome (FilteredIter T × Option Bytes × ℕ)
  get_filtered_iter s after (some before) first last =
      if is_some after
      then err "cannot use both `after` and `before`"
      else if is_some first
      then err "'before' and 'first' cannot be specified simultaneously"
      else do
        cursor ← base64 before
        (if is_order (cmp cursor range_closed) Ordering.gt
            then err "invalid cursor"
            else ok (
              boundary_iter s.deserialize s.store cursor range_lower reverse_order,
              some cursor,
              page_size last,
            ))
  get_filtered_iter s (some after) none first last =
      if is_some last then err "'after' and 'last' cannot be specified simultaneously" else do
        cursor ← base64 after
        (if is_order (cmp cursor range_lower) Ordering.lt
            then err "invalid cursor"
            else ok (
              boundary_iter s.deserialize s.store cursor range_open forward,
              some cursor,
              page_size first,
            ))
  get_filtered_iter s none none first (some last) =
      if is_some first
      then err "first and last cannot be used together"
      else ok (
        boundary_iter s.deserialize s.store range_open range_lower reverse_order,
        none,
        min last maximum_page_size,
      )
  get_filtered_iter s none none first none =
      ok (boundary_iter s.deserialize s.store range_lower range_open forward, none, page_size first)

  -- One store's part of `network_raw_events`: its records and the size.
  unfoldable pub network_lane :
      NetworkStore T
      → Option Bytes
      → Option Bytes
      → Option ℕ
      → Option ℕ
      → Outcome (List (Bytes × T) × ℕ)
  unfolding get_filtered_iter yields skip_peeked
  network_lane s after before first last = do
    (items, cursor, size) ← get_filtered_iter s after before first last
    ok (skip_peeked cursor (yields s.deserialize check_item (suc (length items)) items), size)

  unfoldable pub network_lanes :
      List (NetworkStore T)
      → Option Bytes
      → Option Bytes
      → Option ℕ
      → Option ℕ
      → Outcome (Lanes (Bytes × T))
  network_lanes [] after before first last = ok []
  network_lanes (s ∷ stores) after before first last = do
    (lane, size) ← network_lane s after before first last
    lanes ← network_lanes stores after before first last
    ok (lane ∷ lanes)

  -- `conn` is the first store; its size counts. `from_key_value` makes an edge of a record.
  unfoldable pub network_raw_events :
      Moments (c.DateTime)
      → {N : Type 0} → (Bytes × T → Outcome N)
      → NetworkStore T
      → List (NetworkStore T)
      → Option Bytes
      → Option Bytes
      → Option ℕ
      → Option ℕ
      → Option (Outcome (Connection N))
  network_raw_events m from_key_value conn stores after before first last =
      elim (network_lane conn after before first last) [
        | err e ↦ some (err e)
        | ok l ↦ elim (network_lanes stores after before first last) [
          | err e ↦ some (err e)
          | ok lanes ↦
              network_connection c m (λ item. item.0) from_key_value (l.0 ∷ lanes) l.1
                (not (is_some before || is_some last))
        ]
      ]
