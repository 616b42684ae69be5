-- ===== src/Page/Connection.antt =====
-- What `get_connection` (src/graphql.rs) returns from a store that is read without errors.
use Prim.Native.Nat.{min}
use giganto.Prelude.{
  ℕ, ◌<◌, ◌≡◌, refl, sym, Bool, true, false, not, Ordering, Option, none, some, List, [], ◌∷◌, ◌++◌,
  map, reverse, select, take, All, arith, is_empty,
}
use giganto.Bytes.{Bytes, cmp}
use giganto.Bytes.Order.{lt_trans, gt_of_lt, eq_of_cmp}
use giganto.Outcome.{Outcome, ok}
use giganto.Store.{Entry, RawEventStore, Scans, Before, at_most, from_key, to_key}
use giganto.Store.Sorted.{select_comm, Pairwise-select}
use giganto.Iter.{decode}
use giganto.Iter.Range.{between, boundary_iter-forward, boundary_iter-reverse}
use giganto.Chrono.{Chrono}
use giganto.Page.{
  Query, maximum_page_size, is_order, skip_cursor, page_size, get_connection, lower_key, open_key,
}
use giganto.Page.Collect.{passing, beyond, collect_records-eq}
use giganto.Page.Accepted.{
  accepted, after_key, accepted-key, accepted_after, accepted-reverse, skip-accepted,
}

select_absorb :
    (p q : Entry → Bool) (l : List Entry)
    → ((x : Entry) → p x ≡ true → q x ≡ true)
    → select p (select q l) ≡ select p l
select_absorb p q [] h = refl
select_absorb p q (x ∷ l) h = ground (arith, select_absorb p q l h, h x)

pub select-passes : (p : Entry → Bool) (l : List Entry) → All (λ x. p x ≡ true) (select p l)
select-passes p [] = tt
select-passes p (x ∷ l) = ground (arith, select-passes p l)

after_of_at_most :
    (lo k : Bytes) (x : Entry) → at_most lo k ≡ true → after_key k x ≡ true → from_key lo x ≡ true
after_of_at_most lo k x h a = ground (arith, lt_trans lo k x.0, eq_of_cmp lo k)

module _ (c : Chrono) {T : Type 0} (deserialize : Bytes → Outcome T)
    (base64 : Bytes → Outcome Bytes) (store : RawEventStore) (filter : Query c T)
    (entries : List Entry) (scans : Scans store entries) where
  -- The records of the whole time range that the filter accepts, in the order of their keys.
  abbrev pub records_in_range : List (Bytes × T)
  records_in_range = accepted filter.check deserialize (
      between (lower_key c deserialize base64 store filter)
        (open_key c deserialize base64 store filter) entries)

  abbrev pub lo : Bytes
  lo = lower_key c deserialize base64 store filter

  abbrev pub hi : Bytes
  hi = open_key c deserialize base64 store filter

  abbrev pub items_from : Bytes → List (Outcome (Bytes × T))
  items_from from = map (decode deserialize) (between from hi entries)

  -- In a store that is read without errors, with no cursor and a number that is not 0, the page
  -- is the first accepted records of the time range, as many as asked for and at most 100. It
  -- has no previous page, and a next page exactly if an entry of the range follows the last of a
  -- full page.
  pub get_connection-first :
      (first : Option ℕ)
      → 0 < page_size first
      → get_connection c deserialize base64 store filter none none first none
        ≡ ok (
          take (page_size first) records_in_range,
          false,
          not (is_empty (beyond filter.check (page_size first) (items_from lo))),
        )
  unfolding get_connection
  get_connection-first first h = rw (
    boundary_iter-forward deserialize store entries lo hi scans,
    collect_records-eq filter.check (items_from lo) (page_size first) h,
  )

  -- In a store that is read without errors, with no cursor and a number that is not 0, the page
  -- from the end of the time range is the last accepted records of the range, as many as asked
  -- for and at most 100, in the order of their keys, and has no next page.
  pub get_connection-last :
      (last : ℕ)
      → 0 < last
      → (more : Bool) × (get_connection c deserialize base64 store filter none none none (some last)
          ≡ ok
              (reverse (take (min last maximum_page_size) (reverse records_in_range)), more, false))
  unfolding get_connection
  get_connection-last last h =
      let n = min last maximum_page_size in
      let back =
        map (decode deserialize) (reverse (select (from_key lo) (select (to_key hi) entries))) in
      (
        not (is_empty (beyond filter.check n back)),
        rw (
          boundary_iter-reverse deserialize store entries hi lo scans,
          collect_records-eq filter.check back n (omega arith),
          accepted-reverse filter.check deserialize
              (select (from_key lo) (select (to_key hi) entries)),
          select_comm (from_key lo) (to_key hi) entries,
        ),
      )

  cursor_in_range :
      (ps qs : List (Bytes × T)) (r : Bytes × T)
      → records_in_range ≡ ps ++ r ∷ qs
      → at_most lo r.0 ≡ true
  cursor_in_range ps qs r e =
      accepted-key filter.check deserialize (λ z. at_most lo z ≡ true)
        (select (from_key lo) (select (to_key hi) entries)) ps qs r
        (select-passes (from_key lo) (select (to_key hi) entries))
        (rw (select_comm (from_key lo) (to_key hi) entries) e)

  records_after :
      (ps qs : List (Bytes × T)) (k : Bytes) (v : T)
      → records_in_range ≡ ps ++ (k, v) ∷ qs
      → passing filter.check (skip_cursor k (items_from k)) ≡ qs
  records_after ps qs k v e =
      let l = select (to_key hi) entries in
      let sorted = Pairwise-select Before (to_key hi) entries scans.ascending in
      rw
        (
          select_comm (to_key hi) (from_key k) entries,
          skip-accepted filter.check deserialize k l sorted,
        )
        (rw
          (sym (
            select_absorb (after_key k) (from_key lo) l
              (λ x. after_of_at_most lo k x (cursor_in_range ps qs (k, v) e))))
          (accepted_after filter.check deserialize (select (from_key lo) l) ps qs k v
            (Pairwise-select Before (from_key lo) l sorted)
            (rw (select_comm (from_key lo) (to_key hi) entries) e)))

  -- In a store that is read without errors, with a number that is not 0 and a cursor that
  -- decodes to the key of an accepted record of the time range, the page after the cursor holds
  -- the accepted records of the range that follow that record, as many as asked for and at most
  -- 100, and has no previous page.
  pub get_connection-after :
      (first : Option ℕ) (cursor k : Bytes) (v : T) (ps qs : List (Bytes × T))
      → 0 < page_size first
      → base64 cursor ≡ ok k
      → records_in_range ≡ ps ++ (k, v) ∷ qs
      → (more : Bool) × (get_connection c deserialize base64 store filter
            (some cursor)
            none
            first
            none
          ≡ ok (take (page_size first) qs, false, more))
  unfolding get_connection
  get_connection-after first cursor k v ps qs h d e =
      let valid : is_order (cmp k lo) Ordering.lt ≡ false =
        ground (arith, cursor_in_range ps qs (k, v) e, gt_of_lt k lo) in
      (
        not (is_empty (beyond filter.check (page_size first) (skip_cursor k (items_from k)))),
        rw (
          d,
          valid,
          boundary_iter-forward deserialize store entries k hi scans,
          collect_records-eq filter.check (skip_cursor k (items_from k)) (page_size first) h,
          records_after ps qs k v e,
        ),
      )
