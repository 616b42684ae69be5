-- ===== src/Network/Stores/Pages.antt =====
-- The pages of `network_raw_events` (src/graphql/network.rs) over stores that are read without
-- errors.
use giganto.Prelude.{
  ◌≡◌, refl, ap, ◌∙◌, true, false, Ordering, List, [], ◌∷◌, map, select, All, arith, ℕ, Option,
  none, some, length, suc, ◌<◌,
}
use giganto.Bytes.{Bytes, cmp}
use giganto.Bytes.Order.{gt_of_lt}
use giganto.Outcome.{Outcome, ok}
use giganto.Chrono.{Chrono, Moments}
use giganto.Store.{Entry, Scans, Before, at_most, from_key, to_key}
use giganto.Store.Sorted.{Pairwise-select, Pairwise-cut, All-cut, All-select, cut}
use giganto.Iter.{decode}
use giganto.Iter.Range.{between, boundary_iter-forward}
use giganto.Merge.{merge_all}
use giganto.Page.{Query, page_size, is_order}
use giganto.Page.Accepted.{accepted, after_key}
use giganto.Page.Connection.{select-passes}
use giganto.Network.{Lanes, Connection}
use giganto.Network.Merged.{WithNode, earlier, page_of, network_connection-merge}
use giganto.Network.Stores.{
  NetworkStore, yields, skip_peeked, range_lower, range_open, check_item, get_filtered_iter,
  network_lane, network_lanes, network_raw_events,
}
use giganto.Network.Stores.Readable.{readable, decodes, yields-accepted, skip_peeked-accepted}

-- A store and its entries.
abbrev pub Filled : Type 0 → Type 0
Filled T = NetworkStore T × List Entry

module _ (c : Chrono) {T : Type 0} (base64 : Bytes → Outcome Bytes) (filter : Query c T) where
  abbrev pub Scanned : Filled T → Type 0
  Scanned p = Scans p.0.store p.1

  abbrev pub lo : Bytes
  lo = range_lower c base64 filter

  abbrev pub hi : Bytes
  hi = range_open c base64 filter

  -- The accepted records of the time range, up to the first that does not decode.
  abbrev pub first_records : Filled T → List (Bytes × T)
  first_records p =
      accepted filter.check p.0.deserialize
        (readable p.0.deserialize filter.check (between lo hi p.1))

  -- Those of the entries from a key on whose keys are behind it.
  abbrev pub records_behind : Bytes → Filled T → List (Bytes × T)
  records_behind k p =
      accepted filter.check p.0.deserialize
        (select (after_key k) (readable p.0.deserialize filter.check (between k hi p.1)))

  length-items :
      (deserialize : Bytes → Outcome T) (l : List Entry)
      → length l < suc (length (map (decode deserialize) l))
  length-items deserialize [] = omega arith
  length-items deserialize (x ∷ l) = omega (arith, length-items deserialize l)

  all_yielded :
      (deserialize : Bytes → Outcome T) (l : List Entry)
      → yields deserialize
          (check_item c base64 filter)
          (suc (length (map (decode deserialize) l)))
          (map (decode deserialize) l)
        ≡ accepted filter.check deserialize (readable deserialize filter.check l)
  all_yielded deserialize l =
      yields-accepted deserialize filter.check l (suc (length (map (decode deserialize) l)))
        (length-items deserialize l)

  lane-first :
      (first : Option ℕ) (p : Filled T)
      → Scanned p
      → network_lane c base64 filter p.0 none none first none
        ≡ ok (first_records p, page_size first)
  unfolding network_lane get_filtered_iter skip_peeked
  lane-first first p s =
      rw (boundary_iter-forward p.0.deserialize p.0.store p.1 lo hi s)
        (ap (λ l. ok (l, page_size first)) (all_yielded p.0.deserialize (between lo hi p.1)))

  lane-after :
      (first : Option ℕ) (cursor k : Bytes) (p : Filled T)
      → base64 cursor ≡ ok k
      → at_most lo k ≡ true
      → Scanned p
      → network_lane c base64 filter p.0 (some cursor) none first none
        ≡ ok (records_behind k p, page_size first)
  unfolding network_lane get_filtered_iter
  lane-after first cursor k p d a s =
      let valid : is_order (cmp k lo) Ordering.lt ≡ false = ground (arith, a, gt_of_lt k lo) in
      let l = between k hi p.1 in
      let sorted =
        Pairwise-select Before (to_key hi) (select (from_key k) p.1)
          (Pairwise-select Before (from_key k) p.1 s.ascending) in
      let behind =
        All-select (λ e. from_key k e ≡ true) (to_key hi) (select (from_key k) p.1)
          (select-passes (from_key k) p.1) in
      let stop = decodes p.0.deserialize filter.check in
      rw (d, valid, boundary_iter-forward p.0.deserialize p.0.store p.1 k hi s)
        (ap (λ lane. ok (lane, page_size first))
          (ap (skip_peeked (some k)) (all_yielded p.0.deserialize l)
            ∙ skip_peeked-accepted p.0.deserialize filter.check k (cut stop l)
                (Pairwise-cut Before stop l sorted)
                (All-cut (λ e. from_key k e ≡ true) stop l behind)))

  lanes-first :
      (first : Option ℕ) (stores : List (Filled T))
      → All Scanned stores
      → network_lanes c base64 filter (map (λ p. p.0) stores) none none first none
        ≡ ok (map first_records stores)
  unfolding network_lanes
  lanes-first first [] h = refl
  lanes-first first (p ∷ stores) h = rw (lane-first first p h.0, lanes-first first stores h.1) refl

  lanes-after :
      (first : Option ℕ) (cursor k : Bytes) (stores : List (Filled T))
      → base64 cursor ≡ ok k
      → at_most lo k ≡ true
      → All Scanned stores
      → network_lanes c base64 filter (map (λ p. p.0) stores) (some cursor) none first none
        ≡ ok (map (records_behind k) stores)
  unfolding network_lanes
  lanes-after first cursor k [] d a h = refl
  lanes-after first cursor k (p ∷ stores) d a h =
      rw (lane-after first cursor k p d a h.0, lanes-after first cursor k stores d a h.1) refl

module _ (c : Chrono) (m : Moments (c.DateTime)) {T N : Type 0} (base64 : Bytes → Outcome Bytes)
    (filter : Query c T) (from_key_value : Bytes × T → Outcome N) (time : Bytes × T → c.DateTime)
    (node : Bytes × T → N) (conn : Filled T) (stores : List (Filled T)) where
  -- Records with a timestamp strictly within chrono's range and a node.
  abbrev pub Noded : Lanes (Bytes × T) → Type 0
  Noded = All (All (WithNode c m (λ item. item.0) from_key_value time node))

  abbrev pub oldest_first : Lanes (Bytes × T) → List (Bytes × T)
  oldest_first lanes = merge_all (earlier c m (λ item. item.0) from_key_value time node) lanes

  abbrev pub page : Lanes (Bytes × T) → ℕ → Connection N
  page lanes size = page_of c m (λ item. item.0) from_key_value time node (oldest_first lanes) size

  abbrev pub first_lanes : Lanes (Bytes × T)
  first_lanes = map (first_records c base64 filter) (conn ∷ stores)

  abbrev pub lanes_behind : Bytes → Lanes (Bytes × T)
  lanes_behind k = map (records_behind c base64 filter k) (conn ∷ stores)

  -- With no cursor, over stores that are read without errors, whose accepted records have a node
  -- and a timestamp strictly within chrono's range, the page of all network stores is the start of
  -- the stable merge by timestamp of what the stores hold: of each store the accepted records of
  -- the time range up to the first that does not decode. It holds as many records as asked for, at
  -- most 100 and at least one if there is one, has no previous page, and a next page exactly if
  -- the merge goes on.
  pub network_raw_events-first :
      (first : Option ℕ)
      → All (λ p. Scans p.0.store p.1) (conn ∷ stores)
      → Noded first_lanes
      → network_raw_events c base64 filter m from_key_value conn.0
          (map (λ p. p.0) stores)
          none
          none
          first
          none
        ≡ some (ok (page first_lanes (page_size first)))
  unfolding network_raw_events
  network_raw_events-first first s h =
      rw
        (
          network_raw_events,
          lane-first c base64 filter first conn s.0,
          lanes-first c base64 filter first stores s.1,
          network_connection-merge c m (λ item. item.0) from_key_value time node first_lanes
              (page_size first) true h,
        )
        refl

  -- Over such stores, with a cursor that decodes to a key not before the start of the time range,
  -- the page after it is the start of the stable merge by timestamp of the accepted records whose
  -- keys are behind that key, in every store, also in those the cursor is not of: a record of
  -- another store with the very key of the cursor is in no page after it.
  pub network_raw_events-after :
      (first : Option ℕ) (cursor k : Bytes)
      → base64 cursor ≡ ok k
      → at_most (lo c base64 filter) k ≡ true
      → All (λ p. Scans p.0.store p.1) (conn ∷ stores)
      → Noded (lanes_behind k)
      → network_raw_events c base64 filter m from_key_value conn.0
          (map (λ p. p.0) stores)
          (some cursor)
          none
          first
          none
        ≡ some (ok (page (lanes_behind k) (page_size first)))
  unfolding network_raw_events
  network_raw_events-after first cursor k d a s h =
      rw
        (
          network_raw_events,
          lane-after c base64 filter first cursor k conn d a s.0,
          lanes-after c base64 filter first cursor k stores d a s.1,
          network_connection-merge c m (λ item. item.0) from_key_value time node (lanes_behind k)
              (page_size first) true h,
        )
        refl
