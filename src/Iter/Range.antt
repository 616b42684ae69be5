-- ===== src/Iter/Range.antt =====
-- What `boundary_iter` (src/storage.rs) yields over a store that is read without errors: the
-- entries between its two keys, in the order of its direction.
use giganto.Prelude.{◌≡◌, refl, ap, ◌∙◌, Ordering, List, [], ◌∷◌, map, reverse, select, arith}
use giganto.Bytes.{Bytes}
use giganto.Bytes.Order.{lt_of_gt, gt_of_lt}
use giganto.Outcome.{Outcome, ok}
use giganto.Store.{Entry, RawEventStore, forward, reverse_order, Scans, Before, from_key, to_key}
use giganto.Store.Sorted.{
  cut, cut-eq-select, Pairwise-select, Pairwise-reverse, select-reverse, to_key_stops,
  from_key_stops,
}
use giganto.Iter.{decode, drain_inner, boundary_iter}

-- The entries from `lo` to `hi`, both included.
abbrev pub between : Bytes → Bytes → List Entry → List Entry
between lo hi entries = select (to_key hi) (select (from_key lo) entries)

module _ {ℓ} {T : Type ℓ} (deserialize : Bytes → Outcome T) where
  drain_forward :
      (l : List Entry) (to : Bytes)
      → drain_inner deserialize (map ok l) to Ordering.gt
        ≡ map (decode deserialize) (cut (to_key to) l)
  unfolding drain_inner
  drain_forward [] to = refl
  drain_forward (e ∷ l) to = ground (arith, drain_forward l to)

  drain_reverse :
      (l : List Entry) (to : Bytes)
      → drain_inner deserialize (map ok l) to Ordering.lt
        ≡ map (decode deserialize) (cut (from_key to) l)
  unfolding drain_inner
  drain_reverse [] to = refl
  drain_reverse (e ∷ l) to = ground (arith, drain_reverse l to, lt_of_gt to e.0, gt_of_lt e.0 to)

  -- Over a store that is read without errors the forward iterator yields exactly the entries
  -- from `from` to `to`, both included, in the order of their keys, each decoded or with its
  -- decoding error.
  pub boundary_iter-forward :
      (store : RawEventStore) (entries : List Entry) (from to : Bytes)
      → Scans store entries
      → boundary_iter deserialize store from to forward
        ≡ map (decode deserialize) (between from to entries)
  unfolding boundary_iter
  boundary_iter-forward store entries from to s = rw (s.scan_forward from) (
      drain_forward (select (from_key from) entries) to
      ∙ ap (map (decode deserialize)) (
          cut-eq-select Before (to_key to) (to_key_stops to) (select (from_key from) entries)
            (Pairwise-select Before (from_key from) entries s.ascending)))

  -- Over a store that is read without errors the reverse iterator yields exactly the entries
  -- from `to` to `from`, both included, against the order of their keys, each decoded or with
  -- its decoding error.
  pub boundary_iter-reverse :
      (store : RawEventStore) (entries : List Entry) (from to : Bytes)
      → Scans store entries
      → boundary_iter deserialize store from to reverse_order
        ≡ map (decode deserialize) (reverse (select (from_key to) (select (to_key from) entries)))
  unfolding boundary_iter
  boundary_iter-reverse store entries from to s =
      let l = select (to_key from) entries in
      rw (s.scan_reverse from) (
        drain_reverse (reverse l) to
        ∙ ap (map (decode deserialize)) (
            cut-eq-select (λ x y. Before y x) (from_key to) (from_key_stops to) (reverse l)
              (Pairwise-reverse Before l (Pairwise-select Before (to_key from) entries s.ascending))
            ∙ select-reverse (from_key to) l))
