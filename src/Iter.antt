-- ===== src/Iter.antt =====
-- The iterators of src/storage.rs. An iterator is its state, `next` returns the item and the next
-- state, and `drain` is what a loop over it sees. `bincode::deserialize` is a parameter.
pub mod Range
pub mod Filtered
use giganto.Prelude.{
  Bool, true, false, ◌≡◌, refl, Option, none, some, Ordering, List, [], ◌∷◌, if◌then◌else◌, arith,
}
use giganto.Bytes.{Bytes, cmp}
use giganto.Outcome.{Outcome, ok, err}
use giganto.Store.{Direction, forward, reverse_order, Entry, RawEventStore}

pub record BoundaryIter : Type 0 where
  pub inner : List (Outcome Entry)
  pub boundary : Bytes
  pub cond : Ordering

abbrev pub new_cond : Direction → Ordering
new_cond forward = Ordering.gt
new_cond reverse_order = Ordering.lt

unfoldable pub new : List (Outcome Entry) → Bytes → Direction → BoundaryIter
new inner boundary direction = record {
  inner = inner;
  boundary = boundary;
  cond = new_cond direction;
}

abbrev pub same : Ordering → Ordering → Bool
same Ordering.lt Ordering.lt = true
same Ordering.eq Ordering.eq = true
same Ordering.gt Ordering.gt = true
same _ _ = false

module _ {ℓ} {T : Type ℓ} (deserialize : Bytes → Outcome T) where
  -- `bincode::deserialize::<T>(&value).map(|value| (key, value))`
  unfoldable pub decode : Entry → Outcome (Bytes × T)
  decode (key, value) = elim (deserialize value) [ ok v ↦ ok (key, v) | err e ↦ err e ]

  unfoldable pub next_inner :
      List (Outcome Entry) → Bytes → Ordering → Option (Outcome (Bytes × T)) × List (Outcome Entry)
  unfolding decode
  next_inner [] boundary cond = (none, [])
  next_inner (ok (key, value) ∷ rest) boundary cond =
      if same (cmp key boundary) cond then (none, rest) else (some (decode (key, value)), rest)
  next_inner (err e ∷ rest) boundary cond = (some (err e), rest)

  -- `BoundaryIter::next`
  unfoldable pub next : BoundaryIter → Option (Outcome (Bytes × T)) × BoundaryIter
  unfolding next_inner
  next it =
      let (item, rest) = next_inner it.inner it.boundary it.cond in
      (item, record it { inner = rest })

  -- What `next` returns until it returns `None`.
  unfoldable pub drain_inner : List (Outcome Entry) → Bytes → Ordering → List (Outcome (Bytes × T))
  unfolding decode
  drain_inner [] boundary cond = []
  drain_inner (ok (key, value) ∷ rest) boundary cond =
      let tail = decode (key, value) ∷ drain_inner rest boundary cond in
      if same (cmp key boundary) cond then [] else tail
  drain_inner (err e ∷ rest) boundary cond = err e ∷ drain_inner rest boundary cond

  unfoldable pub drain : BoundaryIter → List (Outcome (Bytes × T))
  unfolding drain_inner
  drain it = drain_inner it.inner it.boundary it.cond

  abbrev pub unroll : Option (Outcome (Bytes × T)) × BoundaryIter → List (Outcome (Bytes × T))
  unroll (none, it) = []
  unroll (some x, it) = x ∷ drain it

  drain_inner_lem :
      (l : List (Outcome Entry)) (to : Bytes) (cond : Ordering)
      → drain_inner l to cond ≡ (
          let (item, rest) = next_inner l to cond in
          unroll (item, record { inner = rest; boundary = to; cond = cond }))
  unfolding drain next_inner
  drain_inner_lem [] to cond = refl
  drain_inner_lem (ok (k, v) ∷ rest) to cond = ground arith
  drain_inner_lem (err e ∷ rest) to cond = refl

  -- What a loop over an iterator sees is what `next` returns and then what a loop over the next
  -- state sees.
  pub drain-next : (it : BoundaryIter) → drain it ≡ unroll (next it)
  unfolding drain next
  drain-next it = drain_inner_lem it.inner it.boundary it.cond

  -- `RawEventStore::boundary_iter`, as the items that it yields.
  unfoldable pub boundary_iter :
      RawEventStore → Bytes → Bytes → Direction → List (Outcome (Bytes × T))
  unfolding drain new
  boundary_iter store from to direction =
      drain (new (store.iterator_cf from direction) to direction)

  -- `FilteredIter::next`: it ends at the first item that is an error.
  unfoldable pub next_filtered :
      (Bytes × T → Outcome Bool)
      → List (Outcome (Bytes × T))
      → Option (Bytes × T) × List (Outcome (Bytes × T))
  next_filtered check [] = (none, [])
  next_filtered check (err e ∷ rest) = (none, rest)
  next_filtered check (ok elem ∷ rest) =
      let later = next_filtered check rest in
      elim (check elem) [ ok true ↦ (some elem, rest) | ok false ↦ later | err e ↦ later ]

  -- `StatisticsIter::next`
  unfoldable pub next_statistics :
      List (Outcome (Bytes × T)) → Option (Bytes × T) × List (Outcome (Bytes × T))
  next_statistics [] = (none, [])
  next_statistics (ok elem ∷ rest) = (some elem, rest)
  next_statistics (err e ∷ rest) = (none, rest)
