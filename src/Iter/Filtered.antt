-- ===== src/Iter/Filtered.antt =====
-- `FilteredIter::next` (src/storage.rs): which item it yields, and when it ends.
use giganto.Prelude.{
  ◌≡◌, refl, Bool, true, false, none, some, List, [], ◌∷◌, ◌++◌, map, All, arith, String,
}
use giganto.Bytes.{Bytes}
use giganto.Outcome.{Outcome, ok, err}
use giganto.Iter.{next_filtered}

module _ {T : Type 0} (deserialize : Bytes → Outcome T) (check : Bytes × T → Outcome Bool) where
  -- `Ok(true)`
  abbrev pub passes : Bytes × T → Bool
  passes elem = elim (check elem) [ ok b ↦ b | err e ↦ false ]

  -- Behind items that the filter refuses, `next` yields the first item that it accepts and goes
  -- on behind it; but it ends at an item that is an error, though an accepted one follows, and
  -- at the end.
  pub next_filtered-first :
      (refused : List (Bytes × T)) (elem : Bytes × T) (e : String)
      (rest : List (Outcome (Bytes × T)))
      → All (λ item. passes item ≡ false) refused
      → passes elem ≡ true
      → (next_filtered deserialize check (map ok refused ++ ok elem ∷ rest) ≡ (some elem, rest))
        × (next_filtered deserialize check (map ok refused ++ err e ∷ ok elem ∷ rest)
            ≡ (none, ok elem ∷ rest))
        × (next_filtered deserialize check (map ok refused) ≡ (none, []))
  unfolding next_filtered
  next_filtered-first [] elem e rest h p = (ground arith, refl, refl)
  next_filtered-first (item ∷ refused) elem e rest h p =
      let (a, b, c) = next_filtered-first refused elem e rest h.1 p in
      let q = h.0 in (ground arith, ground arith, ground arith)
