-- ===== src/Page/Collect.antt =====
-- `collect_records` (src/graphql.rs): the first `size` accepted records, for a size that is not 0.
use mathlib.Core.List.{append-nil, append_assoc}
use giganto.Prelude.{
  ℕ, zero, suc, ◌+◌, ◌<◌, ◌≡◌, refl, Bool, true, false, not, List, [], ◌∷◌, ◌++◌, length, take,
  is_empty, arith, if◌then◌else◌, Bool-cases, inl, inr, length-append, ==_of_eq, ==_of_ne,
}
use giganto.Bytes.{Bytes}
use giganto.Outcome.{Outcome, ok, err}
use giganto.Page.{accepts, collect_from, collect_records}

not-false : (b : Bool) → not b ≡ false → b ≡ true
not-false true h = refl
not-false false h = cc

module _ {T : Type 0} (check : T → Outcome Bool) where
  -- The records that the filter accepts, in order; items that are errors are left out.
  abbrev pub passing : List (Outcome (Bytes × T)) → List (Bytes × T)
  passing [] = []
  passing (err e ∷ rest) = passing rest
  passing (ok item ∷ rest) =
      let later = passing rest in if accepts check item then item ∷ later else later

  -- The items behind the `n`th accepted record.
  abbrev pub beyond : ℕ → List (Outcome (Bytes × T)) → List (Outcome (Bytes × T))
  beyond zero items = items
  beyond (suc n) [] = []
  beyond (suc n) (err e ∷ rest) = beyond (suc n) rest
  beyond (suc n) (ok item ∷ rest) =
      let hit = beyond n rest in
      let miss = beyond (suc n) rest in if accepts check item then hit else miss

  collect_from-eq :
      (size k : ℕ) (records : List (Bytes × T)) (items : List (Outcome (Bytes × T)))
      → size ≡ length records + suc k
      → collect_from check size records items
        ≡ (records ++ take (suc k) (passing items), not (is_empty (beyond (suc k) items)))
  unfolding collect_from
  collect_from-eq size k records [] h = rw (append-nil records)
  collect_from-eq size k records (err e ∷ rest) h = collect_from-eq size k records rest h
  collect_from-eq size zero records (ok item ∷ rest) h = elim (Bool-cases (accepts check item)) [
    | inl e ↦ rw (
      e,
      ==_of_eq (length (records ++ item ∷ [])) size
          (omega (arith, length-append records (item ∷ []))),
    )
    | inr e ↦
        rw (e, ==_of_ne (length records) size (omega arith))
          (collect_from-eq size zero records rest h)
  ]
  collect_from-eq size (suc k) records (ok item ∷ rest) h = elim (Bool-cases (accepts check item)) [
    | inl e ↦ rw (
      e,
      ==_of_ne (length (records ++ item ∷ [])) size
          (omega (arith, length-append records (item ∷ []))),
      collect_from-eq size k (records ++ item ∷ []) rest
          (omega (arith, length-append records (item ∷ []))),
      append_assoc records (item ∷ []) (take (suc k) (passing rest)),
    )
    | inr e ↦
        rw (e, ==_of_ne (length records) size (omega arith))
          (collect_from-eq size (suc k) records rest h)
  ]

  -- For a size that is not 0, the records are the first `size` accepted ones, whatever items are
  -- errors, and there is more exactly if some item, accepted or not, follows the last of `size`.
  pub collect_records-eq :
      (items : List (Outcome (Bytes × T))) (size : ℕ)
      → 0 < size
      → collect_records check items size
        ≡ (take size (passing items), not (is_empty (beyond size items)))
  unfolding collect_records
  collect_records-eq items zero h = elim h [ ]
  collect_records-eq items (suc k) h = collect_from-eq (suc k) k [] items (omega arith)

  beyond-passing :
      (n : ℕ) (items : List (Outcome (Bytes × T)))
      → is_empty (beyond n items) ≡ true
      → take n (passing items) ≡ passing items
  beyond-passing zero [] h = refl
  beyond-passing zero (x ∷ rest) h = cc
  beyond-passing (suc n) [] h = refl
  beyond-passing (suc n) (err e ∷ rest) h = beyond-passing (suc n) rest h
  beyond-passing (suc n) (ok item ∷ rest) h =
      ground (arith, beyond-passing n rest, beyond-passing (suc n) rest)

  -- For a size that is not 0, records behind which nothing is said to follow are all the
  -- accepted ones.
  pub collect_records_complete :
      (items : List (Outcome (Bytes × T))) (size : ℕ)
      → 0 < size
      → (collect_records check items size).1 ≡ false
      → (collect_records check items size).0 ≡ passing items
  collect_records_complete items size h more =
      let e = collect_records-eq items size h in
      rw e (beyond-passing size items (not-false (is_empty (beyond size items)) (rw e at more)))

  pub collect_from-zero :
      (r : Bytes × T) (records : List (Bytes × T)) (items : List (Outcome (Bytes × T)))
      → collect_from check 0 (r ∷ records) items ≡ ((r ∷ records) ++ passing items, false)
  unfolding collect_from
  collect_from-zero r records [] = rw (append-nil (r ∷ records))
  collect_from-zero r records (err e ∷ rest) = collect_from-zero r records rest
  collect_from-zero r records (ok item ∷ rest) = elim (Bool-cases (accepts check item)) [
    | inl e ↦ rw (
      e,
      ==_of_ne (suc (length (records ++ item ∷ []))) 0 (omega arith),
      collect_from-zero r (records ++ item ∷ []) rest,
      append_assoc records (item ∷ []) (passing rest),
    )
    | inr e ↦
        rw (e, ==_of_ne (suc (length records)) 0 (omega arith)) (collect_from-zero r records rest)
  ]

  -- Asked for 0 records where the first item is accepted, it returns every accepted record.
  pub collect_records-zero :
      (item : Bytes × T) (rest : List (Outcome (Bytes × T)))
      → accepts check item ≡ true
      → collect_records check (ok item ∷ rest) 0 ≡ (item ∷ passing rest, false)
  unfolding collect_records collect_from
  collect_records-zero item rest h = rw (h, collect_from-zero item [] rest)
