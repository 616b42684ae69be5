-- ===== src/Export/Statistics/Ends.antt =====
-- The loop of `export_statistic_file` (src/graphql/export.rs) ends.
use giganto.Prelude.{
  if◌then◌else◌, ℕ, zero, suc, ◌+◌, ◌<◌, ◌≤◌, ◌≡◌, refl, ap, Bool, true, false, Option, none, some,
  List, [], ◌∷◌, length, arith, Option-cases, Ordering-cases, inl, inr, every, is_empty, String,
}
use giganto.Bytes.{Bytes, cmp}
use giganto.Outcome.{Outcome, ok, err}
use giganto.Chrono.{Chrono}
use giganto.Filter.{Text}
use giganto.Export.{ExportFilter}
use giganto.Export.File.{Ended, returned, panicked, Output, Written, write_filtered_data_to_file}
use giganto.Export.Statistics.{
  next_ok, first_values, select_min, timestamp_bytes, has_timestamp, advance, get_elem?, set,
  remove_at, items_left, write_merged, export_statistic_file,
}

pub length-set : {A : Type 0} (xs : List A) (i : ℕ) (y : A) → length (set xs i y) ≡ length xs
length-set [] i y = refl
length-set (x ∷ xs) zero y = refl
length-set (x ∷ xs) (suc i) y = ap suc (length-set xs i y)

pub length-remove_at :
    {A : Type 0} (xs : List A) (i : ℕ) → i < length xs → suc (length (remove_at xs i)) ≡ length xs
length-remove_at [] i h = omega arith
length-remove_at (x ∷ xs) zero h = refl
length-remove_at (x ∷ xs) (suc i) h = ap suc (length-remove_at xs i (omega (arith, h)))

module _ {T : Type 0} where
  -- A value that is taken is an item less.
  abbrev Shorter : ℕ → Option T × List (Outcome T) → Type 0
  Shorter n (none, rest) = Unit
  Shorter n (some v, rest) = length rest < n

  Shorter-suc : (n : ℕ) (r : Option T × List (Outcome T)) → Shorter n r → Shorter (suc n) r
  Shorter-suc n (none, rest) h = tt
  Shorter-suc n (some v, rest) h = omega (arith, h)

  next_ok-Shorter : (iter : List (Outcome T)) → Shorter (length iter) (next_ok iter)
  unfolding next_ok
  next_ok-Shorter [] = tt
  next_ok-Shorter (ok item ∷ rest) = omega arith
  next_ok-Shorter (err e ∷ rest) = Shorter-suc (length rest) (next_ok rest) (next_ok-Shorter rest)

  next_ok_shorter :
      (iter : List (Outcome T)) (v : T)
      → (next_ok iter).0 ≡ some v
      → length (next_ok iter).1 < length iter
  next_ok_shorter iter v e = shorter_lem (length iter) (next_ok iter) v e (next_ok-Shorter iter)
    where
      shorter_lem :
          (n : ℕ) (r : Option T × List (Outcome T)) (v : T)
          → r.0 ≡ some v
          → Shorter n r
          → length r.1 < n
      shorter_lem n (none, rest) v e s = cc
      shorter_lem n (some u, rest) v e s = s

  next_ok_rest : (iter : List (Outcome T)) → length (next_ok iter).1 ≤ length iter
  unfolding next_ok
  next_ok_rest [] = omega arith
  next_ok_rest (ok item ∷ rest) = omega arith
  next_ok_rest (err e ∷ rest) = omega (arith, next_ok_rest rest)

  pub items_left-set :
      (iters : List (List (Outcome T))) (i : ℕ) (iter rest : List (Outcome T))
      → get_elem? iters i ≡ some iter
      → items_left (set iters i rest) + length iter ≡ items_left iters + length rest
  items_left-set [] i iter rest h = cc
  items_left-set (x ∷ iters) zero iter rest h = let same : x ≡ iter = cc in rw same (omega arith)
  items_left-set (x ∷ iters) (suc i) iter rest h = omega (arith, items_left-set iters i iter rest h)

  pub items_left-remove_at :
      (iters : List (List (Outcome T))) (i : ℕ) → items_left (remove_at iters i) ≤ items_left iters
  items_left-remove_at [] i = omega arith
  items_left-remove_at (x ∷ iters) zero = omega arith
  items_left-remove_at (x ∷ iters) (suc i) = omega (arith, items_left-remove_at iters i)

  pub get_elem-found :
      (iters : List (List (Outcome T))) (i : ℕ)
      → i < length iters
      → (iter : List (Outcome T)) × (get_elem? iters i ≡ some iter)
  get_elem-found [] i h = absurd (omega (arith, h))
  get_elem-found (x ∷ iters) zero h = (x, refl)
  get_elem-found (x ∷ iters) (suc i) h = get_elem-found iters i (omega (arith, h))

select_min-bound :
    {T : Type 0} (n index i : ℕ) (key : Bytes) (value : T) (items : List (Bytes × T))
    → i < n
    → index + length items ≤ n
    → (select_min index (i, key, value) items).0 < n
unfolding select_min
select_min-bound n index i key value [] h k = h
select_min-bound n index i key value (item ∷ items) h k =
    let less =
      select_min-bound n (suc index) index item.0 item.1 items (omega (arith, k))
        (omega (arith, k)) in
    let same = select_min-bound n (suc index) i key value items h (omega (arith, k)) in
    elim (Ordering-cases (cmp (timestamp_bytes item.0) (timestamp_bytes key))) [
      | inl e ↦ rw (select_min, e) less
      | inr (inl e) ↦ rw (select_min, e) same
      | inr (inr e) ↦ rw (select_min, e) same
    ]

module _ (c : Chrono) {T : Type 0} (o : Output T) (filter : ExportFilter c)
    (export_type : String) where
  -- The items and values that are left are fewer, and no more values than iterators.
  abbrev Less : ℕ → List (Bytes × T) × List (List (Outcome (Bytes × T))) → Type 0
  Less n r = (items_left r.1 + length r.0 < n) × (length r.0 ≤ length r.1)

  advance-Less :
      (i : ℕ) (values : List (Bytes × T)) (iters : List (List (Outcome (Bytes × T))))
      → i < length values
      → length values ≤ length iters
      → Less (items_left iters + length values) (advance c o filter export_type i values iters)
  unfolding advance
  advance-Less i values iters h k =
      let (iter, g) = get_elem-found iters i (omega (arith, h, k)) in
      let fewer = length-remove_at values i h in
      let fewer_iters = length-remove_at iters i (omega (arith, h, k)) in
      let left = items_left-remove_at iters i in
      elim (Option-cases (next_ok iter).0) [
        | inl e ↦
            rw (advance, g, e) (omega (arith, fewer, left), omega (arith, fewer, fewer_iters, k))
        | inr (v, e) ↦
            let short = next_ok_shorter iter v e in
            let sum = items_left-set iters i iter (next_ok iter).1 g in
            let n = length-set values i v in
            let n' = length-set iters i (next_ok iter).1 in
            rw (advance, g, e) (omega (arith, short, sum, n), omega (arith, n, n', k))
      ]

  abbrev Ends : Option Written → Type 0
  Ends r = (w : Written) × (r ≡ some w)

  -- What follows a value that was written.
  after_write :
      Bool → Ended (Unit {0}) → List Text → List Text → Bool → Option Written → Option Written
  after_write timestamps r file' file last later =
      if timestamps
      then elim r [
        | panicked p ↦ some (panicked p, file')
        | returned (err e) ↦ some (returned (err e), file')
        | returned (ok _) ↦ if last then some (returned (ok tt), file') else later
      ]
      else some (panicked "attempt to subtract with overflow", file)

  after :
      (timestamps : Bool) (r : Ended (Unit {0})) (file' file : List Text) (last : Bool)
      (later : Option Written)
      → Ends later
      → Ends (after_write timestamps r file' file last later)
  unfolding after_write
  after false r file' file last later h =
      ((panicked "attempt to subtract with overflow", file), refl)
  after true (panicked p) file' file last later h = ((panicked p, file'), refl)
  after true (returned (err e)) file' file last later h = ((returned (err e), file'), refl)
  after true (returned (ok _)) file' file true later h = ((returned (ok tt), file'), refl)
  after true (returned (ok _)) file' file false later h = h

  write_merged-Ends :
      (rounds : ℕ) (values : List (Bytes × T)) (iters : List (List (Outcome (Bytes × T))))
      (file : List Text)
      → items_left iters + length values < rounds
      → length values ≤ length iters
      → Ends (write_merged c o filter export_type rounds values iters file)
  unfolding write_merged after_write
  write_merged-Ends zero values iters file h k = absurd (omega (arith, h))
  write_merged-Ends (suc n) [] iters file h k = ((panicked "index out of bounds", file), refl)
  write_merged-Ends (suc n) (v ∷ values) iters file h k =
      let m = select_min 0 (0, v.0, v.1) (v ∷ values) in
      let b =
        select_min-bound (suc (length values)) 0 0 v.0 v.1 (v ∷ values) (omega arith)
          (omega arith) in
      let step = write_filtered_data_to_file c o filter export_type m.1 m.2 file in
      let next = advance c o filter export_type m.0 (v ∷ values) iters in
      let less = advance-Less m.0 (v ∷ values) iters b k in
      after (every has_timestamp (v ∷ values)) step.0 step.1 file (is_empty next.0)
        (write_merged c o filter export_type n next.0 next.1 step.1)
        (write_merged-Ends n next.0 next.1 step.1 (omega (arith, less.0, h)) less.1)

  first_values-Less :
      (iters : List (List (Outcome (Bytes × T))))
      → (items_left (first_values iters).1 + length (first_values iters).0 ≤ items_left iters)
        × (length (first_values iters).0 ≤ length (first_values iters).1)
  unfolding first_values
  first_values-Less [] = (omega arith, omega arith)
  first_values-Less (iter ∷ iters) =
      let ih = first_values-Less iters in
      elim (Option-cases (next_ok iter).0) [
        | inl e ↦ rw (first_values, e) (omega (arith, next_ok_rest iter, ih.0), omega (arith, ih.1))
        | inr (v, e) ↦
            let short = next_ok_shorter iter v e in
            rw (first_values, e) (omega (arith, short, ih.0), omega (arith, ih.1))
      ]

  -- The export of statistics ends, whatever its iterators yield: with a round for each item and
  -- one more it returns or panics.
  pub export_statistic_file-Ends :
      (create : Outcome (Unit {0})) (iters : List (List (Outcome (Bytes × T)))) (file : List Text)
      → (w : Written) × (export_statistic_file c o filter export_type create iters file ≡ some w)
  unfolding export_statistic_file
  export_statistic_file-Ends (err e) iters file = ((returned (err e), file), refl)
  export_statistic_file-Ends (ok _) iters file =
      let f = first_values-Less iters in
      write_merged-Ends (suc (items_left iters)) (first_values iters).0 (first_values iters).1 []
        (omega (arith, f.0)) f.1
