-- ===== src/Statistics/Selected.antt =====
-- Which values a round of `gen_statistics` (src/graphql/statistics.rs) selects: those with the
-- timestamp of the latest, by indices that fall.
use giganto.Prelude.{
  ◌≡◌, refl, ℕ, suc, ◌+◌, ◌<◌, ◌≤◌, Bool, true, false, ◌||◌, List, [], ◌∷◌, length, any, arith,
  Bool-cases, Ordering-cases, inl, inr, or_later,
}
use giganto.Bytes.{cmp}
use giganto.Int64.{ℤ}
use giganto.Dispatch.{RawEventKind}
use giganto.Export.Statistics.{timestamp_bytes}
use giganto.Statistics.{Item, Totals, latest_of, timestamp_of, at_time, add_allowed, collect}
use giganto.Statistics.Leftover.{cmp_ℤ_refl}

-- Indices that fall, all below a bound.
abbrev pub Falls : ℕ → List ℕ → Type 0
Falls n [] = Unit
Falls n (i ∷ indices) = (i < n) × Falls i indices

pub Falls-mono : (n m : ℕ) (l : List ℕ) → n ≤ m → Falls n l → Falls m l
Falls-mono n m [] h f = tt
Falls-mono n m (i ∷ l) h f = (omega (arith, f.0, h), f.1)

pub collect-Falls :
    (kinds : List RawEventKind) (t : ℤ) (index : ℕ) (items : List Item) (totals : Totals)
    (l : List ℕ)
    → Falls index l
    → Falls (index + length items) (collect kinds t index items totals l).1
unfolding collect
collect-Falls kinds t index [] totals l f = Falls-mono index (index + 0) l (omega arith) f
collect-Falls kinds t index (item ∷ items) totals l f =
    let hit =
      collect-Falls kinds t (suc index) items (add_allowed kinds item.1.stats totals) (index ∷ l)
        (omega arith, f) in
    let miss =
      collect-Falls kinds t (suc index) items totals l
        (Falls-mono index (suc index) l (omega arith) f) in
    elim (Bool-cases (at_time t item)) [
      | inl e ↦
          rw (collect, e)
            (Falls-mono (suc index + length items) (index + suc (length items)) _ (omega arith) hit)
      | inr e ↦
          rw (collect, e)
            (Falls-mono (suc index + length items) (index + suc (length items)) _ (omega arith)
              miss)
    ]

-- There are as many indices as before, and one more where a value has the timestamp.
pub collect-more :
    (kinds : List RawEventKind) (t : ℤ) (index : ℕ) (items : List Item) (totals : Totals)
    (l : List ℕ)
    → (length l ≤ length (collect kinds t index items totals l).1)
      × (any (at_time t) items ≡ true → length l < length (collect kinds t index items totals l).1)
unfolding collect
collect-more kinds t index [] totals l = (omega arith, λ h. cc)
collect-more kinds t index (item ∷ items) totals l =
    let hit =
      collect-more kinds t (suc index) items (add_allowed kinds item.1.stats totals) (index ∷ l) in
    let miss = collect-more kinds t (suc index) items totals l in
    elim (Bool-cases (at_time t item)) [
      | inl e ↦ rw (collect, e) (omega (arith, hit.0), λ h. omega (arith, hit.0))
      | inr e ↦ rw (collect, e) miss
    ]

or_here : (a b : Bool) → a ≡ true → (a || b) ≡ true
or_here true b h = refl
or_here false b h = cc

with_middle : (a b c : Bool) → (a || c) ≡ true → (a || (b || c)) ≡ true
with_middle true b c h = refl
with_middle false true c h = refl
with_middle false false c h = h

-- The latest is one of the values.
pub latest_of-any :
    (p : Item → Bool) (v : Item) (values : List Item)
    → p (latest_of v values) ≡ true
    → any p (v ∷ values) ≡ true
unfolding latest_of
latest_of-any p v [] = λ h. or_here (p v) false h
latest_of-any p v (item ∷ values) =
    elim (Ordering-cases (cmp (timestamp_bytes item.0) (timestamp_bytes v.0))) [
      | inl e ↦
          rw (latest_of, e)
            (λ h. with_middle (p v) (p item) (any p values) (latest_of-any p v values h))
      | inr (inl e) ↦ rw (latest_of, e) (λ h. or_later (p v) _ (latest_of-any p item values h))
      | inr (inr e) ↦ rw (latest_of, e) (λ h. or_later (p v) _ (latest_of-any p item values h))
    ]

pub at_time_refl : (item : Item) → at_time (timestamp_of item.0) item ≡ true
at_time_refl item = rw (at_time, cmp_ℤ_refl (timestamp_of item.0)) refl
