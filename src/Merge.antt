-- ===== src/Merge.antt =====
-- The stable merge of any number of sequences: the order in which the loops over several stores of
-- src/graphql/network.rs and src/graphql/export.rs are to give out their records.
pub mod Ordered
use giganto.Prelude.{
  ◌≡◌, refl, ap, ◌∙◌, Bool, true, false, Option, none, some, List, [], ◌∷◌, if◌then◌else◌, arith,
  Bool-cases, inl, inr, length, ◌+◌, length-append, Option-cases, All,
}

module _ {ℓ} {A : Type ℓ} (le : A → A → Bool) where
  -- On a tie the element of the first sequence comes first.
  unfoldable pub merge : List A → List A → List A
  merge [] ys = ys
  merge (x ∷ xs) [] = x ∷ xs
  merge (x ∷ xs) (y ∷ ys) = elim (le x y) [
    | true ↦ x ∷ merge xs (y ∷ ys)
    | false ↦ y ∷ merge (x ∷ xs) ys
  ]

  unfoldable pub merge_all : List (List A) → List A
  unfolding merge
  merge_all [] = []
  merge_all (l ∷ ls) = merge l (merge_all ls)

  -- The first of the least heads, and the sequences without it.
  unfoldable pub pick : List (List A) → Option (A × List (List A))
  pick [] = none
  pick ([] ∷ ls) = elim (pick ls) [ none ↦ none | some p ↦ some (p.0, [] ∷ p.1) ]
  pick ((x ∷ xs) ∷ ls) = elim (pick ls) [
    | none ↦ some (x, xs ∷ ls)
    | some p ↦ if le x p.0 then some (x, xs ∷ ls) else some (p.0, (x ∷ xs) ∷ p.1)
  ]

  merge-nil : (xs : List A) → merge xs [] ≡ xs
  unfolding merge
  merge-nil [] = refl
  merge-nil (x ∷ xs) = refl

  -- The merge begins with the element that is picked.
  pub merge_all-pick :
      (ls : List (List A))
      → merge_all ls ≡ elim (pick ls) [ none ↦ [] | some p ↦ p.0 ∷ merge_all p.1 ]
  unfolding merge_all merge pick
  merge_all-pick [] = refl
  merge_all-pick ([] ∷ ls) =
      let ih = merge_all-pick ls in
      elim (Option-cases (pick ls)) [ inl e ↦ ground arith | inr (p, e) ↦ ground arith ]
  merge_all-pick ((x ∷ xs) ∷ ls) =
      let ih = merge_all-pick ls in
      elim (Option-cases (pick ls)) [
        | inl e ↦ ground (arith, merge-nil xs)
        | inr (p, e) ↦ elim (Bool-cases (le x p.0)) [ inl t ↦ ground arith | inr t ↦ ground arith ]
      ]

  abbrev pub Chosen {κ} : (A → Type κ) → Option (A × List (List A)) → Type κ
  Chosen P none = Unit
  Chosen P (some p) = P p.0 × All (All P) p.1

  -- What holds of all elements holds of the one that is picked and of those that are left.
  pub pick-Chosen {κ} : (P : A → Type κ) (ls : List (List A)) → All (All P) ls → Chosen P (pick ls)
  unfolding pick
  pick-Chosen P [] h = tt
  pick-Chosen P ([] ∷ ls) h =
      let ih = pick-Chosen P ls h.1 in
      elim (Option-cases (pick ls)) [
        | inl e ↦ rw (pick, e) tt
        | inr (p, e) ↦ rw (pick, e) (let (i, j) = rw e at ih in (i, (tt, j)))
      ]
  pick-Chosen P ((x ∷ xs) ∷ ls) h =
      let ih = pick-Chosen P ls h.1 in
      elim (Option-cases (pick ls)) [
        | inl e ↦ rw (pick, e) (h.0.0, (h.0.1, h.1))
        | inr (p, e) ↦
            let (i, j) = rw e at ih in
            elim (Bool-cases (le x p.0)) [
              | inl t ↦ rw (pick, e, t) (h.0.0, (h.0.1, h.1))
              | inr t ↦ rw (pick, e, t) (i, (h.0, j))
            ]
      ]
