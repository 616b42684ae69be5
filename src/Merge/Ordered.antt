-- ===== src/Merge/Ordered.antt =====
-- The stable merge of ordered sequences is ordered, and has all their elements.
use giganto.Prelude.{◌≡◌, Bool, true, false, List, [], ◌∷◌, All, All-map, Bool-cases, inl, inr}
use giganto.Store.{Pairwise}
use giganto.Merge.{merge, merge_all}

abbrev pub Ordered : {A : Type 0} → (A → A → Bool) → List A → Type 0
Ordered le = Pairwise (λ a b. le a b ≡ true)

module _ {A : Type 0} (le : A → A → Bool) (total : (a b : A) → le a b ≡ false → le b a ≡ true)
    (trans : (a b c : A) → le a b ≡ true → le b c ≡ true → le a c ≡ true) where
  All-merge : (P : A → Type 0) (xs ys : List A) → All P xs → All P ys → All P (merge le xs ys)
  unfolding merge
  All-merge P [] ys h k = k
  All-merge P (x ∷ xs) [] h k = h
  All-merge P (x ∷ xs) (y ∷ ys) h k =
      let a = All-merge P xs (y ∷ ys) h.1 k in
      let b = All-merge P (x ∷ xs) ys h k.1 in
      elim (Bool-cases (le x y)) [ inl t ↦ rw (merge, t) (h.0, a) | inr t ↦ rw (merge, t) (k.0, b) ]

  -- All that follow a head that is behind `a` are behind `a`.
  from_head :
      (a b : A) (l : List A)
      → le a b ≡ true
      → All (λ z. le b z ≡ true) l
      → All (λ z. le a z ≡ true) l
  from_head a b l h k = All-map (λ z t. trans a b z h t) l k

  merge-Ordered : (xs ys : List A) → Ordered le xs → Ordered le ys → Ordered le (merge le xs ys)
  unfolding merge
  merge-Ordered [] ys h k = k
  merge-Ordered (x ∷ xs) [] h k = h
  merge-Ordered (x ∷ xs) (y ∷ ys) h k =
      let a = merge-Ordered xs (y ∷ ys) h.1 k in
      let b = merge-Ordered (x ∷ xs) ys h k.1 in
      elim (Bool-cases (le x y)) [
        | inl t ↦
            let behind =
              All-merge (λ z. le x z ≡ true) xs (y ∷ ys) h.0 (t, from_head x y ys t k.0) in
            rw (merge, t) (behind, a)
        | inr t ↦
            let u = total x y t in
            let behind =
              All-merge (λ z. le y z ≡ true) (x ∷ xs) ys (u, from_head y x xs u h.0) k.0 in
            rw (merge, t) (behind, b)
      ]

  -- Ordered sequences have an ordered merge.
  pub merge_all-Ordered : (ls : List (List A)) → All (Ordered le) ls → Ordered le (merge_all le ls)
  unfolding merge_all
  merge_all-Ordered [] h = tt
  merge_all-Ordered (l ∷ ls) h = merge-Ordered l (merge_all le ls) h.0 (merge_all-Ordered ls h.1)
