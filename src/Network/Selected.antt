-- ===== src/Network/Selected.antt =====
-- Which record a round of `network_connection` (src/graphql/network.rs) takes: the first of the
-- least heads.
use giganto.Prelude.{
  ◌≡◌, refl, Bool, true, false, Option, none, some, List, [], ◌∷◌, All, arith, Bool-cases,
  Option-cases, inl, inr,
}
use giganto.Merge.{pick, pick-Chosen}
use giganto.Network.{Lanes, least, same_moment, selected, take_selected}

module _ {D A : Type 0} (le : D → D → Bool) (bound : D)
    (total : (a b : D) → le a b ≡ false → le b a ≡ true) (time : A → D) where
  -- The order of the records, by their timestamps.
  abbrev pub by_time : A → A → Bool
  by_time x y = le (time x) (time y)

  abbrev pub times : Lanes A → List D
  times [] = []
  times ([] ∷ ls) = bound ∷ times ls
  times ((x ∷ xs) ∷ ls) = time x ∷ times ls

  -- Timestamps that the bound is behind.
  abbrev pub Inside : Lanes A → Type 0
  Inside = All (All (λ x. le bound (time x) ≡ false))

  le_refl : (a : D) → le a a ≡ true
  le_refl a = elim (Bool-cases (le a a)) [ inl e ↦ e | inr e ↦ total a a e ]

  least_left : (a b : D) → le a b ≡ true → least le a b ≡ a
  least_left a b h = rw (least, h) refl

  least_right : (a b : D) → le a b ≡ false → least le a b ≡ b
  least_right a b h = rw (least, h) refl

  least_same : (a : D) → least le a a ≡ a
  least_same a = least_left a a (le_refl a)

  pub selected-pick :
      (ls : Lanes A)
      → Inside ls
      → selected le bound (times ls) ≡ elim (pick by_time ls) [ none ↦ bound | some p ↦ time p.0 ]
  unfolding selected pick
  selected-pick [] h = refl
  selected-pick ([] ∷ ls) h =
      let ih = selected-pick ls h.1 in
      let inside = pick-Chosen by_time (λ x. le bound (time x) ≡ false) ls h.1 in
      elim (Option-cases (pick by_time ls)) [
        | inl e ↦ rw (ih, e) (least_same bound)
        | inr (p, e) ↦ rw (ih, e) (least_right bound (time p.0) (rw e at inside).0)
      ]
  selected-pick ((x ∷ xs) ∷ ls) h =
      let ih = selected-pick ls h.1 in
      elim (Option-cases (pick by_time ls)) [
        | inl e ↦ rw (ih, e) (least_left (time x) bound (total bound (time x) h.0.0))
        | inr (p, e) ↦ elim (Bool-cases (by_time x p.0)) [
          | inl t ↦ rw (ih, e, t) refl
          | inr t ↦ rw (ih, e, t) refl
        ]
      ]

  abbrev pub Taken : Lanes A → Option (A × Lanes A) → Type 0
  Taken ls none = take_selected le bound ls (times ls) ≡ (none, ls)
  Taken ls (some p) = take_selected le (time p.0) ls (times ls) ≡ (some p.0, p.1)

  other_moment : (a b : D) → le b a ≡ false → same_moment le a b ≡ false
  other_moment a b h = ground arith

  same_moment_refl : (a : D) → same_moment le a a ≡ true
  same_moment_refl a = let h = le_refl a in ground arith

  -- The arm of the `match` is that of the record that is picked.
  pub take_selected-pick : (ls : Lanes A) → Inside ls → Taken ls (pick by_time ls)
  unfolding take_selected pick
  take_selected-pick [] h = refl
  take_selected-pick ([] ∷ ls) h =
      let ih = take_selected-pick ls h.1 in
      let inside = pick-Chosen by_time (λ x. le bound (time x) ≡ false) ls h.1 in
      elim (Option-cases (pick by_time ls)) [
        | inl e ↦ rw (pick, e, same_moment_refl bound) refl
        | inr (p, e) ↦
            let r = rw e at ih in
            let o = other_moment (time p.0) bound (rw e at inside).0 in rw (pick, e) (ground arith)
      ]
  take_selected-pick ((x ∷ xs) ∷ ls) h =
      let ih = take_selected-pick ls h.1 in
      elim (Option-cases (pick by_time ls)) [
        | inl e ↦ rw (pick, e, same_moment_refl (time x)) refl
        | inr (p, e) ↦ elim (Bool-cases (by_time x p.0)) [
          | inl t ↦ rw (pick, e, t, same_moment_refl (time x)) refl
          | inr t ↦
              let r = rw e at ih in
              let o = other_moment (time p.0) (time x) t in rw (pick, e, t) (ground arith)
        ]
      ]
