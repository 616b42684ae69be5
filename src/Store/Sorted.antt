-- ===== src/Store/Sorted.antt =====
-- Facts on ordered lists of entries: selecting and reversing them, and cutting them at a bound.
use mathlib.Core.List.{reverse-cons, append-nil}
use giganto.Prelude.{
  ◌≡◌, refl, sym, ap, Bool, true, false, List, [], ◌∷◌, ◌++◌, reverse, select, All, All-append,
  arith, if◌then◌else◌, Bool-cases, inl, inr,
}
use giganto.Bytes.{Bytes}
use giganto.Bytes.Order.{cmp_refl, eq_of_cmp, lt_trans, lt_of_gt, gt_of_lt}
use giganto.Store.{equals, Entry, Pairwise, Before, from_key, to_key}

module _ {ℓ} {A : Type ℓ} where
  -- The longest prefix whose elements pass.
  abbrev pub cut : (A → Bool) → List A → List A
  cut p [] = []
  cut p (x ∷ xs) = let rest = x ∷ cut p xs in if p x then rest else []

module _ {ℓ} {A : Type ℓ} where
  pub All-select {κ} :
      (P : A → Type κ) (p : A → Bool) (xs : List A) → All P xs → All P (select p xs)
  All-select P p [] h = tt
  All-select P p (x ∷ xs) h = ground (arith, All-select P p xs)

  pub Pairwise-select {κ} :
      (R : A → A → Type κ) (p : A → Bool) (xs : List A) → Pairwise R xs → Pairwise R (select p xs)
  Pairwise-select R p [] h = tt
  Pairwise-select R p (x ∷ xs) h = ground (arith, Pairwise-select R p xs, All-select (R x) p xs)

  All-reverse {κ} : (P : A → Type κ) (xs : List A) → All P xs → All P (reverse xs)
  All-reverse P [] h = tt
  All-reverse P (x ∷ xs) h =
      rw reverse-cons (All-append P (reverse xs) (x ∷ []) (All-reverse P xs h.1) (h.0, tt))

  Pairwise-snoc {κ} :
      (R : A → A → Type κ) (xs : List A) (x : A)
      → Pairwise R xs
      → All (λ y. R y x) xs
      → Pairwise R (xs ++ x ∷ [])
  Pairwise-snoc R [] x h a = (tt, tt)
  Pairwise-snoc R (y ∷ ys) x h a =
      (All-append (R y) ys (x ∷ []) h.0 (a.0, tt), Pairwise-snoc R ys x h.1 a.1)

  pub Pairwise-reverse {κ} :
      (R : A → A → Type κ) (xs : List A) → Pairwise R xs → Pairwise (λ x y. R y x) (reverse xs)
  Pairwise-reverse R [] h = tt
  Pairwise-reverse R (x ∷ xs) h = rw reverse-cons (
      Pairwise-snoc (λ a b. R b a) (reverse xs) x (Pairwise-reverse R xs h.1)
        (All-reverse (R x) xs h.0))

  select-none : (p : A → Bool) (xs : List A) → All (λ x. p x ≡ false) xs → select p xs ≡ []
  select-none p [] h = refl
  select-none p (x ∷ xs) h = rw h.0 (select-none p xs h.1)

  All-imp {κ μ} :
      (P : A → Type κ) (Q : A → Type μ) (f : (x : A) → P x → Q x) (xs : List A)
      → All P xs
      → All Q xs
  All-imp P Q f [] h = tt
  All-imp P Q f (x ∷ xs) h = (f x h.0, All-imp P Q f xs h.1)

  pub All-cut {κ} : (P : A → Type κ) (p : A → Bool) (xs : List A) → All P xs → All P (cut p xs)
  All-cut P p [] h = tt
  All-cut P p (x ∷ xs) h = ground (arith, All-cut P p xs)

  pub Pairwise-cut {κ} :
      (R : A → A → Type κ) (p : A → Bool) (xs : List A) → Pairwise R xs → Pairwise R (cut p xs)
  Pairwise-cut R p [] h = tt
  Pairwise-cut R p (x ∷ xs) h = ground (arith, Pairwise-cut R p xs, All-cut (R x) p xs)

  -- Where a failed test fails for all that follows, the prefix is the selection.
  pub cut-eq-select {κ} :
      (R : A → A → Type κ) (p : A → Bool)
      → ((x y : A) → R x y → p x ≡ false → p y ≡ false)
      → (xs : List A) → Pairwise R xs
      → cut p xs ≡ select p xs
  cut-eq-select R p mono [] h = refl
  cut-eq-select R p mono (x ∷ xs) h = elim (Bool-cases (p x)) [
    | inl e ↦ rw e (ap (◌∷◌ x) (cut-eq-select R p mono xs h.1))
    | inr e ↦
        rw e
          (sym (select-none p xs (All-imp (R x) (λ y. p y ≡ false) (λ y r. mono x y r e) xs h.0)))
  ]

  select-append : (p : A → Bool) (xs ys : List A) → select p (xs ++ ys) ≡ select p xs ++ select p ys
  select-append p [] ys = refl
  select-append p (x ∷ xs) ys = ground (arith, select-append p xs ys)

  pub select-reverse : (p : A → Bool) (xs : List A) → select p (reverse xs) ≡ reverse (select p xs)
  select-reverse p [] = refl
  select-reverse p (x ∷ xs) = elim (Bool-cases (p x)) [
    | inl e ↦
        rw (reverse-cons x xs, select-append p (reverse xs) (x ∷ []), select-reverse p xs, e)
          (sym (reverse-cons x (select p xs)))
    | inr e ↦
        rw (reverse-cons x xs, select-append p (reverse xs) (x ∷ []), select-reverse p xs, e)
          (append-nil _)
  ]

  pub select_comm : (p q : A → Bool) (xs : List A) → select p (select q xs) ≡ select q (select p xs)
  select_comm p q [] = refl
  select_comm p q (x ∷ xs) = ground (arith, select_comm p q xs)

-- Past an upper bound going forward, and past a lower bound going back.
pub to_key_stops : (k : Bytes) (x y : Entry) → Before x y → to_key k x ≡ false → to_key k y ≡ false
to_key_stops k x y h f = ground (arith, lt_of_gt x.0 k, lt_trans k x.0 y.0, gt_of_lt k y.0)

pub from_key_stops :
    (k : Bytes) (x y : Entry) → Before y x → from_key k x ≡ false → from_key k y ≡ false
from_key_stops k x y h f = ground (arith, lt_of_gt k x.0, lt_trans y.0 x.0 k, gt_of_lt y.0 k)

pub equals_refl : (a : Bytes) → equals a a ≡ true
equals_refl a = rw (equals, cmp_refl a) refl

pub equals→eq : (a b : Bytes) → equals a b ≡ true → a ≡ b
equals→eq a b h = eq_of_cmp a b (ground arith)
