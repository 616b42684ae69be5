-- ===== src/Bytes/Order.antt =====
-- The laws of the lexicographic order, and what it says of strings with a common prefix.
use giganto.Prelude.{ℕ, ◌≡◌, ◌≢◌, refl, Ordering, arith, [], ◌∷◌, ◌++◌}
use giganto.Bytes.{Bytes, cmp}

pub cmp_refl : (a : Bytes) → cmp a a ≡ Ordering.eq
unfolding cmp
cmp_refl [] = refl
cmp_refl (x ∷ xs) = ground (arith, cmp_refl xs)

pub eq_of_cmp : (a b : Bytes) → cmp a b ≡ Ordering.eq → a ≡ b
unfolding cmp
eq_of_cmp [] [] h = refl
eq_of_cmp [] (y ∷ ys) h = cc
eq_of_cmp (x ∷ xs) [] h = cc
eq_of_cmp (x ∷ xs) (y ∷ ys) h = ground (arith, eq_of_cmp xs ys)

pub lt_of_gt : (a b : Bytes) → cmp a b ≡ Ordering.gt → cmp b a ≡ Ordering.lt
unfolding cmp
lt_of_gt [] [] h = cc
lt_of_gt [] (y ∷ ys) h = cc
lt_of_gt (x ∷ xs) [] h = refl
lt_of_gt (x ∷ xs) (y ∷ ys) h = ground (arith, lt_of_gt xs ys)

pub gt_of_lt : (a b : Bytes) → cmp a b ≡ Ordering.lt → cmp b a ≡ Ordering.gt
unfolding cmp
gt_of_lt [] [] h = cc
gt_of_lt [] (y ∷ ys) h = refl
gt_of_lt (x ∷ xs) [] h = cc
gt_of_lt (x ∷ xs) (y ∷ ys) h = ground (arith, gt_of_lt xs ys)

pub lt_trans :
    (a b c : Bytes) → cmp a b ≡ Ordering.lt → cmp b c ≡ Ordering.lt → cmp a c ≡ Ordering.lt
unfolding cmp
lt_trans [] [] c h k = cc
lt_trans [] (y ∷ ys) [] h k = cc
lt_trans [] (y ∷ ys) (z ∷ zs) h k = refl
lt_trans (x ∷ xs) [] c h k = cc
lt_trans (x ∷ xs) (y ∷ ys) [] h k = cc
lt_trans (x ∷ xs) (y ∷ ys) (z ∷ zs) h k = ground (arith, lt_trans xs ys zs)

-- A common prefix does not count.
pub cmp-append : (p a b : Bytes) → cmp (p ++ a) (p ++ b) ≡ cmp a b
unfolding cmp
cmp-append [] a b = refl
cmp-append (x ∷ xs) a b = ground (arith, cmp-append xs a b)

cons_eq : (x y : ℕ) (a b : Bytes) → x ≡ y → b ≡ a → y ∷ b ≡ x ∷ a
cons_eq x y a b e q = cc

-- A string between two strings with a common prefix has that prefix.
pub prefix_of_between :
    (p a b k : Bytes)
    → cmp (p ++ a) k ≢ Ordering.gt
    → cmp k (p ++ b) ≢ Ordering.gt
    → (r : Bytes) × (k ≡ p ++ r)
unfolding cmp
prefix_of_between [] a b k h l = (k, refl)
prefix_of_between (x ∷ xs) a b [] h l = absurd (h refl)
prefix_of_between (x ∷ xs) a b (y ∷ ys) h l =
    let e : x ≡ y = ground arith in
    let (r, q) = prefix_of_between xs a b ys (ground arith) (ground arith) in
    (r, cons_eq x y (xs ++ r) ys e q)
