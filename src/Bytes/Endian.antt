-- ===== src/Bytes/Endian.antt =====
-- Big-endian bytes: decoding, length, and that they are ordered as the numbers are.
use native.Mathlib.Nat.{div-add-mod', mod-lt}
use giganto.Prelude.{
  ℕ, zero, suc, ◌+◌, ◌*◌, ◌/◌, ◌%◌, ◌^◌, ◌≤◌, ◌<◌, ◌≡◌, refl, ap, compare, arith, length,
}
use giganto.Bytes.{to_be, of_be, cmp, then_with}
use native.Mathlib.Nat.{pow-suc}

pub length-to_be : (n w : ℕ) → length (to_be n w) ≡ n
unfolding to_be
length-to_be zero w = refl
length-to_be (suc n) w = ap suc (length-to_be n (w % 256 ^ n))

pub pow_pos : (n : ℕ) → 0 < 256 ^ n
pow_pos zero = omega arith
pow_pos (suc n) = rw pow-suc (omega (arith, pow_pos n))

pub of_be-to_be : (n w : ℕ) → w < 256 ^ n → of_be (to_be n w) ≡ w
unfolding of_be to_be
of_be-to_be zero w h = omega arith
of_be-to_be (suc n) w h =
    rw (length-to_be n (w % 256 ^ n), of_be-to_be n (w % 256 ^ n) (mod-lt w (pow_pos n)))
      (div-add-mod' w (256 ^ n))

digit_step : (m q q' : ℕ) → q < q' → q * m + m ≤ q' * m
digit_step m q q' h = grind arith

compare_of_digits :
    (m a b : ℕ)
    → 0 < m
    → then_with (compare (a / m) (b / m)) (compare (a % m) (b % m)) ≡ compare a b
compare_of_digits m a b h = ground (
  arith,
  div-add-mod' a m,
  div-add-mod' b m,
  mod-lt a h,
  mod-lt b h,
  digit_step m (a / m) (b / m),
  digit_step m (b / m) (a / m),
)

pub cmp-to_be : (n a b : ℕ) → a < 256 ^ n → b < 256 ^ n → cmp (to_be n a) (to_be n b) ≡ compare a b
unfolding cmp to_be
cmp-to_be zero a b ha hb = ground arith
cmp-to_be (suc n) a b ha hb =
    rw (cmp-to_be n (a % 256 ^ n) (b % 256 ^ n) (mod-lt a (pow_pos n)) (mod-lt b (pow_pos n)))
      (compare_of_digits (256 ^ n) a b (pow_pos n))
