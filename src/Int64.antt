-- ===== src/Int64.antt =====
-- `i64`: signed numbers, their two's complement bytes (`to_be_bytes`, `from_be_bytes`) and the
-- operations that the storage keys use.
use giganto.Prelude.{
  ℕ, zero, suc, ◌-◌, ◌^◌, ◌<◌, ◌≡◌, Bool, true, false, Option, none, some, arith, ltb, compare,
  Ordering, if◌then◌else◌, length,
}
use giganto.Bytes.{Bytes, to_be, of_be}
use giganto.Bytes.Endian.{length-to_be, of_be-to_be}

-- `negsuc n` is -(n + 1).
pub data ℤ : Type 0 where
  pos : ℕ → ℤ
  negsuc : ℕ → ℤ

abbrev pub InI64 : ℤ → Type 0
InI64 (pos n) = n < 2 ^ 63
InI64 (negsuc n) = n < 2 ^ 63

abbrev pub i64_max : ℤ
i64_max = pos (2 ^ 63 - 1)

abbrev pub i64_min : ℤ
i64_min = negsuc (2 ^ 63 - 1)

-- The bit pattern of a number in range.
abbrev pub word : ℤ → ℕ
word (pos n) = n
word (negsuc n) = 2 ^ 64 - 1 - n

abbrev pub of_word : ℕ → ℤ
of_word w = if ltb w (2 ^ 63) then pos w else negsuc (2 ^ 64 - 1 - w)

unfoldable pub to_be_bytes : ℤ → Bytes
to_be_bytes z = to_be 8 (word z)

unfoldable pub from_be_bytes : Bytes → ℤ
from_be_bytes bs = of_word (of_be bs)

-- `ns.checked_sub(1)`.
abbrev pub checked_pred : ℤ → Option ℤ
checked_pred (pos zero) = some (negsuc 0)
checked_pred (pos (suc n)) = some (pos n)
checked_pred (negsuc n) = if ltb (suc n) (2 ^ 63) then some (negsuc (suc n)) else none

abbrev pub is_nonneg : ℤ → Bool
is_nonneg (pos n) = true
is_nonneg (negsuc n) = false

-- `Ord::cmp` of two numbers.
abbrev pub cmp_ℤ : ℤ → ℤ → Ordering
cmp_ℤ (pos a) (pos b) = compare a b
cmp_ℤ (pos a) (negsuc b) = Ordering.gt
cmp_ℤ (negsuc a) (pos b) = Ordering.lt
cmp_ℤ (negsuc a) (negsuc b) = compare b a

pub word-lt : (z : ℤ) → InI64 z → word z < 2 ^ 64
word-lt (pos n) h = omega arith
word-lt (negsuc n) h = omega arith

of_word-word : (z : ℤ) → InI64 z → of_word (word z) ≡ z
of_word-word (pos n) h = ground arith
of_word-word (negsuc n) h = ground arith

pub length-to_be_bytes : (z : ℤ) → length (to_be_bytes z) ≡ 8
unfolding to_be_bytes
length-to_be_bytes z = length-to_be 8 (word z)

-- The bytes of a number in range decode to it.
pub from_be_bytes-to_be_bytes : (z : ℤ) → InI64 z → from_be_bytes (to_be_bytes z) ≡ z
unfolding to_be_bytes from_be_bytes
from_be_bytes-to_be_bytes z h = rw (of_be-to_be 8 (word z) (word-lt z h)) (of_word-word z h)
