-- ===== src/Bytes.antt =====
-- Byte strings: the order of `[u8]` slices (`cmp`) and `to_be_bytes`/`from_be_bytes`, which the
-- storage keys of src/storage.rs are made of.
pub mod Order
pub mod Endian
use giganto.Prelude.{
  ℕ, zero, suc, ◌+◌, ◌*◌, ◌/◌, ◌%◌, ◌^◌, compare, Ordering, List, [], ◌∷◌, length,
}

-- A byte is a number; the functions below that make bytes make numbers below 256.
abbrev pub Bytes : Type 0
Bytes = List ℕ

abbrev pub then_with : Ordering → Ordering → Ordering
then_with Ordering.eq o = o
then_with Ordering.lt o = Ordering.lt
then_with Ordering.gt o = Ordering.gt

-- `Ord::cmp` of two slices: lexicographic, a proper prefix first.
unfoldable pub cmp : Bytes → Bytes → Ordering
cmp [] [] = Ordering.eq
cmp [] (y ∷ ys) = Ordering.lt
cmp (x ∷ xs) [] = Ordering.gt
cmp (x ∷ xs) (y ∷ ys) = then_with (compare x y) (cmp xs ys)

-- The `n` big-endian bytes of a number below `256 ^ n`.
unfoldable pub to_be : ℕ → ℕ → Bytes
to_be zero w = []
to_be (suc n) w = w / 256 ^ n ∷ to_be n (w % 256 ^ n)

unfoldable pub of_be : Bytes → ℕ
of_be [] = 0
of_be (b ∷ bs) = b * 256 ^ length bs + of_be bs
