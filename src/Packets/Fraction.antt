-- ===== src/Packets/Fraction.antt =====
-- The fraction of a second in a packet's header (`write_run_tcpdump` of src/graphql.rs).
use Prim.Native.Nat.{bit_and, bit_and-bitwise, digits, min}
use giganto.Bytes.{Bytes}
use giganto.Prelude.{◌≡◌, refl, sym, ◌∙◌, ℕ, zero, suc, ◌+◌, ◌*◌, ◌/◌, ◌%◌, arith}
use giganto.Int64.{pos}
use giganto.Export.File.{a_billion}
use giganto.Packets.{header_of}

-- A number doubled so many times.
doubled : ℕ → ℕ → ℕ
doubled zero c = c
doubled (suc k) c = 2 * doubled k c

doubled-zero : (k : ℕ) → doubled k 0 ≡ 0
unfolding doubled
doubled-zero zero = refl
doubled-zero (suc k) = omega (arith, doubled-zero k)

min-zero : (a : ℕ) → min a 0 ≡ 0
min-zero a = omega arith

pos_injective : (a b : ℕ) → pos a ≡ pos b → a ≡ b
pos_injective a b h = cc

-- The binary digits that two numbers share are a multiple of every power of two that the second is
-- one of.
digits-doubled : (k n a c : ℕ) → (q : ℕ) × (digits (λ b. 0) min n a (doubled k c) ≡ doubled k q)
unfolding doubled
digits-doubled zero n a c = (digits (λ b. 0) min n a c, refl)
digits-doubled (suc k) zero a c = (0, omega (arith, doubled-zero k))
digits-doubled (suc k) (suc n) zero c = (0, omega (arith, doubled-zero k))
digits-doubled (suc k) (suc n) (suc a) c =
    let halved : 2 * doubled k c / 2 ≡ doubled k c = omega arith in
    let even : 2 * doubled k c % 2 ≡ 0 = omega arith in
    let (q, e) = digits-doubled k n (suc a / 2) c in
    (q, rw (halved, even, e) (omega (arith, min-zero (suc a % 2))))

fraction_lem : (a : ℕ) → (q : ℕ) × (bit_and a a_billion ≡ 512 * q)
unfolding doubled
fraction_lem a =
    let (q, e) = digits-doubled 9 a a 1953125 in (q, simp bit_and-bitwise (e ∙ omega arith))

-- The fraction of a second in a packet's header is not the timestamp's, unless that is a multiple of
-- 512 nanoseconds: `packet_timestamp & 1_000_000_000`, where the remainder is meant, has no bits
-- below.
pub header_of_fraction :
    (s n : ℕ) (packet : Bytes)
    → ¬ (n % 512 ≡ 0)
    → ¬ (
        (header_of (record { packet_timestamp = pos (s * a_billion + n); packet = packet })).tv_usec
        ≡ pos n)
unfolding header_of
header_of_fraction s n packet odd h =
    let (q, e) = fraction_lem (s * a_billion + n) in
    let same : n ≡ 512 * q = sym (pos_injective _ n h) ∙ e in odd (omega (arith, same))
