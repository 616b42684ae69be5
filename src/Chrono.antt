-- ===== src/Chrono.antt =====
-- What the program uses of chrono's `DateTime<Utc>`: the conversions to and from nanoseconds.
use giganto.Prelude.{
  ◌≡◌, ap, Bool, true, false, Ordering, Option, none, some, if◌then◌else◌, ltb, ◌^◌, arith,
}
use giganto.Int64.{ℤ, InI64, pos, negsuc, cmp_ℤ}

pub record Chrono : Type 1 where
  pub DateTime : Type 0
  pub timestamp_nanos_opt : DateTime → Option ℤ
  -- `Utc.timestamp_nanos`
  pub timestamp_nanos : ℤ → DateTime
  -- `timestamp_nanos_opt` is `None` exactly out of range.
  pub nanos_in_range : (d : DateTime) (z : ℤ) → timestamp_nanos_opt d ≡ some z → InI64 z
  pub opt-timestamp_nanos : (z : ℤ) → InI64 z → timestamp_nanos_opt (timestamp_nanos z) ≡ some z

abbrev pub in_range : ℤ → Option ℤ
in_range (pos n) = if ltb n (2 ^ 63) then some (pos n) else none
in_range (negsuc n) = if ltb n (2 ^ 63) then some (negsuc n) else none

pub in_range-InI64 : (d z : ℤ) → in_range d ≡ some z → InI64 z
in_range-InI64 (pos n) (pos m) h = ground arith
in_range-InI64 (pos n) (negsuc m) h = ground arith
in_range-InI64 (negsuc n) (pos m) h = ground arith
in_range-InI64 (negsuc n) (negsuc m) h = ground arith

pub in_range_lem : (z : ℤ) → InI64 z → in_range z ≡ some z
in_range_lem (pos n) h = ground arith
in_range_lem (negsuc n) h = ground arith

-- A clock that meets the assumptions: a date is its number of nanoseconds.
abbrev pub nanos : Chrono
nanos = record {
  DateTime = ℤ;
  timestamp_nanos_opt = in_range;
  timestamp_nanos = λ z. z;
  nanos_in_range = in_range-InI64;
  opt-timestamp_nanos = in_range_lem;
}

-- `Ord` of `DateTime<Utc>`, and the first and the last moment that it can hold.
pub record Moments (D : Type 0) : Type 0 where
  pub leb : D → D → Bool
  pub max_utc : D
  pub min_utc : D
  pub leb_total : (a b : D) → leb a b ≡ false → leb b a ≡ true
  pub leb_antisym : (a b : D) → leb a b ≡ true → leb b a ≡ true → a ≡ b
  pub leb_trans : (a b c : D) → leb a b ≡ true → leb b c ≡ true → leb a c ≡ true

abbrev pub leb_ℤ : ℤ → ℤ → Bool
leb_ℤ a b = elim (cmp_ℤ a b) [ Ordering.gt ↦ false | _ ↦ true ]

pub leb_ℤ_total : (a b : ℤ) → leb_ℤ a b ≡ false → leb_ℤ b a ≡ true
leb_ℤ_total (pos a) (pos b) h = ground arith
leb_ℤ_total (pos a) (negsuc b) h = ground arith
leb_ℤ_total (negsuc a) (pos b) h = ground arith
leb_ℤ_total (negsuc a) (negsuc b) h = ground arith

pub leb_ℤ_antisym : (a b : ℤ) → leb_ℤ a b ≡ true → leb_ℤ b a ≡ true → a ≡ b
leb_ℤ_antisym (pos a) (pos b) h k = ap pos (ground arith)
leb_ℤ_antisym (pos a) (negsuc b) h k = cc
leb_ℤ_antisym (negsuc a) (pos b) h k = cc
leb_ℤ_antisym (negsuc a) (negsuc b) h k = ap negsuc (ground arith)

pub leb_ℤ_trans : (a b c : ℤ) → leb_ℤ a b ≡ true → leb_ℤ b c ≡ true → leb_ℤ a c ≡ true
leb_ℤ_trans (pos a) (pos b) (pos c) h k = ground arith
leb_ℤ_trans (pos a) (pos b) (negsuc c) h k = ground arith
leb_ℤ_trans (pos a) (negsuc b) c h k = ground arith
leb_ℤ_trans (negsuc a) b (pos c) h k = ground arith
leb_ℤ_trans (negsuc a) (pos b) (negsuc c) h k = ground arith
leb_ℤ_trans (negsuc a) (negsuc b) (negsuc c) h k = ground arith

-- The moments of `nanos`.
abbrev pub nanos_order : Moments ℤ
nanos_order = record {
  leb = leb_ℤ;
  max_utc = pos (2 ^ 100);
  min_utc = negsuc (2 ^ 100);
  leb_total = leb_ℤ_total;
  leb_antisym = leb_ℤ_antisym;
  leb_trans = leb_ℤ_trans;
}
