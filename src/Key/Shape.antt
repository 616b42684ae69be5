-- ===== src/Key/Shape.antt =====
-- The shape of a storage key (src/storage.rs): its timestamp decodes, its order is that of the
-- timestamp's bit pattern, and its source is read back from it.
use mathlib.Core.List.{append_assoc}
use giganto.Prelude.{
  ◌+◌, ◌-◌, ◌<◌, ◌≡◌, ◌≢◌, refl, sym, ap, ◌∙◌, compare, Option, none, some, [], ◌∷◌, ◌++◌, arith,
  length, drop, length-append, drop-append, All, lt→ltb,
}
use giganto.Bytes.{Bytes, cmp}
use giganto.Bytes.Order.{cmp-append}
use giganto.Bytes.Endian.{cmp-to_be}
use giganto.Int64.{
  ℤ, InI64, word, word-lt, to_be_bytes, length-to_be_bytes, from_be_bytes,
  from_be_bytes-to_be_bytes,
}
use giganto.Outcome.{ok}
use giganto.Chrono.{Chrono}
use giganto.Key.{
  StorageKeyBuilder, builder, start_key, mid_key, end_key, build, get_timestamp_from_key,
}

pub drop-timestamp : (p t : Bytes) → length t ≡ 8 → drop (length (p ++ t) - 8) (p ++ t) ≡ t
drop-timestamp p t h =
    let e : length (p ++ t) - 8 ≡ length p = omega (arith, length-append p t, h) in
    rw e (drop-append p t)

pub length-start_key :
    (s : Bytes) (m : Option Bytes) → 0 < length (mid_key (start_key builder s) m).pre_key
unfolding start_key mid_key
length-start_key s none = omega (arith, length-append ([] ++ s) (0 ∷ []))
length-start_key s (some k) = omega (arith, length-append ((([] ++ s) ++ 0 ∷ []) ++ k) (0 ∷ []))

module _ (c : Chrono) where
  decode_suffix :
      (p : Bytes) (ts : ℤ)
      → 0 < length p
      → InI64 ts
      → get_timestamp_from_key c (p ++ to_be_bytes ts) ≡ ok (c.timestamp_nanos ts)
  unfolding get_timestamp_from_key
  decode_suffix p ts long h =
      let n : length (p ++ to_be_bytes ts) ≡ length p + 8 =
        omega (arith, length-append p (to_be_bytes ts), length-to_be_bytes ts) in
      rw (
        lt→ltb 8 (length (p ++ to_be_bytes ts)) (omega arith),
        drop-timestamp p (to_be_bytes ts) (length-to_be_bytes ts),
        from_be_bytes-to_be_bytes ts h,
      )

  -- The timestamp of a key made of a source, an optional middle part and a timestamp in range is
  -- read back by `get_timestamp_from_key`.
  pub get_timestamp_from_key-end_key :
      (source : Bytes) (mid : Option Bytes) (ts : ℤ)
      → InI64 ts
      → get_timestamp_from_key c (build (end_key (mid_key (start_key builder source) mid) ts))
        ≡ ok (c.timestamp_nanos ts)
  unfolding end_key
  get_timestamp_from_key-end_key source mid ts h =
      decode_suffix (mid_key (start_key builder source) mid).pre_key ts
        (length-start_key source mid) h

-- Keys with the same parts and timestamps in range are ordered as the bit patterns of their
-- timestamps are.
pub cmp-end_key :
    (b : StorageKeyBuilder) (x y : ℤ)
    → InI64 x
    → InI64 y
    → cmp (build (end_key b x)) (build (end_key b y)) ≡ compare (word x) (word y)
unfolding end_key to_be_bytes
cmp-end_key b x y hx hy =
    cmp-append b.pre_key _ _ ∙ cmp-to_be 8 (word x) (word y) (word-lt x hx) (word-lt y hy)

abbrev pub NoNul : Bytes → Type 0
NoNul = All (λ b. b ≢ 0)

cut_at_nul :
    (s s' r r' : Bytes) → NoNul s → NoNul s' → (s ++ 0 ∷ r) ≡ (s' ++ 0 ∷ r') → (s ≡ s') × (r ≡ r')
cut_at_nul [] [] r r' h h' e = (refl, cc)
cut_at_nul [] (y ∷ ys) r r' h h' e = absurd (h'.0 (cc))
cut_at_nul (x ∷ xs) [] r r' h h' e = absurd (h.0 (cc))
cut_at_nul (x ∷ xs) (y ∷ ys) r r' h h' e =
    let (p, q) = cut_at_nul xs ys r r' h.1 h'.1 (cc) in (cc, q)

-- Two keys of sources without a zero byte and timestamps in range are equal only if the sources
-- and the timestamps are.
pub end_key_injective :
    (s s' : Bytes) (x y : ℤ)
    → NoNul s
    → NoNul s'
    → InI64 x
    → InI64 y
    → build (end_key (start_key builder s) x) ≡ build (end_key (start_key builder s') y)
    → (s ≡ s') × (x ≡ y)
unfolding end_key start_key
end_key_injective s s' x y h h' hx hy e =
    let (p, q) = cut_at_nul s s' (to_be_bytes x) (to_be_bytes y) h h' (
      sym (append_assoc s (0 ∷ []) (to_be_bytes x))
      ∙ e
      ∙ append_assoc s' (0 ∷ []) (to_be_bytes y)) in
    (p, sym (from_be_bytes-to_be_bytes x hx) ∙ ap from_be_bytes q ∙ from_be_bytes-to_be_bytes y hy)

-- The source of a key is read up to its first zero byte.
pub source_of_prefix :
    (s s' r r' : Bytes)
    → NoNul s
    → NoNul s'
    → (start_key builder s).pre_key ++ r ≡ (start_key builder s').pre_key ++ r'
    → (s ≡ s') × (r ≡ r')
unfolding start_key
source_of_prefix s s' r r' h h' e =
    cut_at_nul s s' r r' h h' (sym (append_assoc s (0 ∷ []) r) ∙ e ∙ append_assoc s' (0 ∷ []) r')
