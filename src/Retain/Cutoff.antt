-- ===== src/Retain/Cutoff.antt =====
-- Which entries a turn of `retain_periodically` (src/storage.rs) keeps.
use giganto.Prelude.{
  ℕ, ◌≡◌, ◌↔◌, Bool, true, false, ◌&&◌, not, ◌≤◌, ◌<◌, arith, Ordering, compare, ◌^◌,
}
use giganto.Bytes.{Bytes, cmp}
use giganto.Int64.{ℤ, InI64, pos, word}
use giganto.Key.{builder, start_key, end_key, build}
use giganto.Key.Shape.{cmp-end_key}
use giganto.Retain.{range_key, default_from}

abbrev pub is_lt : Ordering → Bool
is_lt o = elim o [ Ordering.lt ↦ true | _ ↦ false ]

-- Whether a key is in the range from `from`, included, to `to`, excluded.
abbrev pub in_range : Bytes → Bytes → Bytes → Bool
in_range from to key = is_lt (cmp key to) && not (is_lt (cmp key from))

abbrev pub removed : ℤ → Bytes → Bytes → Bool
removed cutoff source key = in_range (range_key source default_from) (range_key source cutoff) key

-- The key of an event of the source with a time from 1970 on is in the range that is deleted up
-- to a cut-off exactly if the time is from 61 seconds on and before the cut-off's bytes, taken as
-- those of a number without a sign.
pub removed-word :
    (source : Bytes) (t : ℕ) (cutoff : ℤ)
    → t < 2 ^ 63
    → InI64 cutoff
    → (removed cutoff source (build (end_key (start_key builder source) (pos t))) ≡ true)
      ↔ (61000000000 ≤ t) × (t < word cutoff)
removed-word source t cutoff ht hc =
    let a : cmp (build (end_key (start_key builder source) (pos t))) (range_key source cutoff)
        ≡ compare t (word cutoff) =
      unfold end_key start_key in cmp-end_key (start_key builder source) (pos t) cutoff ht hc in
    let b : cmp (build (end_key (start_key builder source) (pos t))) (range_key source default_from)
        ≡ compare t 61000000000 =
      unfold end_key start_key in
      cmp-end_key (start_key builder source) (pos t) default_from ht (omega arith) in
    rw (a, b) (ground arith)
