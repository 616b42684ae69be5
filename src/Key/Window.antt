-- ===== src/Key/Window.antt =====
-- Which keys a query's time range admits (src/storage.rs): the keys between the bound of the
-- start, which is closed, and that of the end, which is open.
use giganto.Prelude.{
  ℕ, zero, suc, ◌-◌, ◌^◌, ◌≤◌, ◌<◌, ◌≡◌, ◌≢◌, ◌↔◌, refl, sym, compare, Ordering, Option, none, some,
  ◌++◌, arith,
}
use giganto.Bytes.{Bytes, cmp}
use giganto.Bytes.Order.{prefix_of_between}
use giganto.Int64.{ℤ, pos, negsuc, i64_max, to_be_bytes, cmp_ℤ, checked_pred}
use giganto.Chrono.{Chrono}
use giganto.Key.{
  StorageKeyBuilder, builder, start_key, end_key, build, or_max, open_end,
  lower_closed_bound_end_key, upper_open_bound_end_key,
}
use giganto.Key.Shape.{cmp-end_key, NoNul, source_of_prefix}

-- A key at or after `from` and at or before `to`.
abbrev pub Between : Bytes → Bytes → Bytes → Type 0
Between from to k = (cmp from k ≢ Ordering.gt) × (cmp k to ≢ Ordering.gt)

module _ (c : Chrono) where
  open c use {DateTime, timestamp_nanos_opt}

  -- The start is absent or from 1970 on.
  abbrev pub StartsAt : Option DateTime → ℕ → Type 0
  StartsAt none s = s ≡ 0
  StartsAt (some d) s = timestamp_nanos_opt d ≡ some (pos s)

  -- The end is absent or after 1970-01-01.
  abbrev pub EndsAt : Option DateTime → ℕ → Type 0
  EndsAt none e = e ≡ 2 ^ 63
  EndsAt (some d) e = (timestamp_nanos_opt d ≡ some (pos e)) × (0 < e)

  lower_lem :
      (b : StorageKeyBuilder) (start : Option DateTime) (s : ℕ)
      → StartsAt start s
      → (lower_closed_bound_end_key c b start ≡ end_key b (pos s)) × (s < 2 ^ 63)
  unfolding lower_closed_bound_end_key
  lower_lem b none s h = (rw h, omega arith)
  lower_lem b (some d) s h = (rw h, c.nanos_in_range d (pos s) h)

  upper_lem :
      (b : StorageKeyBuilder) (end : Option DateTime) (e : ℕ)
      → EndsAt end e
      → (upper_open_bound_end_key c b end ≡ end_key b (pos (e - 1))) × (0 < e) × (e ≤ 2 ^ 63)
  unfolding upper_open_bound_end_key
  upper_lem b none e h = (rw h, omega arith, omega arith)
  upper_lem b (some d) zero h = absurd (omega arith)
  upper_lem b (some d) (suc n) h =
      let r : suc n < 2 ^ 63 = c.nanos_in_range d (pos (suc n)) h.0 in
      let m : suc n - 1 ≡ n = omega arith in (rw (h.0, m), omega arith, omega arith)

  -- From a start not before 1970 and an end after it, or with either absent, the keys between the
  -- two bounds with a timestamp from 1970 on are those with start ≤ timestamp < end.
  pub Between-window :
      (b : StorageKeyBuilder) (start end : Option DateTime) (s e t : ℕ)
      → StartsAt start s
      → EndsAt end e
      → t < 2 ^ 63
      → Between
          (build (lower_closed_bound_end_key c b start))
          (build (upper_open_bound_end_key c b end))
          (build (end_key b (pos t)))
        ↔ (s ≤ t) × (t < e)
  Between-window b start end s e t hs he ht =
      let (p, ps) = lower_lem b start s hs in
      let (q, qe, qm) = upper_lem b end e he in
      let x : cmp (build (end_key b (pos s))) (build (end_key b (pos t))) ≡ compare s t =
        cmp-end_key b (pos s) (pos t) ps ht in
      let y : cmp (build (end_key b (pos t))) (build (end_key b (pos (e - 1))))
          ≡ compare t (e - 1) =
        cmp-end_key b (pos t) (pos (e - 1)) ht (omega arith) in
      rw (p, q, x, y) (ground arith)

  -- An end whose number of nanoseconds is in range and not after the epoch gives the same upper
  -- key as no end.
  pub upper_open_bound_end_key-epoch :
      (b : StorageKeyBuilder) (d : DateTime) (z : ℤ)
      → timestamp_nanos_opt d ≡ some z
      → cmp_ℤ z (pos 0) ≢ Ordering.gt
      → upper_open_bound_end_key c b (some d) ≡ upper_open_bound_end_key c b none
  unfolding upper_open_bound_end_key
  upper_open_bound_end_key-epoch b d (pos zero) h l = rw h
  upper_open_bound_end_key-epoch b d (pos (suc n)) h l = absurd (ground arith)
  upper_open_bound_end_key-epoch b d (negsuc n) h l = rw h (ground arith)

  lower_shape :
      (b : StorageKeyBuilder) (start : Option DateTime)
      → (x : Bytes) × (build (lower_closed_bound_end_key c b start) ≡ b.pre_key ++ x)
  unfolding lower_closed_bound_end_key
  lower_shape b none = (to_be_bytes (pos 0), refl)
  lower_shape b (some d) = (to_be_bytes (or_max (timestamp_nanos_opt d)), refl)

  upper_shape :
      (b : StorageKeyBuilder) (end : Option DateTime)
      → (x : Bytes) × (build (upper_open_bound_end_key c b end) ≡ b.pre_key ++ x)
  unfolding upper_open_bound_end_key
  upper_shape b none = (to_be_bytes i64_max, refl)
  upper_shape b (some d) =
      (to_be_bytes (open_end (checked_pred (or_max (timestamp_nanos_opt d)))), refl)

  -- If neither of two sources has a zero byte, a key of the second between the two bounds of a
  -- time range of the first, whatever the range, is one of the first: the two are the same.
  pub Between-source :
      (s s' r : Bytes) (start end : Option DateTime)
      → NoNul s
      → NoNul s'
      → Between
          (build (lower_closed_bound_end_key c (start_key builder s) start))
          (build (upper_open_bound_end_key c (start_key builder s) end))
          ((start_key builder s').pre_key ++ r)
      → s ≡ s'
  Between-source s s' r start end h h' b =
      let k = start_key builder s in
      let (x, p) = lower_shape k start in
      let (y, q) = upper_shape k end in
      let b' : Between (k.pre_key ++ x) (k.pre_key ++ y) ((start_key builder s').pre_key ++ r) =
        rw (p, q) at b in
      let (t, e) = prefix_of_between k.pre_key x y _ b'.0 b'.1 in
      (source_of_prefix s s' t r h h' (sym e)).0
