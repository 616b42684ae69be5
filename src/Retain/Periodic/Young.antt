-- ===== src/Retain/Periodic/Young.antt =====
-- The events that `retain_periodically` (src/storage.rs) keeps, whatever fails.
use giganto.Prelude.{
  ◌≡◌, ℕ, ◌+◌, ◌-◌, ◌≤◌, ◌<◌, ◌^◌, false, none, some, List, [], ◌∷◌, select, not, All, Bool-cases,
  inl, inr, arith, ltb,
}
use giganto.Bytes.{Bytes}
use giganto.Int64.{pos, negsuc}
use giganto.Outcome.{ok, err, Outcome-cases}
use giganto.Key.{builder, start_key, end_key, build}
use giganto.Key.Shape.{NoNul}
use giganto.Search.Found.{In}
use giganto.Store.{Entry}
use giganto.Retain.{before, store_duration}
use giganto.Retain.Cutoff.{in_range, removed}
use giganto.Retain.Periodic.{
  cutoff_of, Faults, Stores, Wakeup, tick, shutdown, retain_sources, retain_loop,
  retain_periodically,
}
use giganto.Retain.Periodic.Safe.{Keeps, Keeps-refl, Keeps-trans, spared, retain_sources-Keeps}

-- At a tick the clock is at least the retention period past 1970, and at most that period past the
-- time; no source's name has a zero byte.
abbrev pub Young : ℕ → ℕ → Wakeup → Type 0
Young retention t (tick (some (pos now)) (ok names) faults) =
    (retention ≤ now) × (now ≤ t + retention) × All NoNul names
Young retention t (tick now (ok names) faults) = ⊥
Young retention t (tick now (err e) faults) = Unit
Young retention t shutdown = Unit

cutoff_lem :
    (now retention t : ℕ)
    → retention ≤ now
    → now ≤ t + retention
    → (cutoff_of (some (pos now)) retention ≡ pos (now - retention)) × (now - retention ≤ t)
cutoff_lem now retention t h k = (ground arith, omega arith)

not_before :
    (t c : ℕ) (key : Bytes)
    → store_duration key ≡ pos t
    → c ≤ t
    → before (store_duration key) (pos c) ≡ false
not_before t c key h k = rw h (ground arith)

module _ (delete_range_cf : Bytes → Bytes → List Entry → List Entry)
    (prefix_iterator_cf : Bytes → List Entry → List Entry)
    (deletes : (from to : Bytes) (entries : List Entry)
      → delete_range_cf from to entries ≡ select (λ e. not (in_range from to e.0)) entries)
    (source value : Bytes) (log : Entry) (t : ℕ) (plain : NoNul source) (in_i64 : t < 2 ^ 63)
    (dated : store_duration log.0 ≡ pos t) where
  abbrev pub event : Entry
  event = (build (end_key (start_key builder source) (pos t)), value)

  all_spared :
      (c : ℕ) (names : List Bytes)
      → c ≤ t
      → All NoNul names
      → All (λ s. removed (pos c) s event.0 ≡ false) names
  all_spared c [] h n = tt
  all_spared c (s ∷ names) h n = (spared source s t c plain n.0 in_i64 h, all_spared c names h n.1)

  -- The stores have the event and the log where they had them.
  abbrev pub BothKept : Stores → Stores → Type 0
  BothKept stores stores' = Keeps event stores.0 stores'.0 × (In log stores.1 → In log stores'.1)

  BothKept-refl : (stores : Stores) → BothKept stores stores
  BothKept-refl stores = (Keeps-refl event stores.0, λ i. i)

  turn-BothKept :
      (retention now : ℕ) (names : List Bytes) (faults : Faults) (stores : Stores)
      → Young retention t (tick (some (pos now)) (ok names) faults)
      → BothKept stores
          (retain_sources delete_range_cf prefix_iterator_cf faults
            (cutoff_of (some (pos now)) retention)
            names
            stores).1
  turn-BothKept retention now names faults stores (r, n, plain_names) =
      let (e, c) = cutoff_lem now retention t r n in
      rw e (
        retain_sources-Keeps delete_range_cf prefix_iterator_cf deletes event log faults
          (pos (now - retention)) names stores (all_spared (now - retention) names c plain_names)
          (not_before t (now - retention) log.0 dated c))

  loop-BothKept :
      (retention : ℕ) (wakeups : List Wakeup) (stores : Stores)
      → All (Young retention t) wakeups
      → BothKept stores (retain_loop delete_range_cf prefix_iterator_cf retention wakeups stores).1
  unfolding retain_loop
  loop-BothKept retention [] stores h = BothKept-refl stores
  loop-BothKept retention (shutdown ∷ wakeups) stores h = BothKept-refl stores
  loop-BothKept retention (tick now (err e) faults ∷ wakeups) stores h = BothKept-refl stores
  loop-BothKept retention (tick none (ok names) faults ∷ wakeups) stores h = elim h.0 [ ]
  loop-BothKept retention (tick (some (negsuc n)) (ok names) faults ∷ wakeups) stores h =
      elim h.0 [ ]
  loop-BothKept retention (tick (some (pos now)) (ok names) faults ∷ wakeups) stores h =
      let turn =
        retain_sources delete_range_cf prefix_iterator_cf faults
          (cutoff_of (some (pos now)) retention) names stores in
      let first = turn-BothKept retention now names faults stores h.0 in
      let rest = loop-BothKept retention wakeups turn.1 h.1 in
      elim (Outcome-cases turn.0) [
        | inl (x, q) ↦ rw (retain_loop, q) first
        | inr (u, q) ↦
            rw (retain_loop, q)
              (Keeps-trans event stores.0 turn.1.0 _ first.0 rest.0, λ i. rest.1 (first.1 i))
      ]

  -- However often the task turns, and whichever deletions and flushes fail, an event of a source
  -- and a log with the same time are where they were in the stores, as long as at no tick they are
  -- older than the retention period, that is at most as long as the clock is past 1970. No source's name
  -- has a zero byte, and a deletion of a range deletes its keys from the first, included, to the
  -- last, excluded.
  pub retain_periodically-BothKept :
      (retention : ℕ) (wakeups : List Wakeup) (stores : Stores)
      → All (Young retention t) wakeups
      → BothKept stores
          (retain_periodically delete_range_cf prefix_iterator_cf retention wakeups stores).1
  unfolding retain_periodically
  retain_periodically-BothKept retention wakeups stores h =
      elim (Bool-cases (ltb retention (2 ^ 63))) [
        | inl b ↦ rw (retain_periodically, b) (loop-BothKept retention wakeups stores h)
        | inr b ↦ rw (retain_periodically, b) (BothKept-refl stores)
      ]
