-- ===== src/Retain/Periodic/Deleted.antt =====
-- What the turns of `retain_periodically` (src/storage.rs) delete.
use giganto.Prelude.{
  ◌≡◌, refl, ap, ◌∙◌, sym, subst, ℕ, zero, suc, ◌-◌, ◌≤◌, ◌<◌, ◌^◌, Bool, true, false, not, ◌&&◌,
  some, List, [], ◌∷◌, map, select, All, Bool-cases, inl, inr, arith, every, if◌then◌else◌,
}
use giganto.Bytes.{Bytes}
use giganto.Int64.{ℤ, pos, InI64, word}
use giganto.Outcome.{ok}
use giganto.Export.File.{minus}
use giganto.Key.{builder, start_key, end_key, build}
use giganto.Search.Found.{In}
use giganto.Store.{Entry}
use giganto.Retain.{retain_store, range_key, default_from}
use giganto.Retain.Cutoff.{in_range, removed, removed-word}
use giganto.Retain.Periodic.Safe.{true-false}
use giganto.Retain.Periodic.{cutoff_of, Faults, Stores, retain_all, retain_logs, retain_sources}

select-select {ℓ} :
    {A : Type ℓ} (p q : A → Bool) (xs : List A)
    → select q (select p xs) ≡ select (λ x. p x && q x) xs
select-select p q [] = refl
select-select p q (x ∷ xs) =
    let h = select-select p q xs in
    elim (Bool-cases (p x)) [ inl e ↦ ground arith | inr e ↦ ground arith ]

map-fuse {ℓ} :
    {A : Type ℓ} (f g h : A → A)
    → ((x : A) → g (f x) ≡ h x)
    → (xs : List A) → map g (map f xs) ≡ map h xs
map-fuse f g h e [] = refl
map-fuse f g h e (x ∷ xs) = let a = e x in let b = map-fuse f g h e xs in cc

map-same {ℓ} : {A : Type ℓ} (f : A → A) → ((x : A) → f x ≡ x) → (xs : List A) → map f xs ≡ xs
map-same f e [] = refl
map-same f e (x ∷ xs) = let a = e x in let b = map-same f e xs in cc

select-true {ℓ} : {A : Type ℓ} (xs : List A) → select (λ x. true) xs ≡ xs
select-true [] = refl
select-true (x ∷ xs) = ap (λ l. x ∷ l) (select-true xs)

-- Entries that no source's range removes.
abbrev pub kept : ℤ → List Bytes → Entry → Bool
kept cutoff sources e = every (λ source. not (removed cutoff source e.0)) sources

-- Nothing fails.
abbrev pub no_faults : Faults
no_faults = record {
  range_fails = λ source n. false;
  flush_fails = λ source n. false;
  delete_fails = λ source key. false;
  log_flush_fails = λ source. false;
}

not_In-select :
    (p : Entry → Bool) (e : Entry) (l : List Entry) → p e ≡ false → In e (select p l) → ⊥
not_In-select p e [] h i = i
not_In-select p e (x ∷ l) h i = elim (Bool-cases (p x)) [
  | inl t ↦ elim (subst (λ l. In e l) (ap (λ b. if b then x ∷ select p l else select p l) t) i) [
    | inl q ↦ absurd (true-false (sym t ∙ ap p (sym q) ∙ h))
    | inr j ↦ not_In-select p e l h j
  ]
  | inr t ↦
      not_In-select p e l h
        (subst (λ l. In e l) (ap (λ b. if b then x ∷ select p l else select p l) t) i)
]

not_In-stores :
    (p : Entry → Bool) (e : Entry) (stores : List (List Entry))
    → p e ≡ false
    → All (λ l. ¬ In e l) (map (select p) stores)
not_In-stores p e [] h = tt
not_In-stores p e (l ∷ stores) h = (not_In-select p e l h, not_In-stores p e stores h)

-- A negative number's bytes are those of a large one.
minus_lem : (d : ℕ) → 0 < d → d < 2 ^ 63 → InI64 (minus d) × (2 ^ 63 ≤ word (minus d))
minus_lem zero h k = absurd (omega (arith, h))
minus_lem (suc d) h k = (omega arith, omega arith)

not_every :
    (p : Bytes → Bool) (s : Bytes) (l : List Bytes) → In s l → p s ≡ false → every p l ≡ false
not_every p s [] i h = elim i [ ]
not_every p s (x ∷ l) i h = elim i [
  | inl q ↦ rw (sym (ap p q) ∙ h) refl
  | inr j ↦ let rest = not_every p s l j h in rw rest (ground arith)
]

module _ (delete_range_cf : Bytes → Bytes → List Entry → List Entry)
    (prefix_iterator_cf : Bytes → List Entry → List Entry)
    (deletes : (from to : Bytes) (entries : List Entry)
      → delete_range_cf from to entries ≡ select (λ e. not (in_range from to e.0)) entries) where
  retain_all-calm :
      (cutoff : ℤ) (source : Bytes) (n : ℕ) (stores : List (List Entry))
      → retain_all delete_range_cf prefix_iterator_cf no_faults cutoff source n stores
        ≡ (ok tt, map (retain_store delete_range_cf prefix_iterator_cf cutoff source) stores)
  unfolding retain_all
  retain_all-calm cutoff source n [] = refl
  retain_all-calm cutoff source n (store ∷ stores) =
      rw (retain_all-calm cutoff source (suc n) stores) refl

  -- Where nothing fails and a deletion of a range deletes its keys from the first, included, to
  -- the last, excluded, the loop over the sources succeeds, and every store then has exactly the
  -- entries that lie in no source's range, in their order.
  pub retain_sources-kept :
      (cutoff : ℤ) (sources : List Bytes) (all_store : List (List Entry)) (log_store : List Entry)
      → let (r, stores) =
          retain_sources delete_range_cf prefix_iterator_cf no_faults cutoff sources
            (all_store, log_store) in
        (r ≡ ok tt) × (stores.0 ≡ map (select (kept cutoff sources)) all_store)
  unfolding retain_sources
  retain_sources-kept cutoff [] all_store log_store =
      (refl, sym (map-same (select (kept cutoff [])) select-true all_store))
  retain_sources-kept cutoff (source ∷ sources) all_store log_store =
      let step = retain_store delete_range_cf prefix_iterator_cf cutoff source in
      let logs = retain_logs delete_range_cf prefix_iterator_cf no_faults cutoff source log_store in
      let (ended, same) = retain_sources-kept cutoff sources (map step all_store) logs in
      let all = retain_all-calm cutoff source 0 all_store in
      rw (retain_sources, all)
        (
          rw all ended,
          rw all same
              ∙ map-fuse step (select (kept cutoff sources))
                  (select (kept cutoff (source ∷ sources)))
                  (λ l.
                    ap (select (kept cutoff sources))
                      (deletes (range_key source default_from) (range_key source cutoff) l)
                    ∙ select-select (λ e. not (removed cutoff source e.0)) (kept cutoff sources) l)
                  all_store,
        )

  not_kept :
      (cutoff : ℤ) (sources : List Bytes) (source value : Bytes) (t : ℕ)
      → In source sources
      → InI64 cutoff
      → t < 2 ^ 63
      → 61000000000 ≤ t
      → t < word cutoff
      → kept cutoff sources (build (end_key (start_key builder source) (pos t)), value) ≡ false
  not_kept cutoff sources source value t i c ht from to =
      not_every (λ s. not (removed cutoff s (build (end_key (start_key builder source) (pos t)))))
        source sources i (rw ((removed-word source t cutoff ht c).1 (from, to)) refl)

  -- Where the clock is less than the retention period past 1970, a turn in which nothing fails
  -- leaves, in any of the stores that `retain_period_store` gives, no event of a known source that
  -- is stored under the source and its time, from 61 seconds after 1970 on. The period is less than
  -- 2^63 ns, and a deletion of a range deletes its keys from the first, included, to the last,
  -- excluded. The other stores, that of the logs among them, are not spoken of.
  pub retain_sources-gone :
      (now retention : ℕ) (sources : List Bytes) (stores : Stores) (source value : Bytes) (t : ℕ)
      → now < retention
      → retention < 2 ^ 63
      → In source sources
      → 61000000000 ≤ t
      → t < 2 ^ 63
      → All
          (λ l. ¬ In (build (end_key (start_key builder source) (pos t)), value) l)
          (retain_sources delete_range_cf prefix_iterator_cf no_faults
            (cutoff_of (some (pos now)) retention)
            sources
            stores).1.0
  retain_sources-gone now retention sources stores source value t early small i from ht =
      let e : cutoff_of (some (pos now)) retention ≡ minus (retention - now) = ground arith in
      rw (e, (retain_sources-kept (minus (retention - now)) sources stores.0 stores.1).1)
        (not_In-stores (kept (minus (retention - now)) sources)
          (build (end_key (start_key builder source) (pos t)), value) stores.0
          (not_kept (minus (retention - now)) sources source value t i
            (minus_lem _ (omega arith) (omega arith)).0 ht from
            (omega (arith, (minus_lem (retention - now) (omega arith) (omega arith)).1))))
