-- ===== src/Retain/Periodic/Safe.antt =====
-- What `retain_periodically` (src/storage.rs) never deletes.
use giganto.Prelude.{
  ◌≡◌, ◌≢◌, refl, sym, ap, ◌∙◌, ℕ, suc, ◌≤◌, ◌<◌, ◌^◌, Bool, true, false, not, List, [], ◌∷◌, ◌++◌,
  map, select, All, Bool-cases, inl, inr, arith, if◌then◌else◌, Ordering,
}
use giganto.Bytes.{Bytes, cmp}
use giganto.Bytes.Order.{prefix_of_between, lt_of_gt}
use giganto.Int64.{ℤ, pos, to_be_bytes}
use giganto.Outcome.{Outcome, Outcome-cases}
use giganto.Key.{builder, start_key, end_key, build}
use giganto.Key.Shape.{NoNul, source_of_prefix}
use giganto.Search.Found.{In, In-select}
use giganto.Store.{Entry, equals}
use giganto.Store.Sorted.{equals→eq}
use giganto.Retain.{before, store_duration, delete_keys, retain_store, range_key, default_from}
use giganto.Retain.Cutoff.{in_range, removed, removed-word}
use giganto.Retain.Periodic.{Faults, Stores, retain_all, retain_logs, retain_sources}

-- The stores still have the entry where they had it.
abbrev pub Keeps : Entry → List (List Entry) → List (List Entry) → Type 0
Keeps e [] [] = Unit
Keeps e (s ∷ stores) (s' ∷ stores') = (In e s → In e s') × Keeps e stores stores'
Keeps e _ _ = ⊥

pub Keeps-refl : (e : Entry) (stores : List (List Entry)) → Keeps e stores stores
Keeps-refl e [] = tt
Keeps-refl e (s ∷ stores) = (λ i. i, Keeps-refl e stores)

pub Keeps-trans : (e : Entry) (a b c : List (List Entry)) → Keeps e a b → Keeps e b c → Keeps e a c
Keeps-trans e [] [] [] h k = tt
Keeps-trans e [] [] (x ∷ c) h k = elim k [ ]
Keeps-trans e [] (x ∷ b) c h k = elim h [ ]
Keeps-trans e (x ∷ a) [] c h k = elim h [ ]
Keeps-trans e (x ∷ a) (y ∷ b) [] h k = elim k [ ]
Keeps-trans e (x ∷ a) (y ∷ b) (z ∷ c) h k = (λ i. k.0 (h.0 i), Keeps-trans e a b c h.1 k.1)

delete_keys-In :
    (e : Entry) (keys : List Bytes) (entries : List Entry)
    → All (λ k. equals e.0 k ≡ false) keys
    → In e entries
    → In e (delete_keys keys entries)
unfolding delete_keys
delete_keys-In e [] entries h i = i
delete_keys-In e (k ∷ keys) entries h i =
    delete_keys-In e keys (select (λ x. not (equals x.0 k)) entries) h.1
      (In-select (λ x. not (equals x.0 k)) e entries i (rw (h.0) refl))

-- A key of a source is removed only by the range of that source.
removed-source :
    (cutoff : ℤ) (s s' : Bytes) (z : ℤ)
    → NoNul s
    → NoNul s'
    → removed cutoff s' (build (end_key (start_key builder s) z)) ≡ true
    → s ≡ s'
unfolding end_key start_key
removed-source cutoff s s' z h h' r =
    let k = build (end_key (start_key builder s) z) in
    let below : cmp k (range_key s' cutoff) ≢ Ordering.gt = ground arith in
    let above : cmp (range_key s' default_from) k ≢ Ordering.gt =
      λ g. ground (arith, lt_of_gt (range_key s' default_from) k g) in
    let (x, e) =
      prefix_of_between (s' ++ 0 ∷ []) (to_be_bytes default_from) (to_be_bytes cutoff) k above
        below in
    (source_of_prefix s s' (to_be_bytes z) x h h' e).0

-- An event of a source that is not older than a cut-off from 1970 on is in no source's range.
pub spared :
    (s s' : Bytes) (t c : ℕ)
    → NoNul s
    → NoNul s'
    → t < 2 ^ 63
    → c ≤ t
    → removed (pos c) s' (build (end_key (start_key builder s) (pos t))) ≡ false
spared s s' t c h h' ht hc =
    let k = build (end_key (start_key builder s) (pos t)) in
    elim (Bool-cases (removed (pos c) s' k)) [
      | inl r ↦
          let same : s' ≡ s = sym (removed-source (pos c) s s' (pos t) h h' r) in
          let r' : removed (pos c) s k ≡ true = ap (λ x. removed (pos c) x k) (sym same) ∙ r in
          let (from, until) = (removed-word s t (pos c) ht (omega (arith, ht, hc))).0 r' in
          absurd (omega (arith, until, hc))
      | inr r ↦ r
    ]

pub true-false : true ≡ false → ⊥
true-false h = cc

All-select :
    {A : Type 0} (P : A → Type 0) (p : A → Bool) (l : List A) → All P l → All P (select p l)
All-select P p [] h = tt
All-select P p (x ∷ l) h =
    let rest = All-select P p l h.1 in
    elim (Bool-cases (p x)) [ inl t ↦ rw t (h.0, rest) | inr t ↦ rw t rest ]

module _ (delete_range_cf : Bytes → Bytes → List Entry → List Entry)
    (prefix_iterator_cf : Bytes → List Entry → List Entry)
    (deletes : (from to : Bytes) (entries : List Entry)
      → delete_range_cf from to entries ≡ select (λ e. not (in_range from to e.0)) entries) where
  retain_all-Keeps :
      (e : Entry) (faults : Faults) (cutoff : ℤ) (source : Bytes) (n : ℕ)
      (stores : List (List Entry))
      → removed cutoff source e.0 ≡ false
      → Keeps e stores
          (retain_all delete_range_cf prefix_iterator_cf faults cutoff source n stores).1
  unfolding retain_all
  retain_all-Keeps e faults cutoff source n [] r = tt
  retain_all-Keeps e faults cutoff source n (store ∷ stores) r =
      let rest = retain_all-Keeps e faults cutoff source (suc n) stores r in
      let kept : In e store
          → In e (retain_store delete_range_cf prefix_iterator_cf cutoff source store) =
        λ i.
          rw (deletes (range_key source default_from) (range_key source cutoff) store)
            (In-select (λ x. not (removed cutoff source x.0)) e store i (rw r refl)) in
      let unchanged = Keeps-refl e stores in
      elim (Bool-cases (faults.range_fails source n)) [
        | inl a ↦ elim (Bool-cases (faults.flush_fails source n)) [
          | inl b ↦ rw (retain_all, a, b) (λ i. i, unchanged)
          | inr b ↦ rw (retain_all, a, b) (λ i. i, rest)
        ]
        | inr a ↦ elim (Bool-cases (faults.flush_fails source n)) [
          | inl b ↦ rw (retain_all, a, b) (kept, unchanged)
          | inr b ↦ rw (retain_all, a, b) (kept, rest)
        ]
      ]

  -- The keys that are older than the cut-off are not that of an entry that is not.
  older_keys :
      (e : Entry) (cutoff : ℤ) (entries : List Entry)
      → before (store_duration e.0) cutoff ≡ false
      → All
          (λ k. equals e.0 k ≡ false)
          (map (λ x. x.0) (select (λ x. before (store_duration x.0) cutoff) entries))
  older_keys e cutoff [] h = tt
  older_keys e cutoff (x ∷ entries) h =
      let rest = older_keys e cutoff entries h in
      elim (Bool-cases (before (store_duration x.0) cutoff)) [
        | inl b ↦ rw b (
          elim (Bool-cases (equals e.0 x.0)) [
            | inl q ↦ absurd (
                true-false (
                  sym b
                  ∙ ap (λ k. before (store_duration k) cutoff) (sym (equals→eq e.0 x.0 q))
                  ∙ h))
            | inr q ↦ q
          ],
          rest,
        )
        | inr b ↦ rw b rest
      ]

  retain_logs-In :
      (e : Entry) (faults : Faults) (cutoff : ℤ) (source : Bytes) (entries : List Entry)
      → before (store_duration e.0) cutoff ≡ false
      → In e entries
      → In e (retain_logs delete_range_cf prefix_iterator_cf faults cutoff source entries)
  unfolding retain_logs
  retain_logs-In e faults cutoff source entries h i =
      delete_keys-In e _ entries
        (All-select (λ k. equals e.0 k ≡ false)
          (λ key. if faults.delete_fails source key then false else true) _
          (older_keys e cutoff (prefix_iterator_cf source entries) h))
        i

  abbrev pub retained : Faults → ℤ → List Bytes → Stores → Outcome (Unit {0}) × Stores
  retained faults cutoff sources stores =
      retain_sources delete_range_cf prefix_iterator_cf faults cutoff sources stores

  -- An entry of the stores and one of the logs, neither of which a turn is to delete.
  pub retain_sources-Keeps :
      (e l : Entry) (faults : Faults) (cutoff : ℤ) (sources : List Bytes) (stores : Stores)
      → All (λ source. removed cutoff source e.0 ≡ false) sources
      → before (store_duration l.0) cutoff ≡ false
      → let stores' = (retained faults cutoff sources stores).1 in
        Keeps e stores.0 stores'.0 × (In l stores.1 → In l stores'.1)
  unfolding retain_sources
  retain_sources-Keeps e l faults cutoff [] stores h k = (Keeps-refl e stores.0, λ i. i)
  retain_sources-Keeps e l faults cutoff (source ∷ sources) (all_store, log_store) h k =
      let all = retain_all delete_range_cf prefix_iterator_cf faults cutoff source 0 all_store in
      let logs = retain_logs delete_range_cf prefix_iterator_cf faults cutoff source log_store in
      let a = retain_all-Keeps e faults cutoff source 0 all_store h.0 in
      let b = retain_logs-In l faults cutoff source log_store k in
      let (a', b') = retain_sources-Keeps e l faults cutoff sources (all.1, logs) h.1 k in
      elim (Outcome-cases all.0) [
        | inl (x, q) ↦ rw (retain_sources, q) (a, λ i. i)
        | inr (u, q) ↦ elim (Bool-cases (faults.log_flush_fails source)) [
          | inl f ↦ rw (retain_sources, q, f) (a, b)
          | inr f ↦ rw (retain_sources, q, f) (Keeps-trans e all_store all.1 _ a a', λ i. b' (b i))
        ]
      ]
