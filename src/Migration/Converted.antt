-- ===== src/Migration/Converted.antt =====
-- What the two migrations of src/storage/migration.rs leave of a store.
use mathlib.Core.List.{append_assoc}
use giganto.Prelude.{
  ◌≡◌, refl, sym, ap, ◌∙◌, true, not, List, [], ◌∷◌, ◌++◌, map, select, All, All-append, arith,
}
use giganto.Bytes.{Bytes}
use giganto.Bytes.Order.{gt_of_lt, cmp_refl}
use giganto.Outcome.{Outcome, ok}
use giganto.Store.{Entry, Pairwise, Before, equals}
use giganto.Migration.{migrate_0_12_to_0_13_0}
use giganto.Migration.Http.{put, converted, migrate_0_10_to_0_12, OldHttp, NewHttp}

put-middle :
    (front : List Entry) (e : Entry) (new : Bytes) (back : List Entry)
    → All (λ d. Before d e) front
    → put e.0 new (front ++ e ∷ back) ≡ front ++ (e.0, new) ∷ back
unfolding put
put-middle [] e new back h = rw (put, cmp_refl e.0) refl
put-middle (d ∷ front) e new back h =
    rw (put, gt_of_lt d.0 e.0 h.0) (ap (◌∷◌ d) (put-middle front e new back h.1))

behind :
    (front : List Entry) (e : Entry) (new : Bytes) (entries : List Entry)
    → All (λ x. All (λ d. Before d x) front) entries
    → All (Before e) entries
    → All (λ x. All (λ d. Before d x) (front ++ (e.0, new) ∷ [])) entries
behind front e new [] b s = tt
behind front e new (x ∷ entries) b s = (
  All-append (λ d. Before d x) front ((e.0, new) ∷ []) b.0 (s.0, tt),
  behind front e new entries b.1 s.1,
)

nothing : (entries : List Entry) → All (λ x. All (λ d. Before d x) []) entries
nothing [] = tt
nothing (x ∷ entries) = (tt, nothing entries)

module _ (deserialize : Bytes → Outcome OldHttp) (serialize : NewHttp → Outcome Bytes)
    (append : Bytes → Outcome (Unit {0})) (value : Bytes → Bytes) where
  -- An entry whose value is converted and taken.
  abbrev pub Converts : Entry → Type 0
  Converts e = (converted deserialize serialize append e.1 ≡ ok (value e.1)) × (append e.0 ≡ ok tt)

  abbrev pub renewed : List Entry → List Entry
  renewed entries = map (λ e. (e.0, value e.1)) entries

  -- Behind the entries that are done.
  loop-renewed :
      (front entries : List Entry)
      → All (λ e. All (λ d. Before d e) front) entries
      → Pairwise Before entries
      → All Converts entries
      → migrate_0_10_to_0_12 deserialize serialize append (map ok entries) (front ++ entries)
        ≡ (ok tt, front ++ renewed entries)
  unfolding migrate_0_10_to_0_12
  loop-renewed front [] b s h = refl
  loop-renewed front (e ∷ entries) b s h =
      let new : Entry = (e.0, value e.1) in
      let p = put-middle front e (value e.1) entries b.0 in
      let ih =
        loop-renewed (front ++ new ∷ []) entries (behind front e (value e.1) entries b.1 s.0) s.1
          h.1 in
      let first = append_assoc front (new ∷ []) entries in
      let last = append_assoc front (new ∷ []) (renewed entries) in
      rw (migrate_0_10_to_0_12, h.0.0, h.0.1, p) (rw (sym first) (ih ∙ ap (λ l. (ok tt, l)) last))

  -- All values are converted.
  pub migrate_0_10_to_0_12-renewed :
      (entries : List Entry)
      → Pairwise Before entries
      → All Converts entries
      → migrate_0_10_to_0_12 deserialize serialize append (map ok entries) entries
        ≡ (ok tt, renewed entries)
  migrate_0_10_to_0_12-renewed entries s h = loop-renewed [] entries (nothing entries) s h

removed_one :
    (e : Entry) (entries : List Entry)
    → All (Before e) entries
    → select (λ d. not (equals d.0 e.0)) entries ≡ entries
removed_one e [] h = refl
removed_one e (d ∷ entries) h = ground (arith, removed_one e entries h.1, gt_of_lt e.0 d.0)

-- All statistics are deleted.
pub statistics-deleted :
    (delete : Bytes → Outcome (Unit {0})) (entries : List Entry)
    → Pairwise Before entries
    → All (λ e. delete e.0 ≡ ok tt) entries
    → migrate_0_12_to_0_13_0 delete (map ok entries) entries ≡ (ok tt, [])
unfolding migrate_0_12_to_0_13_0
statistics-deleted delete [] s h = refl
statistics-deleted delete (e ∷ entries) s h =
    let same : equals e.0 e.0 ≡ true = ground (arith, cmp_refl e.0) in
    rw (h.0, same, removed_one e entries s.0) (statistics-deleted delete entries s.1 h.1)
