-- ===== src/Publish/Raw.antt =====
-- Which raw events a request by timestamps finds (`multi_get_with_source` of src/storage.rs).
use mathlib.Core.List.{append_assoc}
use giganto.Prelude.{
  ◌≡◌, ◌≢◌, refl, sym, ap, ◌∙◌, true, none, some, List, [], ◌∷◌, ◌++◌, length, length-append, All,
  All-map, arith, Bool-cases, inl, inr,
}
use giganto.Bytes.{Bytes}
use giganto.Int64.{ℤ, to_be_bytes, length-to_be_bytes}
use giganto.Key.{builder, start_key, mid_key, end_key, build}
use giganto.Key.Shape.{NoNul, source_of_prefix}
use giganto.Store.{Entry, RawEventStore, Scans, equals, lookup}
use giganto.Store.Sorted.{equals→eq}
use giganto.Publish.{multi_get_with_source}

-- A key with a middle part, as `handle_data` makes it for logs, packets and statistics.
abbrev pub HasMiddle : Entry → Type 0
HasMiddle e =
    (source : Bytes) × (kind : Bytes) × (ts : ℤ) × NoNul source
    × (e.0 ≡ build (end_key (mid_key (start_key builder source) (some kind)) ts))

middle_ne :
    (source : Bytes) (ts : ℤ) (e : Entry)
    → NoNul source
    → HasMiddle e
    → equals e.0 (build (end_key (start_key builder source) ts)) ≢ true
unfolding end_key mid_key start_key
middle_ne source ts e n (source', kind, ts', n', k) h =
    let b = source' ++ 0 ∷ [] in
    let q : (source' ≡ source) × (kind ++ 0 ∷ to_be_bytes ts' ≡ to_be_bytes ts) =
      source_of_prefix source' source (kind ++ 0 ∷ to_be_bytes ts') (to_be_bytes ts) n' n (
        sym (append_assoc b kind (0 ∷ to_be_bytes ts'))
        ∙ sym (append_assoc (b ++ kind) (0 ∷ []) (to_be_bytes ts'))
        ∙ sym k
        ∙ equals→eq e.0 (build (end_key (start_key builder source) ts)) h) in
    absurd (
      omega (
        arith,
        ap length q.1,
        length-append kind (0 ∷ to_be_bytes ts'),
        length-to_be_bytes ts,
        length-to_be_bytes ts',
      ))

lookup-none :
    (k : Bytes) (entries : List Entry)
    → All (λ e. equals e.0 k ≢ true) entries
    → lookup k entries ≡ none
lookup-none k [] h = refl
lookup-none k (e ∷ entries) h = elim (Bool-cases (equals e.0 k)) [
  | inl p ↦ absurd (h.0 p)
  | inr p ↦ rw p (lookup-none k entries h.1)
]

-- In a store that is read without errors, and whose keys are all of a source without a zero
-- byte, a middle part and a timestamp, a request by a source without a zero byte and timestamps
-- finds nothing.
pub multi_get_with_source-middle :
    (store : RawEventStore) (entries : List Entry) (source : Bytes) (timestamps : List ℤ)
    → Scans store entries
    → NoNul source
    → All HasMiddle entries
    → multi_get_with_source store source timestamps ≡ []
unfolding multi_get_with_source
multi_get_with_source-middle store entries source [] scans n h = refl
multi_get_with_source-middle store entries source (ts ∷ timestamps) scans n h =
    let key = build (end_key (start_key builder source) ts) in
    rw
      (
        multi_get_with_source,
        scans.get_lookup key,
        lookup-none key entries (All-map (λ e. middle_ne source ts e n) entries h),
      )
      (multi_get_with_source-middle store entries source timestamps scans n h)
