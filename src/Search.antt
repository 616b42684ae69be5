-- ===== src/Search.antt =====
-- Searches by timestamps: `RawEventStore::multi_get_from_ts` of src/storage.rs, `time_range` and
-- `collect_exist_timestamp` of src/graphql.rs, and the bodies of the `search_*` queries of
-- src/graphql/network.rs and src/graphql/sysmon.rs. A `BTreeSet` is the ascending list of its
-- elements. The parser of addresses is in Filter.
pub mod Found
pub mod Queries
use giganto.Prelude.{
  Bool, true, false, Ordering, Option, none, some, List, [], ◌∷◌, not, ◌&&◌, if◌then◌else◌, ℕ, ◌-◌,
  ◌^◌,
}
use giganto.Bytes.{Bytes, cmp}
use giganto.Chrono.{Chrono, Moments}
use giganto.Filter.{Text, IpAddr, Fields, SearchFilter, check_search}
use giganto.Int64.{ℤ, pos, negsuc, i64_max}
use giganto.Key.{builder, start_key, end_key, build, or_max}
use giganto.Outcome.{Outcome, ok, err, ◌>>=◌}
use giganto.Store.{RawEventStore}

abbrev pub filter_map : {A B : Type 0} → (A → Option B) → List A → List B
filter_map f [] = []
filter_map f (x ∷ xs) = let rest = filter_map f xs in elim (f x) [ none ↦ rest | some y ↦ y ∷ rest ]

abbrev pub or_default {ℓ} : {A : Type ℓ} → A → Option A → A
or_default d none = d
or_default d (some a) = a

module _ (c : Chrono) (m : Moments (c.DateTime)) where
  abbrev pub key_of : Bytes → c.DateTime → Bytes
  key_of source timestamp =
      build (end_key (start_key builder source) (or_max (c.timestamp_nanos_opt timestamp)))

  -- What cannot be read is passed over.
  unfoldable pub multi_get_from_ts :
      RawEventStore → Bytes → List (c.DateTime) → List (c.DateTime × Bytes)
  multi_get_from_ts store source [] = []
  multi_get_from_ts store source (timestamp ∷ timestamps) =
      let rest = multi_get_from_ts store source timestamps in
      elim (store.get_cf (key_of source timestamp)) [
        | ok (some value) ↦ (timestamp, value) ∷ rest
        | ok none ↦ rest
        | err e ↦ rest
      ]

  -- `Ord` of a time and a value.
  abbrev pub cmp_item : c.DateTime × Bytes → c.DateTime × Bytes → Ordering
  cmp_item (t, v) (t', v') =
      if m.leb t t' then (if m.leb t' t then cmp v v' else Ordering.lt) else Ordering.gt

  unfoldable pub insert : c.DateTime × Bytes → List (c.DateTime × Bytes) → List (c.DateTime × Bytes)
  insert x [] = x ∷ []
  insert x (y ∷ ys) =
      let later = insert x ys in
      elim (cmp_item x y) [
        | Ordering.lt ↦ x ∷ y ∷ ys
        | Ordering.eq ↦ y ∷ ys
        | Ordering.gt ↦ y ∷ later
      ]

  unfoldable pub set_of : List (c.DateTime × Bytes) → List (c.DateTime × Bytes)
  set_of [] = []
  set_of (x ∷ xs) = insert x (set_of xs)

  module _ (time : Option (Option (c.DateTime) × Option (c.DateTime))) where
    abbrev pub time_range : c.DateTime × c.DateTime
    time_range = elim time [
      | none ↦ (c.timestamp_nanos (negsuc (2 ^ 63 - 1)), c.timestamp_nanos i64_max)
      | some t ↦ (
        or_default (c.timestamp_nanos (negsuc (2 ^ 63 - 1))) t.0,
        or_default (c.timestamp_nanos i64_max) t.1,
      )
    ]

    abbrev pub within : c.DateTime → Bool
    within t = m.leb time_range.0 t && not (m.leb time_range.1 t)

    module _ (parse : Text → Outcome IpAddr) (to_lowercase : Text → Text) {T : Type 0}
        (fields : T → Fields) (deserialize : Bytes → Outcome T) (filter : SearchFilter) where
      unfoldable pub exist : c.DateTime × Bytes → Option (c.DateTime)
      exist (t, value) = elim (deserialize value) [
        | err e ↦ none
        | ok event ↦
            if within t
            then elim (check_search parse to_lowercase filter (fields event)) [
              | ok true ↦ some t
              | ok false ↦ none
              | err e ↦ none
            ]
            else none
      ]

      unfoldable pub collect_exist_timestamp : List (c.DateTime × Bytes) → List (c.DateTime)
      collect_exist_timestamp target_data = filter_map exist target_data

      -- The body of a search query, behind the choice of the store.
      unfoldable pub search : RawEventStore → Bytes → List (c.DateTime) → List (c.DateTime)
      unfolding collect_exist_timestamp multi_get_from_ts set_of
      search store source timestamps =
          collect_exist_timestamp (set_of (multi_get_from_ts store source timestamps))
