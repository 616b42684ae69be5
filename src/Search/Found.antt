-- ===== src/Search/Found.antt =====
-- What a search by timestamps finds (`search_*` of src/graphql/network.rs and src/graphql/sysmon.rs).
use giganto.Prelude.{
  ◌≡◌, refl, sym, ap, ◌∙◌, subst, Bool, true, select, Ordering, Option, some, List, [], ◌∷◌, ◌⊎◌,
  inl, inr, Bool-cases, Option-cases, Ordering-cases, ◌↔◌,
}
use giganto.Bytes.{Bytes}
use giganto.Bytes.Order.{eq_of_cmp}
use giganto.Chrono.{Chrono, Moments}
use giganto.Filter.{Text, IpAddr, Fields, SearchFilter, check_search}
use giganto.Outcome.{Outcome, ok, Outcome-cases}
use giganto.Search.{
  filter_map, key_of, multi_get_from_ts, cmp_item, insert, set_of, within, exist,
  collect_exist_timestamp, search,
}
use giganto.Store.{RawEventStore}

abbrev pub In : {A : Type 0} → A → List A → Type 0
In x [] = ⊥
In x (y ∷ ys) = (x ≡ y) ⊎ In x ys

pub In-select :
    {A : Type 0} (p : A → Bool) (e : A) (l : List A) → In e l → p e ≡ true → In e (select p l)
In-select p e [] i h = i
In-select p e (x ∷ l) i h = elim i [
  | inl q ↦ rw (ap p (sym q) ∙ h) (inl q)
  | inr j ↦
      let later = In-select p e l j h in
      elim (Bool-cases (p x)) [ inl t ↦ rw t (inr later) | inr t ↦ rw t later ]
]

filter_map-In :
    {A B : Type 0} (f : A → Option B) (xs : List A) (y : B)
    → In y (filter_map f xs)
    → (x : A) × In x xs × (f x ≡ some y)
filter_map-In {A = A} f [] y = λ h. absurd h
filter_map-In {A = A} f (x ∷ xs) y =
    let later : In y (filter_map f xs) → (z : A) × In z (x ∷ xs) × (f z ≡ some y) =
      λ h. let r = filter_map-In f xs y h in (r.0, inr r.1, r.2) in
    elim (Option-cases (f x)) [
      | inl e ↦ rw (filter_map, e) later
      | inr (z, e) ↦
          rw (filter_map, e)
            (λ h. elim h [ inl q ↦ (x, inl refl, e ∙ ap some (sym q)) | inr i ↦ later i ])
    ]

In-filter_map :
    {A B : Type 0} (f : A → Option B) (xs : List A) (x : A) (y : B)
    → In x xs
    → f x ≡ some y
    → In y (filter_map f xs)
In-filter_map f [] x y i e = absurd i
In-filter_map f (z ∷ xs) x y (inl q) e = rw (filter_map, sym (ap f q) ∙ e) (inl refl)
In-filter_map f (z ∷ xs) x y (inr i) e =
    let later = In-filter_map f xs x y i e in
    elim (Option-cases (f z)) [
      | inl k ↦ rw (filter_map, k) later
      | inr (w, k) ↦ rw (filter_map, k) (inr later)
    ]

module _ (c : Chrono) (m : Moments (c.DateTime)) where
  cmp_item_eq : (x y : c.DateTime × Bytes) → cmp_item c m x y ≡ Ordering.eq → x ≡ y
  cmp_item_eq (t, v) (t', v') = elim (Bool-cases (m.leb t t')) [
    | inr e ↦ rw (e) (λ h. cc)
    | inl e ↦ elim (Bool-cases (m.leb t' t)) [
      | inr k ↦ rw (e, k) (λ h. cc)
      | inl k ↦ rw (e, k) (λ h. let p = m.leb_antisym t t' e k in let q = eq_of_cmp v v' h in cc)
    ]
  ]

  insert-In :
      (x y : c.DateTime × Bytes) (s : List (c.DateTime × Bytes))
      → In x (insert c m y s)
      → (x ≡ y) ⊎ In x s
  unfolding insert
  insert-In x y [] = λ h. h
  insert-In x y (z ∷ s) =
      let later = insert-In x y s in
      elim (Ordering-cases (cmp_item c m y z)) [
        | inl e ↦ rw (insert, e) (λ h. h)
        | inr (inl e) ↦ rw (insert, e) (λ h. inr h)
        | inr (inr e) ↦
            rw (insert, e)
              (λ h. elim h [
                | inl q ↦ inr (inl q)
                | inr i ↦ elim (later i) [ inl q ↦ inl q | inr j ↦ inr (inr j) ]
              ])
      ]

  In-insert :
      (x y : c.DateTime × Bytes) (s : List (c.DateTime × Bytes))
      → (x ≡ y) ⊎ In x s
      → In x (insert c m y s)
  unfolding insert
  In-insert x y [] = λ h. h
  In-insert x y (z ∷ s) =
      let later = In-insert x y s in
      elim (Ordering-cases (cmp_item c m y z)) [
        | inl e ↦ rw (insert, e) (λ h. h)
        | inr (inl e) ↦
            rw (insert, e) (λ h. elim h [ inl q ↦ inl (q ∙ cmp_item_eq y z e) | inr i ↦ i ])
        | inr (inr e) ↦
            rw (insert, e)
              (λ h. elim h [
                | inl q ↦ inr (later (inl q))
                | inr (inl q) ↦ inl q
                | inr (inr i) ↦ inr (later (inr i))
              ])
      ]

  set_of-In :
      (x : c.DateTime × Bytes) (xs : List (c.DateTime × Bytes)) → In x (set_of c m xs) → In x xs
  unfolding set_of
  set_of-In x [] h = h
  set_of-In x (y ∷ xs) h = elim (insert-In x y (set_of c m xs) h) [
    | inl q ↦ inl q
    | inr i ↦ inr (set_of-In x xs i)
  ]

  In-set_of :
      (x : c.DateTime × Bytes) (xs : List (c.DateTime × Bytes)) → In x xs → In x (set_of c m xs)
  unfolding set_of
  In-set_of x [] h = h
  In-set_of x (y ∷ xs) (inl q) = In-insert x y (set_of c m xs) (inl q)
  In-set_of x (y ∷ xs) (inr i) = In-insert x y (set_of c m xs) (inr (In-set_of x xs i))

  -- The record of a timestamp.
  abbrev pub Stored : RawEventStore → Bytes → c.DateTime → Bytes → Type 0
  Stored store source t value = store.get_cf (key_of c m source t) ≡ ok (some value)

  multi_get_from_ts-In :
      (store : RawEventStore) (source : Bytes) (timestamps : List (c.DateTime))
      (x : c.DateTime × Bytes)
      → In x (multi_get_from_ts c m store source timestamps)
      → In x.0 timestamps × Stored store source x.0 x.1
  unfolding multi_get_from_ts
  multi_get_from_ts-In store source [] x = λ h. absurd h
  multi_get_from_ts-In store source (t ∷ timestamps) x =
      let later : In x (multi_get_from_ts c m store source timestamps)
          → In x.0 (t ∷ timestamps) × Stored store source x.0 x.1 =
        λ h. let r = multi_get_from_ts-In store source timestamps x h in (inr r.0, r.1) in
      elim (Outcome-cases (store.get_cf (key_of c m source t))) [
        | inl (s, e) ↦ rw (multi_get_from_ts, e) later
        | inr (o, e) ↦ elim (Option-cases o) [
          | inl k ↦ rw (multi_get_from_ts, e, k) later
          | inr (v, k) ↦
              rw (multi_get_from_ts, e, k)
                (λ h. elim h [
                  | inl q ↦ (
                    inl (ap (λ z. z.0) q),
                    ap (λ z. store.get_cf (key_of c m source z.0)) q
                        ∙ e
                        ∙ ap ok (k ∙ ap (λ z. some z.1) (sym q)),
                  )
                  | inr i ↦ later i
                ])
        ]
      ]

  In-multi_get_from_ts :
      (store : RawEventStore) (source : Bytes) (timestamps : List (c.DateTime)) (t : c.DateTime)
      (value : Bytes)
      → In t timestamps
      → Stored store source t value
      → In (t, value) (multi_get_from_ts c m store source timestamps)
  unfolding multi_get_from_ts
  In-multi_get_from_ts store source [] t value i e = absurd i
  In-multi_get_from_ts store source (u ∷ timestamps) t value (inl q) e =
      rw (multi_get_from_ts, ap (λ z. store.get_cf (key_of c m source z)) (sym q) ∙ e)
        (inl (ap (λ z. (z, value)) q))
  In-multi_get_from_ts store source (u ∷ timestamps) t value (inr i) e =
      let later = In-multi_get_from_ts store source timestamps t value i e in
      elim (Outcome-cases (store.get_cf (key_of c m source u))) [
        | inl (s, k) ↦ rw (multi_get_from_ts, k) later
        | inr (o, k) ↦ elim (Option-cases o) [
          | inl j ↦ rw (multi_get_from_ts, k, j) later
          | inr (v, j) ↦ rw (multi_get_from_ts, k, j) (inr later)
        ]
      ]

  module _ (time : Option (Option (c.DateTime) × Option (c.DateTime)))
      (parse : Text → Outcome IpAddr) (to_lowercase : Text → Text) {T : Type 0}
      (fields : T → Fields) (deserialize : Bytes → Outcome T) (filter : SearchFilter) where
    -- A record is found where it can be decoded, its time is in the range and the filter admits it.
    abbrev pub Admitted : c.DateTime → Bytes → Type 0
    Admitted t value =
        (event : T) × (deserialize value ≡ ok event)
        × (within c m time t ≡ true)
        × (check_search parse to_lowercase filter (fields event) ≡ ok true)

    exist-Admitted :
        (t u : c.DateTime) (value : Bytes)
        → exist c m time parse to_lowercase fields deserialize filter (t, value) ≡ some u
        → (t ≡ u) × Admitted t value
    unfolding exist
    exist-Admitted t u value = elim (Outcome-cases (deserialize value)) [
      | inl (s, e) ↦ rw (exist, e) (λ h. cc)
      | inr (event, e) ↦ elim (Bool-cases (within c m time t)) [
        | inr k ↦ rw (exist, e, k) (λ h. cc)
        | inl k ↦ elim (Outcome-cases (check_search parse to_lowercase filter (fields event))) [
          | inl (s, j) ↦ rw (exist, e, k, j) (λ h. cc)
          | inr (b, j) ↦ elim (Bool-cases b) [
            | inr i ↦ rw (exist, e, k, j, i) (λ h. cc)
            | inl i ↦ rw (exist, e, k, j, i) (λ h. (cc, (event, refl, refl, j ∙ ap ok i)))
          ]
        ]
      ]
    ]

    Admitted-exist :
        (t : c.DateTime) (value : Bytes)
        → Admitted t value
        → exist c m time parse to_lowercase fields deserialize filter (t, value) ≡ some t
    unfolding exist
    Admitted-exist t value (event, e, k, j) = rw (exist, e, k, j) refl

    -- A search finds a time exactly where it is one of the requested timestamps and the store has a
    -- record of the source at it that can be decoded, lies in the range and passes the filter.
    pub search-Found :
        (store : RawEventStore) (source : Bytes) (timestamps : List (c.DateTime)) (t : c.DateTime)
        → In t
            (search c m time parse to_lowercase fields deserialize filter store source timestamps)
          ↔ (In t timestamps × ((value : Bytes) × Stored store source t value × Admitted t value))
    unfolding search collect_exist_timestamp
    search-Found store source timestamps t =
        let f = exist c m time parse to_lowercase fields deserialize filter in
        let found = multi_get_from_ts c m store source timestamps in
        (
          λ h.
              let r = filter_map-In f (set_of c m found) t h in
              let g = multi_get_from_ts-In store source timestamps r.0 (set_of-In r.0 found r.1) in
              let a = exist-Admitted (r.0.0) t (r.0.1) r.2 in
              (
                subst (λ z. In z timestamps) a.0 g.0,
                (
                  r.0.1,
                  subst (λ z. Stored store source z (r.0.1)) a.0 g.1,
                  subst (λ z. Admitted z (r.0.1)) a.0 a.1,
                ),
              ),
          λ h.
              In-filter_map f (set_of c m found) (t, h.1.0) t
                (In-set_of (t, h.1.0) found
                  (In-multi_get_from_ts store source timestamps t (h.1.0) h.0 h.1.1))
                (Admitted-exist t (h.1.0) h.1.2),
        )
