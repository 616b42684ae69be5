-- ===== src/Network/Stores/Readable.antt =====
-- What one store contributes to `network_raw_events` (src/graphql/network.rs, src/graphql.rs) when it
-- is read without errors: the accepted records of its range up to the first that does not decode.
use giganto.Prelude.{
  ◌≡◌, refl, sym, ap, Bool, true, false, Ordering, List, [], ◌∷◌, map, select, All, arith,
  Ordering-cases, Bool-cases, inl, inr, ℕ, zero, suc, length, some, ◌<◌,
}
use giganto.Bytes.{Bytes, cmp}
use giganto.Bytes.Order.{gt_of_lt, eq_of_cmp, cmp_refl}
use giganto.Outcome.{Outcome, ok, err, Outcome-cases}
use giganto.Store.{Entry, Pairwise, Before, equals, from_key}
use giganto.Store.Sorted.{cut}
use giganto.Iter.{decode, next_filtered}
use giganto.Page.{accepts}
use giganto.Page.Accepted.{
  accepted, after_key, All-accepted, accepted-cons, select-true, All-after, later_keys,
}
use giganto.Network.Stores.{FilteredIter, yields, skip_peeked}

module _ {T : Type 0} (deserialize : Bytes → Outcome T) (check : T → Outcome Bool) where
  abbrev pub decodes : Entry → Bool
  decodes e = elim (deserialize e.1) [ ok v ↦ true | err m ↦ false ]

  -- The entries before the first that does not decode.
  abbrev pub readable : List Entry → List Entry
  readable l = cut decodes l

  abbrev pub by_value : Bytes × T → Outcome Bool
  by_value item = check item.1

  yields_taken :
      (n : ℕ) (k : Bytes) (a : T) (items : FilteredIter T)
      → accepts check (k, a) ≡ true
      → yields deserialize by_value (suc n) (ok (k, a) ∷ items)
        ≡ (k, a) ∷ yields deserialize by_value n items
  unfolding yields next_filtered
  yields_taken n k a items p = elim (Outcome-cases (check a)) [
    | inl (m, q) ↦ ground arith
    | inr (b, q) ↦ ground arith
  ]

  yields_refused :
      (n : ℕ) (k : Bytes) (a : T) (items : FilteredIter T)
      → accepts check (k, a) ≡ false
      → yields deserialize by_value (suc n) (ok (k, a) ∷ items)
        ≡ yields deserialize by_value (suc n) items
  unfolding yields next_filtered
  yields_refused n k a items p = elim (Outcome-cases (check a)) [
    | inl (m, q) ↦ ground arith
    | inr (b, q) ↦ ground arith
  ]

  abbrev pub Yielded : ℕ → List Entry → Type 0
  Yielded calls l =
      yields deserialize by_value calls (map (decode deserialize) l)
      ≡ accepted check deserialize (readable l)

  -- Enough calls yield the accepted records of the readable entries.
  pub yields-accepted : (l : List Entry) (calls : ℕ) → length l < calls → Yielded calls l
  unfolding yields next_filtered decode
  yields-accepted l zero w = elim w [ ]
  yields-accepted [] (suc n) w = refl
  yields-accepted ((k, v) ∷ l) (suc n) w =
      let taken = yields-accepted l n (omega (arith, w)) in
      let refused = yields-accepted l (suc n) (omega (arith, w)) in
      elim (Outcome-cases (deserialize v)) [
        | inl (m, e) ↦
            let d : decodes (k, v) ≡ false = rw (decodes, e) refl in
            rw (d, next_filtered, decode, e) refl
        | inr (a, e) ↦
            let d : decodes (k, v) ≡ true = rw (decodes, e) refl in
            let items = map (decode deserialize) l in
            elim (Bool-cases (accepts check (k, a))) [
              | inl p ↦ rw (d, decode, e, yields_taken n k a items p, p) (ap (◌∷◌ (k, a)) taken)
              | inr p ↦ rw (d, decode, e, yields_refused n k a items p, p) refused
            ]
      ]

  skip_ahead :
      (k : Bytes) (lane : List (Bytes × T))
      → All (λ r. cmp k r.0 ≡ Ordering.lt) lane
      → skip_peeked (some k) lane ≡ lane
  unfolding skip_peeked
  skip_ahead k [] h = refl
  skip_ahead k (r ∷ lane) h =
      let n : equals r.0 k ≡ false = ground (arith, gt_of_lt k r.0, h.0) in rw n refl

  -- Skipping the record of the cursor, when it is the first, leaves the records behind its key.
  pub skip_peeked-accepted :
      (k : Bytes) (l : List Entry)
      → Pairwise Before l
      → All (λ e. from_key k e ≡ true) l
      → skip_peeked (some k) (accepted check deserialize l)
        ≡ accepted check deserialize (select (after_key k) l)
  unfolding skip_peeked
  skip_peeked-accepted k [] s h = refl
  skip_peeked-accepted k (x ∷ l) s h =
      let records = λ (a : All (λ e. cmp k e.0 ≡ Ordering.lt) l).
        All-accepted check deserialize (λ z. cmp k z ≡ Ordering.lt) l a in
      elim (Ordering-cases (cmp k x.0)) [
        | inl c ↦
            let a = later_keys check deserialize k x l s.0 (inl c) in
            rw
              (select-true check deserialize (after_key k) (x ∷ l)
                (All-after check deserialize k (x ∷ l) (c, a)))
              (skip_ahead k (accepted check deserialize (x ∷ l))
                (All-accepted check deserialize (λ z. cmp k z ≡ Ordering.lt) (x ∷ l) (c, a)))
        | inr (inl c) ↦
            let a = later_keys check deserialize k x l s.0 (inr c) in
            let b : after_key k x ≡ false = ground arith in
            let n : equals x.0 k ≡ true =
              rw (sym (eq_of_cmp k x.0 c)) (ground (arith, cmp_refl k)) in
            rw
              (b, select-true check deserialize (after_key k) l (All-after check deserialize k l a))
              (elim (accepted-cons check deserialize x l) [
                | inl (v, e) ↦ rw (e, n) refl
                | inr e ↦ rw e (skip_ahead k (accepted check deserialize l) (records a))
              ])
        | inr (inr c) ↦ absurd (ground (arith, h.0))
      ]
