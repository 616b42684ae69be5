-- ===== src/Page/Accepted.antt =====
-- The accepted records of ordered entries, and those behind the record of a cursor: what
-- `get_connection` of src/graphql.rs has left after it has skipped that record.
use mathlib.Core.List.{map-append, reverse-cons, reverse-append}
use giganto.Prelude.{
  ◌⊎◌, subst, ◌≡◌, refl, sym, ap, ◌∙◌, Bool, true, false, Ordering, List, [], ◌∷◌, ◌++◌, map,
  reverse, select, All, arith, Ordering-cases, if◌then◌else◌, Bool-cases, inl, inr,
}
use giganto.Bytes.{Bytes, cmp}
use giganto.Bytes.Order.{lt_trans, gt_of_lt, eq_of_cmp, cmp_refl}
use giganto.Outcome.{Outcome, ok, err}
use giganto.Store.{Entry, Pairwise, Before, at_most, equals, from_key}
use giganto.Iter.{decode}
use giganto.Page.{accepts, skip_cursor}
use giganto.Page.Collect.{passing}

-- The entries behind a key.
abbrev pub after_key : Bytes → Entry → Bool
after_key k e = elim (cmp k e.0) [ Ordering.lt ↦ true | _ ↦ false ]

module _ {T : Type 0} (check : T → Outcome Bool) (deserialize : Bytes → Outcome T) where
  -- The accepted records of a list of entries.
  abbrev pub accepted : List Entry → List (Bytes × T)
  accepted l = passing check (map (decode deserialize) l)

  pub All-accepted :
      (P : Bytes → Type 0) (l : List Entry) → All (λ e. P e.0) l → All (λ r. P r.0) (accepted l)
  unfolding decode
  All-accepted P [] h = tt
  All-accepted P ((k, v) ∷ l) h = ground (arith, All-accepted P l)

  cons_decoded :
      (k : Bytes) (l : List (Outcome (Bytes × T))) (d : Outcome T)
      → ((v : T) × (passing check (elim d [ ok a ↦ ok (k, a) | err e ↦ err e ] ∷ l)
            ≡ (k, v) ∷ passing check l))
        ⊎ (passing check (elim d [ ok a ↦ ok (k, a) | err e ↦ err e ] ∷ l) ≡ passing check l)
  cons_decoded k l (err e) = inr refl
  cons_decoded k l (ok a) = elim (Bool-cases (accepts check (k, a))) [
    | inl e ↦ inl (a, rw e)
    | inr e ↦ inr (rw e)
  ]

  -- An entry stands, decoded, in front of the accepted records or not at all.
  pub accepted-cons :
      (x : Entry) (l : List Entry)
      → ((v : T) × (accepted (x ∷ l) ≡ (x.0, v) ∷ accepted l)) ⊎ (accepted (x ∷ l) ≡ accepted l)
  unfolding decode
  accepted-cons (k, v) l = cons_decoded k (map (decode deserialize) l) (deserialize v)

  All-middle :
      (P : Bytes → Type 0) (ps qs : List (Bytes × T)) (r : Bytes × T)
      → All (λ r. P r.0) (ps ++ r ∷ qs)
      → P r.0
  All-middle P [] qs r h = h.0
  All-middle P (p ∷ ps) qs r h = All-middle P ps qs r h.1

  pub accepted-key :
      (P : Bytes → Type 0) (l : List Entry) (ps qs : List (Bytes × T)) (r : Bytes × T)
      → All (λ e. P e.0) l
      → accepted l ≡ ps ++ r ∷ qs
      → P r.0
  accepted-key P l ps qs r h e =
      All-middle P ps qs r (subst (λ z. All (λ r. P r.0) z) e (All-accepted P l h))

  pub select-true : (p : Entry → Bool) (l : List Entry) → All (λ x. p x ≡ true) l → select p l ≡ l
  select-true p [] h = refl
  select-true p (x ∷ l) h = rw h.0 (ap (◌∷◌ x) (select-true p l h.1))

  pub All-after :
      (k : Bytes) (l : List Entry)
      → All (λ e. cmp k e.0 ≡ Ordering.lt) l
      → All (λ e. after_key k e ≡ true) l
  All-after k [] h = tt
  All-after k (x ∷ l) h = (rw (h.0, after_key), All-after k l h.1)

  after_key_before : (k : Bytes) (x : Entry) → cmp x.0 k ≡ Ordering.lt → after_key k x ≡ false
  after_key_before k x h = rw (gt_of_lt x.0 k h, after_key)

  -- Behind the key of an accepted record stand the accepted records that follow it.
  pub accepted_after :
      (l : List Entry) (ps qs : List (Bytes × T)) (k : Bytes) (v : T)
      → Pairwise Before l
      → accepted l ≡ ps ++ (k, v) ∷ qs
      → accepted (select (after_key k) l) ≡ qs
  accepted_after [] [] qs k v s e = cc
  accepted_after [] (p ∷ ps) qs k v s e = cc
  accepted_after (x ∷ l) [] qs k v s e = elim (accepted-cons x l) [
    | inl (w, d) ↦
        (let kx : x.0 ≡ k = cc in
          let a : All (λ e. cmp k e.0 ≡ Ordering.lt) l =
            subst (λ z. All (λ e. cmp z e.0 ≡ Ordering.lt) l) kx s.0 in
          let n : after_key k x ≡ false = ground (arith, cmp_refl k) in
          let q : accepted l ≡ qs = cc in rw (n, select-true (after_key k) l (All-after k l a)) q)
    | inr d ↦
        rw
          (after_key_before k x
            (accepted-key (λ z. cmp x.0 z ≡ Ordering.lt) l [] qs (k, v) s.0 (sym d ∙ e)))
          (accepted_after l [] qs k v s.1 (sym d ∙ e))
  ]
  accepted_after (x ∷ l) (p ∷ ps) qs k v s e = elim (accepted-cons x l) [
    | inl (w, d) ↦
        (let t : accepted l ≡ ps ++ (k, v) ∷ qs = cc in
          rw
            (after_key_before k x
              (accepted-key (λ z. cmp x.0 z ≡ Ordering.lt) l ps qs (k, v) s.0 t))
            (accepted_after l ps qs k v s.1 t))
    | inr d ↦
        rw
          (after_key_before k x
            (accepted-key (λ z. cmp x.0 z ≡ Ordering.lt) l (p ∷ ps) qs (k, v) s.0 (sym d ∙ e)))
          (accepted_after l (p ∷ ps) qs k v s.1 (sym d ∙ e))
  ]

  skip_head :
      (k : Bytes) (x : Entry) (items : List (Outcome (Bytes × T))) (d : Outcome (Bytes × T))
      → ((r : Bytes × T) → d ≡ ok r → r.0 ≡ x.0)
      → passing check (skip_cursor k (d ∷ items))
        ≡ (if equals x.0 k then passing check items else passing check (d ∷ items))
  unfolding skip_cursor
  skip_head k x items (err e) h = ground arith
  skip_head k x items (ok r) h = rw (sym (h r refl)) (ground arith)

  decode-key : (x : Entry) (r : Bytes × T) → decode deserialize x ≡ ok r → r.0 ≡ x.0
  unfolding decode
  decode-key (k, v) r h = ground arith

  All-from :
      (k : Bytes) (l : List Entry)
      → All (λ e. cmp k e.0 ≡ Ordering.lt) l
      → All (λ e. from_key k e ≡ true) l
  All-from k [] h = tt
  All-from k (x ∷ l) h = (rw (h.0, at_most), All-from k l h.1)

  pub later_keys :
      (k : Bytes) (x : Entry) (l : List Entry)
      → All (Before x) l
      → (cmp k x.0 ≡ Ordering.lt) ⊎ (cmp k x.0 ≡ Ordering.eq)
      → All (λ e. cmp k e.0 ≡ Ordering.lt) l
  later_keys k x [] h c = tt
  later_keys k x (y ∷ l) h (inl c) = (lt_trans k x.0 y.0 c h.0, later_keys k x l h.1 (inl c))
  later_keys k x (y ∷ l) h (inr c) = (rw (eq_of_cmp k x.0 c) h.0, later_keys k x l h.1 (inr c))

  -- Skipping the record of the cursor leaves the records behind it.
  pub skip-accepted :
      (k : Bytes) (l : List Entry)
      → Pairwise Before l
      → passing check (skip_cursor k (map (decode deserialize) (select (from_key k) l)))
        ≡ accepted (select (after_key k) l)
  skip-accepted k [] s = unfold skip_cursor in refl
  skip-accepted k (x ∷ l) s = elim (Ordering-cases (cmp k x.0)) [
    | inl c ↦
        (let a : All (λ e. cmp k e.0 ≡ Ordering.lt) l = later_keys k x l s.0 (inl c) in
          let f : from_key k x ≡ true = ground arith in
          let b : after_key k x ≡ true = ground arith in
          let n : equals x.0 k ≡ false = ground (arith, gt_of_lt k x.0) in
          rw (
            f,
            b,
            select-true (from_key k) l (All-from k l a),
            select-true (after_key k) l (All-after k l a),
            skip_head k x (map (decode deserialize) l) (decode deserialize x) (decode-key x),
            n,
          ))
    | inr (inl c) ↦
        (let a : All (λ e. cmp k e.0 ≡ Ordering.lt) l = later_keys k x l s.0 (inr c) in
          let f : from_key k x ≡ true = ground arith in
          let b : after_key k x ≡ false = ground arith in
          let n : equals x.0 k ≡ true = rw (sym (eq_of_cmp k x.0 c)) (ground (arith, cmp_refl k)) in
          rw (
            f,
            b,
            select-true (from_key k) l (All-from k l a),
            select-true (after_key k) l (All-after k l a),
            skip_head k x (map (decode deserialize) l) (decode deserialize x) (decode-key x),
            n,
          ))
    | inr (inr c) ↦
        (let f : from_key k x ≡ false = ground arith in
          let b : after_key k x ≡ false = ground arith in rw (f, b) (skip-accepted k l s.1))
  ]

  passing-append :
      (xs ys : List (Outcome (Bytes × T)))
      → passing check (xs ++ ys) ≡ passing check xs ++ passing check ys
  passing-append [] ys = refl
  passing-append (err e ∷ xs) ys = passing-append xs ys
  passing-append (ok r ∷ xs) ys = ground (arith, passing-append xs ys)

  accepted-append : (xs ys : List Entry) → accepted (xs ++ ys) ≡ accepted xs ++ accepted ys
  accepted-append xs ys =
      rw map-append (passing-append (map (decode deserialize) xs) (map (decode deserialize) ys))

  reverse-accepted_one : (x : Entry) → reverse (accepted (x ∷ [])) ≡ accepted (x ∷ [])
  reverse-accepted_one x = elim (accepted-cons x []) [ inl (v, e) ↦ rw e | inr e ↦ rw e ]

  -- Reading the entries backwards reads the accepted records backwards.
  pub accepted-reverse : (l : List Entry) → accepted (reverse l) ≡ reverse (accepted l)
  accepted-reverse [] = refl
  accepted-reverse (x ∷ l) = rw (
    reverse-cons x l,
    accepted-append (reverse l) (x ∷ []),
    accepted-append (x ∷ []) l,
    reverse-append (accepted (x ∷ [])) (accepted l),
    reverse-accepted_one x,
    accepted-reverse l,
  )
