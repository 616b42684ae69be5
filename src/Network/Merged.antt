-- ===== src/Network/Merged.antt =====
-- What `network_connection` (src/graphql/network.rs) returns: the stable merge of the stores.
use mathlib.Core.List.{append_assoc, append-nil}
use giganto.Prelude.{
  ℕ, zero, suc, ◌+◌, ◌-◌, ◌<◌, ◌≡◌, refl, sym, ap, ◌∙◌, Bool, true, false, not, Option, none, some,
  List, [], ◌∷◌, ◌++◌, map, reverse, length, take, drop, leb, is_empty, All, arith, Bool-cases,
  Option-cases, inl, inr, length-append, All-map,
}
use giganto.Bytes.{Bytes}
use giganto.Outcome.{Outcome, ok, ◌>>=◌}
use giganto.Chrono.{Chrono, Moments}
use giganto.Key.{get_timestamp_from_key}
use giganto.Merge.{merge_all, pick, merge_all-pick, pick-Chosen}
use giganto.Network.{
  Lanes, all_empty, left_over, selected, take_selected, lane_time, lane_times, merge_round,
  merge_loop, Connection, network_connection,
}
use giganto.Network.Selected.{by_time, times, Inside, selected-pick, take_selected-pick}

-- What is left of the lanes behind a pick.
abbrev Leaves : {A : Type 0} → Lanes A → Option (A × Lanes A) → Type 0
Leaves ls none = (all_empty ls ≡ true)
Leaves ls (some p) = (all_empty ls ≡ false) × (left_over ls ≡ suc (left_over p.1))

pick-Leaves : {A : Type 0} (le : A → A → Bool) (ls : Lanes A) → Leaves ls (pick le ls)
unfolding pick
pick-Leaves le [] = refl
pick-Leaves le ([] ∷ ls) =
    let ih = pick-Leaves le ls in
    elim (Option-cases (pick le ls)) [
      | inl e ↦ rw (pick, e) (rw e at ih)
      | inr (p, e) ↦ rw (pick, e) (let (i, j) = rw e at ih in (i, omega (arith, j)))
    ]
pick-Leaves le ((x ∷ xs) ∷ ls) =
    let ih = pick-Leaves le ls in
    elim (Option-cases (pick le ls)) [
      | inl e ↦ rw (pick, e) (refl, omega arith)
      | inr (p, e) ↦ elim (Bool-cases (le x p.0)) [
        | inl t ↦ rw (pick, e, t) (refl, omega arith)
        | inr t ↦ let (i, j) = rw e at ih in rw (pick, e, t) (refl, omega (arith, j))
      ]
    ]

nil_of : {A : Type 0} (l : List A) → is_empty l ≡ true → l ≡ []
nil_of [] h = refl
nil_of (x ∷ xs) h = cc

no_more : (size n : ℕ) → leb size (n + 1) ≡ true → size - suc n ≡ 0
no_more size n h = ground arith

one_more : (size n : ℕ) → leb size (n + 1) ≡ false → size - suc n ≡ suc (size - suc (n + 1))
one_more size n h = ground arith

module _ (c : Chrono) {A N : Type 0} (key : A → Bytes) (from_key_value : A → Outcome N)
    (le : c.DateTime → c.DateTime → Bool) (bound : c.DateTime)
    (total : (a b : c.DateTime) → le a b ≡ false → le b a ≡ true) (time : A → c.DateTime)
    (node : A → N) where
  -- Records with a timestamp that the bound is behind, and a node.
  abbrev pub Sound : A → Type 0
  Sound x =
      (get_timestamp_from_key c (key x) ≡ ok (time x))
      × (le bound (time x) ≡ false)
      × (from_key_value x ≡ ok (node x))

  within_range : (x : A) → Sound x → le bound (time x) ≡ false
  within_range x s = s.1

  Sound-Inside : (ls : Lanes A) → All (All Sound) ls → Inside le bound total time ls
  Sound-Inside ls h = All-map (All-map within_range) ls h

  lane_times_lem :
      (ls : Lanes A)
      → All (All Sound) ls
      → lane_times c key from_key_value le bound ls ≡ ok (times le bound total time ls)
  unfolding lane_times lane_time
  lane_times_lem [] h = refl
  lane_times_lem ([] ∷ ls) h = rw (lane_times_lem ls h.1) refl
  lane_times_lem ((x ∷ xs) ∷ ls) h = rw (h.0.0.0, lane_times_lem ls h.1) refl

  abbrev Rounds : List N → Lanes A → Option (A × Lanes A) → Type 0
  Rounds result ls none = merge_round c key from_key_value le bound result ls ≡ ok (result, ls)
  Rounds result ls (some p) =
      merge_round c key from_key_value le bound result ls ≡ ok (result ++ node p.0 ∷ [], p.1)

  Picks : List N → Option A × Lanes A → Outcome (List N × Lanes A)
  Picks result t = elim t.0 [
    | none ↦ ok (result, t.1)
    | some x ↦ do edge ← from_key_value x; ok (result ++ edge ∷ [], t.1)
  ]

  merge_round_at :
      (result : List N) (ls : Lanes A) (ts : List (c.DateTime)) (t : Option A × Lanes A)
      → lane_times c key from_key_value le bound ls ≡ ok ts
      → take_selected le (selected le bound ts) ls ts ≡ t
      → merge_round c key from_key_value le bound result ls ≡ Picks result t
  unfolding merge_round Picks
  merge_round_at result ls ts t a b = rw a (ap (Picks result) b)

  merge_round-pick :
      (result : List N) (ls : Lanes A)
      → All (All Sound) ls
      → Rounds result ls (pick (by_time le bound total time) ls)
  unfolding merge_round Picks
  merge_round-pick result ls h =
      let inside = Sound-Inside ls h in
      let s = selected-pick le bound total time ls inside in
      let t = take_selected-pick le bound total time ls inside in
      let k = pick-Chosen (by_time le bound total time) Sound ls h in
      elim (Option-cases (pick (by_time le bound total time) ls)) [
        | inl e ↦
            let u = rw e at t in
            let s' = rw e at s in
            rw e (
              merge_round_at result ls (times le bound total time ls) (none, ls)
                (lane_times_lem ls h) (rw s' u))
        | inr (p, e) ↦
            let u = rw e at t in
            let s' = rw e at s in
            let v = (rw e at k).0.2 in
            rw
              (
                e,
                merge_round_at result ls (times le bound total time ls) (some p.0, p.1)
                    (lane_times_lem ls h) (rw s' u),
              )
              (rw v refl)
      ]

  -- The records of the page and of what is behind it, in the order of the stable merge.
  abbrev pub merged : Lanes A → List A
  merged ls = merge_all (by_time le bound total time) ls

  all_empty-merged : (ls : Lanes A) → all_empty ls ≡ is_empty (merged ls)
  all_empty-merged ls =
      let lv = pick-Leaves (by_time le bound total time) ls in
      let m = merge_all-pick (by_time le bound total time) ls in
      elim (Option-cases (pick (by_time le bound total time) ls)) [
        | inl e ↦ rw (rw e at m, rw e at lv) refl
        | inr (p, e) ↦ rw (rw e at m, (rw e at lv).0) refl
      ]

  abbrev Goes : ℕ → List N → ℕ → Lanes A → Type 0
  Goes size result rounds ls =
      merge_loop c key from_key_value le bound rounds size result ls
      ≡ some (
          ok (
            result ++ map node (take (suc (size - suc (length result))) (merged ls)),
            not (is_empty (drop (suc (size - suc (length result))) (merged ls))),
          ))

  loop-merged :
      (rounds size : ℕ) (result : List N) (ls : Lanes A)
      → left_over ls < rounds
      → All (All Sound) ls
      → Goes size result rounds ls
  unfolding merge_loop
  loop-merged zero size result ls w h = elim w [ ]
  loop-merged (suc n) size result ls w h =
      let r = merge_round-pick result ls h in
      let lv = pick-Leaves (by_time le bound total time) ls in
      let k = pick-Chosen (by_time le bound total time) Sound ls h in
      let m = merge_all-pick (by_time le bound total time) ls in
      elim (Option-cases (pick (by_time le bound total time) ls)) [
        | inl e ↦
            let u = rw e at r in
            let v = rw e at lv in
            let q = rw e at m in rw (merge_loop, u, v, q) (ground (arith, append-nil result))
        | inr (p, e) ↦
            let u = rw e at r in
            let (i, j) = rw e at lv in
            let q = rw e at m in
            let ih =
              loop-merged n size (result ++ node p.0 ∷ []) p.1 (omega (arith, j, w))
                (rw e at k).1 in
            let len = length-append result (node p.0 ∷ []) in
            let b = all_empty-merged p.1 in
            let a = append_assoc result (node p.0 ∷ []) in
            elim (Bool-cases (leb size (length (result ++ node p.0 ∷ [])))) [
              | inl t ↦
                  let z = no_more size (length result) (rw len at t) in
                  rw (merge_loop, u, q, t, z, b) refl
              | inr t ↦
                  let z = one_more size (length result) (rw len at t) in
                  elim (Bool-cases (all_empty p.1)) [
                    | inl y ↦
                        let nil = nil_of (merged p.1) (sym b ∙ y) in
                        rw (merge_loop, u, q, t, y, z, nil) refl
                    | inr y ↦ let ih' = rw len at ih in rw (merge_loop, u, q, t, y, z) (rw a at ih')
                  ]
            ]
      ]

module _ (c : Chrono) (m : Moments (c.DateTime)) {A N : Type 0} (key : A → Bytes)
    (from_key_value : A → Outcome N) (time : A → c.DateTime) (node : A → N) where
  -- A record whose key has a timestamp strictly within chrono's range, and that has a node.
  abbrev pub WithNode : A → Type 0
  WithNode x =
      (get_timestamp_from_key c (key x) ≡ ok (time x))
      × (m.leb m.max_utc (time x) ≡ false)
      × (m.leb (time x) m.min_utc ≡ false)
      × (from_key_value x ≡ ok (node x))

  abbrev pub earlier : A → A → Bool
  earlier x y = m.leb (time x) (time y)

  abbrev pub later : A → A → Bool
  later x y = m.leb (time y) (time x)

  -- The page of a merged sequence: at least one record, if there is one.
  abbrev pub page_of : List A → ℕ → Connection N
  page_of records size = (
    map node (take (suc (size - 1)) records),
    false,
    not (is_empty (drop (suc (size - 1)) records)),
  )

  abbrev pub page_before : List A → ℕ → Connection N
  page_before records size = (
    reverse (map node (take (suc (size - 1)) records)),
    not (is_empty (drop (suc (size - 1)) records)),
    false,
  )

  forward-Sound :
      (x : A) → WithNode x → Sound c key from_key_value m.leb m.max_utc m.leb_total time node x
  forward-Sound x s = (s.0, s.1, s.3)

  backward-Sound :
      (x : A)
      → WithNode x
      → Sound c key from_key_value (λ a b. m.leb b a) m.min_utc (λ a b. m.leb_total b a) time node x
  backward-Sound x s = (s.0, s.2, s.3)

  abbrev pub page_at : Bool → Lanes A → ℕ → Connection N
  page_at true lanes size = page_of (merge_all earlier lanes) size
  page_at false lanes size = page_before (merge_all later lanes) size

  -- Records with a timestamp strictly within chrono's range and a node are given out in the order
  -- of their stable merge by timestamp: the loop ends, and the page is the start of the merge, as
  -- many records as the size and at least one if there is one, and says whether the merge goes on.
  -- Backwards the merge is from the latest on and the page has the reverse order.
  pub network_connection-merge :
      (lanes : Lanes A) (size : ℕ) (is_forward : Bool)
      → All (All WithNode) lanes
      → network_connection c m key from_key_value lanes size is_forward
        ≡ some (ok (page_at is_forward lanes size))
  unfolding network_connection
  network_connection-merge lanes size true h =
      rw
        (
          network_connection,
          loop-merged c key from_key_value m.leb m.max_utc m.leb_total time node
              (suc (left_over lanes)) size [] lanes (omega arith)
              (All-map (All-map forward-Sound) lanes h),
        )
        refl
  network_connection-merge lanes size false h =
      rw
        (
          network_connection,
          loop-merged c key from_key_value (λ a b. m.leb b a) m.min_utc (λ a b. m.leb_total b a)
              time node (suc (left_over lanes)) size [] lanes (omega arith)
              (All-map (All-map backward-Sound) lanes h),
        )
        refl
