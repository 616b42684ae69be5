-- ===== src/Page/Walk.antt =====
-- What a client sees that asks for one page after the other (`load_connection` of src/graphql.rs).
use mathlib.Core.List.{append_assoc}
use giganto.Prelude.{
  ℕ, zero, suc, ◌<◌, ◌≡◌, refl, sym, ap, ◌∙◌, Bool, false, Option, none, some, List, [], ◌∷◌, ◌++◌,
  All, map, take, drop, length, arith,
}
use giganto.Bytes.{Bytes}
use giganto.Chrono.{Chrono}
use giganto.Export.File.{Ended, returned, panicked}
use giganto.Outcome.{Outcome, ok, err}
use giganto.Page.{Query, page_size, get_connection}
use giganto.Page.Connection.{records_in_range, get_connection-first, get_connection-after}
use giganto.Page.Loaded.{Loaded, edges_of, load_connection}
use giganto.Store.{Entry, RawEventStore, Scans}

abbrev last_cursor : {N : Type 0} → Bytes × N → List (Bytes × N) → Bytes
last_cursor e [] = e.0
last_cursor e (e' ∷ edges) = last_cursor e' edges

-- The nodes of a page and what follows behind its last cursor; an empty page is the end.
abbrev pub follow :
    {N : Type 0} → (Option Bytes → Option (List N)) → Ended (Loaded N) → Option (List N)
follow rest (panicked m) = none
follow rest (returned (err e)) = none
follow rest (returned (ok ([], p, q))) = some []
follow rest (returned (ok (e ∷ edges, p, q))) = elim (rest (some (last_cursor e edges))) [
  | none ↦ none
  | some nodes ↦ some (map (λ x. x.1) (e ∷ edges) ++ nodes)
]

take-drop : {A : Type 0} (n : ℕ) (xs : List A) → take n xs ++ drop n xs ≡ xs
take-drop zero xs = refl
take-drop (suc n) [] = refl
take-drop (suc n) (x ∷ xs) = ap (λ l. x ∷ l) (take-drop n xs)

All-take : {A : Type 0} (P : A → Type 0) (n : ℕ) (xs : List A) → All P xs → All P (take n xs)
All-take P zero xs h = tt
All-take P (suc n) [] h = tt
All-take P (suc n) (x ∷ xs) h = (h.0, All-take P n xs h.1)

All-drop : {A : Type 0} (P : A → Type 0) (n : ℕ) (xs : List A) → All P xs → All P (drop n xs)
All-drop P zero xs h = h
All-drop P (suc n) [] h = tt
All-drop P (suc n) (x ∷ xs) h = All-drop P n xs h.1

length-drop : {A : Type 0} (n m : ℕ) (xs : List A) → length xs < m → length (drop n xs) < m
length-drop zero m xs h = h
length-drop (suc n) m [] h = h
length-drop (suc n) m (x ∷ xs) h = length-drop n m xs (omega (arith, h))

map-append : {A B : Type 0} (f : A → B) (xs ys : List A) → map f (xs ++ ys) ≡ map f xs ++ map f ys
map-append f [] ys = refl
map-append f (x ∷ xs) ys = ap (λ l. f x ∷ l) (map-append f xs ys)

map-map :
    {A B C : Type 0} (f : A → B) (g : B → C) (xs : List A)
    → map g (map f xs) ≡ map (λ x. g (f x)) xs
map-map f g [] = refl
map-map f g (x ∷ xs) = ap (λ l. g (f x) ∷ l) (map-map f g xs)

not_below : (n : ℕ) → n < 0 → ⊥
not_below n h = omega (arith, h)

predecessor : (n : ℕ) → 0 < n → (m : ℕ) × (n ≡ suc m)
predecessor zero h = absurd (not_below 0 h)
predecessor (suc m) h = (m, refl)

module _ (c : Chrono) {T N : Type 0} (deserialize : Bytes → Outcome T)
    (decode : Bytes → Outcome Bytes) (encode : Bytes → Bytes)
    (from_key_value : Bytes → T → Outcome N) (store : RawEventStore) (filter : Query c T)
    (size : ℕ) where
  -- The nodes of all pages of such a size, each page behind the last cursor of the page before it, until one is
  -- empty.
  unfoldable pub walk : ℕ → Option Bytes → Option (List N)
  unfolding load_connection
  walk zero after = none
  walk (suc fuel) after = follow (walk fuel) (
      load_connection c deserialize decode encode from_key_value store filter after none (some size)
        none)

module _ (c : Chrono) {T N : Type 0} (deserialize : Bytes → Outcome T)
    (decode : Bytes → Outcome Bytes) (encode : Bytes → Bytes)
    (decodes : (key : Bytes) → decode (encode key) ≡ ok key)
    (from_key_value : Bytes → T → Outcome N) (node : Bytes × T → N) (store : RawEventStore)
    (filter : Query c T) (entries : List Entry) (scans : Scans store entries) (size : ℕ)
    (positive : 0 < page_size (some size)) where
  abbrev records : List (Bytes × T)
  records = records_in_range c deserialize decode store filter entries scans

  abbrev pages : ℕ → Option Bytes → Option (List N)
  pages = walk c deserialize decode encode from_key_value store filter size

  abbrev edge : Bytes × T → Bytes × N
  edge r = (encode r.0, node r)

  -- Records that can be converted.
  abbrev Convert : List (Bytes × T) → Type 0
  Convert rs = All (λ r. from_key_value r.0 r.1 ≡ ok (node r)) rs

  edges_lem :
      (rs : List (Bytes × T))
      → Convert rs
      → edges_of c deserialize decode encode from_key_value store filter rs
        ≡ returned (ok (map edge rs))
  unfolding edges_of
  edges_lem [] h = refl
  edges_lem (r ∷ rs) h = rw (edges_of, h.0, edges_lem rs h.1) refl

  -- The last record of a page, and its cursor.
  page_end :
      (r : Bytes × T) (rs : List (Bytes × T))
      → (init : List (Bytes × T)) × (k : Bytes) × (v : T) × (r ∷ rs ≡ init ++ (k, v) ∷ [])
        × (last_cursor (edge r) (map edge rs) ≡ encode k)
  page_end r [] = ([], r.0, r.1, refl, refl)
  page_end r (r' ∷ rs) =
      let (init, k, v, e, l) = page_end r' rs in (r ∷ init, k, v, ap (λ z. r ∷ z) e, l)

  -- Behind every record of the range the pages show the records that follow it.
  abbrev Continues : ℕ → Type 0
  Continues fuel =
      (ps qs : List (Bytes × T)) (k : Bytes) (v : T)
      → records ≡ ps ++ (k, v) ∷ qs
      → Convert qs
      → length qs < fuel
      → pages fuel (some (encode k)) ≡ some (map node qs)

  page_lem :
      (fuel m : ℕ) (ps qs : List (Bytes × T)) (more : Bool)
      → Continues fuel
      → records ≡ ps ++ qs
      → Convert qs
      → length qs < suc fuel
      → follow (pages fuel) (returned (ok (map edge (take (suc m) qs), false, more)))
        ≡ some (map node qs)
  page_lem fuel m ps [] more ih e a l = refl
  page_lem fuel m ps (q ∷ qs) more ih e a l =
      let (init, k, v, last, cursor) = page_end q (take m qs) in
      let whole : q ∷ qs ≡ init ++ (k, v) ∷ drop m qs =
        ap (λ z. q ∷ z) (sym (take-drop m qs))
        ∙ ap (λ z. z ++ drop m qs) last
        ∙ append_assoc init ((k, v) ∷ []) (drop m qs) in
      let rest =
        ih (ps ++ init) (drop m qs) k v
          (e ∙ ap (λ z. ps ++ z) whole ∙ sym (append_assoc ps init ((k, v) ∷ drop m qs)))
          (All-drop (λ r. from_key_value r.0 r.1 ≡ ok (node r)) m qs a.1)
          (length-drop m fuel qs (omega (arith, l))) in
      let nodes : map (λ x. x.1) (map edge (take m qs)) ++ map node (drop m qs) ≡ map node qs =
        ap (λ z. z ++ map node (drop m qs)) (map-map edge (λ x. x.1) (take m qs))
        ∙ sym (map-append node (take m qs) (drop m qs))
        ∙ ap (map node) (take-drop m qs) in
      rw (follow, cursor, rest) (ap (λ z. some (node q ∷ z)) nodes)

  loaded :
      (after : Option Bytes) (rs : List (Bytes × T)) (more : Bool)
      → get_connection c deserialize decode store filter after none (some size) none
        ≡ ok (rs, false, more)
      → Convert rs
      → load_connection c deserialize decode encode from_key_value store filter after none
          (some size)
          none
        ≡ returned (ok (map edge rs, false, more))
  unfolding load_connection
  loaded after rs more g a = rw (load_connection, g, edges_lem rs a) refl

  walk-Continues : (fuel : ℕ) → Continues fuel
  unfolding walk
  walk-Continues zero ps qs k v e a l = absurd (not_below (length qs) l)
  walk-Continues (suc fuel) ps qs k v e a l =
      let (m, s) = predecessor (page_size (some size)) positive in
      let (more, g) =
        get_connection-after c deserialize decode store filter entries scans (some size) (encode k)
          k v ps qs positive (decodes k) e in
      rw
        (
          loaded (some (encode k)) (take (page_size (some size)) qs) more g
              (All-take (λ r. from_key_value r.0 r.1 ≡ ok (node r)) (page_size (some size)) qs a),
          s,
        )
        (page_lem fuel m (ps ++ (k, v) ∷ []) qs more (walk-Continues fuel)
          (e ∙ sym (append_assoc ps ((k, v) ∷ []) qs)) a l)

  -- A client that asks for the pages of a size that is not 0, each behind the last cursor of the page before,
  -- until one is empty, is shown every accepted record of the time range exactly once, in the
  -- order of their keys, after at most one page more than there are records. The store is read without errors and does not
  -- change meanwhile, each of those records can be converted, and a cursor decodes to its key.
  pub walk-records :
      (fuel : ℕ)
      → Convert records
      → length records < fuel
      → walk c deserialize decode encode from_key_value store filter size fuel none
        ≡ some (map node records)
  unfolding walk
  walk-records zero a l = absurd (not_below (length records) l)
  walk-records (suc fuel) a l =
      let (m, s) = predecessor (page_size (some size)) positive in
      let g =
        get_connection-first c deserialize decode store filter entries scans (some size) positive in
      rw
        (
          loaded none (take (page_size (some size)) records) _ g (
              All-take (λ r. from_key_value r.0 r.1 ≡ ok (node r)) (page_size (some size)) records
                a),
          s,
        )
        (page_lem fuel m [] records _ (walk-Continues fuel) refl a l)
