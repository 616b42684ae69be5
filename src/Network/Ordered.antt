-- ===== src/Network/Ordered.antt =====
-- The order of the edges that `network_connection` (src/graphql/network.rs) returns.
use giganto.Prelude.{◌≡◌, Bool, true, false, List, [], ◌∷◌, All, ℕ, zero, suc, some, map, take, ◌-◌}
use giganto.Bytes.{Bytes}
use giganto.Outcome.{Outcome, ok}
use giganto.Chrono.{Chrono, Moments}
use giganto.Store.{Pairwise}
use giganto.Store.Sorted.{Pairwise-reverse}
use giganto.Merge.{merge_all}
use giganto.Merge.Ordered.{Ordered, merge_all-Ordered}
use giganto.Network.{Lanes, Connection, network_connection}
use giganto.Network.Merged.{WithNode, earlier, later, page_at, network_connection-merge}

All-take {ℓ κ} : {A : Type ℓ} (P : A → Type κ) (n : ℕ) (xs : List A) → All P xs → All P (take n xs)
All-take P zero xs h = tt
All-take P (suc n) [] h = tt
All-take P (suc n) (x ∷ xs) h = (h.0, All-take P n xs h.1)

Pairwise-take {ℓ κ} :
    {A : Type ℓ} (R : A → A → Type κ) (n : ℕ) (xs : List A) → Pairwise R xs → Pairwise R (take n xs)
Pairwise-take R zero xs h = tt
Pairwise-take R (suc n) [] h = tt
Pairwise-take R (suc n) (x ∷ xs) h = (All-take (R x) n xs h.0, Pairwise-take R n xs h.1)

All-of-map {ℓ μ κ ν} :
    {A : Type ℓ} {B : Type μ} (f : A → B) (P : A → Type κ) (Q : B → Type ν)
    (g : (x : A) → P x → Q (f x)) (xs : List A)
    → All P xs
    → All Q (map f xs)
All-of-map f P Q g [] h = tt
All-of-map f P Q g (x ∷ xs) h = (g x h.0, All-of-map f P Q g xs h.1)

Pairwise-of-map {ℓ μ κ ν} :
    {A : Type ℓ} {B : Type μ} (f : A → B) (R : A → A → Type κ) (S : B → B → Type ν)
    (g : (x y : A) → R x y → S (f x) (f y)) (xs : List A)
    → Pairwise R xs
    → Pairwise S (map f xs)
Pairwise-of-map f R S g [] h = tt
Pairwise-of-map f R S g (x ∷ xs) h =
    (All-of-map f (R x) (S (f x)) (g x) xs h.0, Pairwise-of-map f R S g xs h.1)

module _ (c : Chrono) (m : Moments (c.DateTime)) {A N : Type 0} (key : A → Bytes)
    (from_key_value : A → Outcome N) (time : A → c.DateTime) (node : A → N) (stamp : N → c.DateTime)
    (stamped : (x : A) → stamp (node x) ≡ time x) where
  -- Edges in the order of their timestamps.
  abbrev pub Ascending : List N → Type 0
  Ascending = Pairwise (λ a b. m.leb (stamp a) (stamp b) ≡ true)

  -- The order in which the stores are read.
  abbrev pub in_order : Bool → A → A → Bool
  in_order true = earlier c m key from_key_value time node
  in_order false = later c m key from_key_value time node

  edges-Ascending :
      (lanes : Lanes A) (size : ℕ) (is_forward : Bool)
      → All (Ordered (in_order is_forward)) lanes
      → Ascending (page_at c m key from_key_value time node is_forward lanes size).0
  edges-Ascending lanes size true h =
      Pairwise-of-map node (λ x y. m.leb (time x) (time y) ≡ true)
        (λ a b. m.leb (stamp a) (stamp b) ≡ true) (λ x y h. rw (stamped x, stamped y) h)
        (take (suc (size - 1)) (merge_all (in_order true) lanes))
        (Pairwise-take (λ x y. m.leb (time x) (time y) ≡ true) (suc (size - 1))
          (merge_all (in_order true) lanes)
          (merge_all-Ordered (in_order true) (λ x y. m.leb_total (time x) (time y))
            (λ x y z. m.leb_trans (time x) (time y) (time z)) lanes h))
  edges-Ascending lanes size false h =
      Pairwise-reverse (λ a b. m.leb (stamp b) (stamp a) ≡ true)
        (map node (take (suc (size - 1)) (merge_all (in_order false) lanes)))
        (Pairwise-of-map node (λ x y. m.leb (time y) (time x) ≡ true)
          (λ a b. m.leb (stamp b) (stamp a) ≡ true) (λ x y h. rw (stamped x, stamped y) h)
          (take (suc (size - 1)) (merge_all (in_order false) lanes))
          (Pairwise-take (λ x y. m.leb (time y) (time x) ≡ true) (suc (size - 1))
            (merge_all (in_order false) lanes)
            (merge_all-Ordered (in_order false) (λ x y. m.leb_total (time y) (time x))
              (λ x y z h k. m.leb_trans (time z) (time y) (time x) k h) lanes h)))

  -- Whichever way a page is read, its edges are in the order of their timestamps, if the records
  -- of each store are in the order that they are read in, and have a node with their timestamp,
  -- which is strictly within chrono's range. The merge ends.
  pub network_connection-Ascending :
      (lanes : Lanes A) (size : ℕ) (is_forward : Bool)
      → All (All (WithNode c m key from_key_value time node)) lanes
      → All (Ordered (in_order is_forward)) lanes
      → (s : Connection N) × (network_connection c m key from_key_value lanes size is_forward
          ≡ some (ok s))
        × Ascending s.0
  network_connection-Ascending lanes size is_forward h o = (
    page_at c m key from_key_value time node is_forward lanes size,
    network_connection-merge c m key from_key_value time node lanes size is_forward h,
    edges-Ascending lanes size is_forward o,
  )
