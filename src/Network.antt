-- ===== src/Network.antt =====
-- `network_connection` of src/graphql/network.rs, the loop that merges the records of the sixteen
-- network stores into one page. A lane is what the iterator of one store yields, until it ends; its
-- head is the record that the loop holds in `conn_data`, `dns_data` and so on, and the lanes are in
-- the order of the `match` on `selected`. A record of any of the stores is an `A`.
pub mod Selected
pub mod Merged
pub mod Ordered
pub mod Stores
use giganto.Prelude.{
  ℕ, zero, suc, ◌+◌, Bool, true, false, ◌&&◌, not, Option, none, some, List, [], ◌∷◌, ◌++◌, reverse,
  length, leb, is_empty, every, if◌then◌else◌,
}
use giganto.Bytes.{Bytes}
use giganto.Outcome.{Outcome, ok, err, ◌>>=◌}
use giganto.Chrono.{Chrono, Moments}
use giganto.Key.{get_timestamp_from_key}

abbrev pub Lanes : Type 0 → Type 0
Lanes A = List (List A)

abbrev pub all_empty : {A : Type 0} → Lanes A → Bool
all_empty lanes = every is_empty lanes

-- The records that are left.
abbrev pub left_over : {A : Type 0} → Lanes A → ℕ
left_over [] = 0
left_over (l ∷ ls) = length l + left_over ls

module _ {D : Type 0} (le : D → D → Bool) where
  -- `Ord::min`; with the order turned round, `Ord::max`.
  abbrev pub least : D → D → D
  least a b = if le a b then a else b

  abbrev pub same_moment : D → D → Bool
  same_moment a b = le a b && le b a

  -- `timestamp.min(dns_ts.min(..))`, whatever the order in which the least is looked for.
  unfoldable pub selected : D → List D → D
  selected bound [] = bound
  selected bound (t ∷ ts) = least t (selected bound ts)

  -- The first arm of the `match` whose timestamp is the selected one: its record is taken, if there
  -- is one.
  unfoldable pub take_selected : {A : Type 0} → D → Lanes A → List D → Option A × Lanes A
  take_selected sel [] ts = (none, [])
  take_selected sel (l ∷ ls) [] = (none, l ∷ ls)
  take_selected sel (l ∷ ls) (t ∷ ts) =
      let later = take_selected sel ls ts in
      if same_moment sel t
      then elim l [ [] ↦ (none, [] ∷ ls) | x ∷ xs ↦ (some x, xs ∷ ls) ]
      else (later.0, l ∷ later.1)

module _ (c : Chrono) {A N : Type 0} (key : A → Bytes) (from_key_value : A → Outcome N)
    (le : c.DateTime → c.DateTime → Bool) (bound : c.DateTime) where
  -- `conn_ts` and the others.
  unfoldable pub lane_time : List A → Outcome (c.DateTime)
  lane_time [] = ok bound
  lane_time (x ∷ xs) = get_timestamp_from_key c (key x)

  unfoldable pub lane_times : Lanes A → Outcome (List (c.DateTime))
  unfolding lane_time
  lane_times [] = ok []
  lane_times (l ∷ ls) = do t ← lane_time l; ts ← lane_times ls; ok (t ∷ ts)

  -- One round: the edges and the lanes behind it.
  unfoldable pub merge_round : List N → Lanes A → Outcome (List N × Lanes A)
  unfolding lane_times selected take_selected
  merge_round result lanes = do
    ts ← lane_times lanes
    let (picked, lanes') = take_selected le (selected le bound ts) lanes ts
    elim picked [
      | none ↦ ok (result, lanes')
      | some x ↦ do edge ← from_key_value x; ok (result ++ edge ∷ [], lanes')
    ]

  -- The edges, and whether records are left. `none` is that the rounds run out.
  unfoldable pub merge_loop : ℕ → ℕ → List N → Lanes A → Option (Outcome (List N × Bool))
  unfolding merge_round
  merge_loop zero size result lanes = none
  merge_loop (suc rounds) size result lanes = elim (merge_round result lanes) [
    | err e ↦ some (err e)
    | ok s ↦
        (let later = merge_loop rounds size s.0 s.1 in
          if leb size (length s.0)
          then some (ok (s.0, not (all_empty s.1)))
          else if all_empty s.1
          then some (ok (s.0, not (all_empty s.1)))
          else later)
  ]

-- The edges, `has_previous_page` and `has_next_page`.
abbrev pub Connection : Type 0 → Type 0
Connection N = List N × Bool × Bool

unfoldable pub network_connection :
    (c : Chrono)
    → Moments (c.DateTime)
    → {A N : Type 0} → (A → Bytes)
    → (A → Outcome N)
    → Lanes A
    → ℕ
    → Bool
    → Option (Outcome (Connection N))
unfolding merge_loop
network_connection c m key from_key_value lanes size true =
    elim (merge_loop c key from_key_value m.leb m.max_utc (suc (left_over lanes)) size [] lanes) [
      | none ↦ none
      | some r ↦ some (do s ← r; ok (s.0, false, s.1))
    ]
network_connection c m key from_key_value lanes size false =
    elim (merge_loop c key from_key_value (λ a b. m.leb b a) m.min_utc (suc (left_over lanes)) size
      [] lanes) [ none ↦ none | some r ↦ some (do s ← r; ok (reverse s.0, s.1, false)) ]
