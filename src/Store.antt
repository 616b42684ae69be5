-- ===== src/Store.antt =====
-- What a query reads of a column family (`RawEventStore` of src/storage.rs): RocksDB's
-- `iterator_cf` from a key, and `get_cf`. RocksDB is not part of the repository, so a store is what
-- these two return, and `Scans` says what its documentation promises of them.
pub mod Sorted
use giganto.Prelude.{
  Bool, true, false, ◌≡◌, Option, none, some, Ordering, List, [], ◌∷◌, map, reverse, select, All,
  if◌then◌else◌, ◌<◌, ℕ,
}
use giganto.Bytes.{Bytes, cmp}
use giganto.Outcome.{Outcome, ok}

pub data Direction : Type 0 where
  forward reverse_order : Direction

abbrev pub Entry : Type 0
Entry = Bytes × Bytes

pub record RawEventStore : Type 0 where
  pub iterator_cf : Bytes → Direction → List (Outcome Entry)
  pub get_cf : Bytes → Outcome (Option Bytes)

-- The test for `Ordering::Less` or `Ordering::Equal`.
abbrev pub at_most : Bytes → Bytes → Bool
at_most a b = elim (cmp a b) [ Ordering.gt ↦ false | _ ↦ true ]

abbrev pub equals : Bytes → Bytes → Bool
equals a b = elim (cmp a b) [ Ordering.eq ↦ true | _ ↦ false ]

-- Every element stands in the relation to all that follow it.
abbrev pub Pairwise {ℓ κ} : {A : Type ℓ} → (A → A → Type κ) → List A → Type κ
Pairwise R [] = Unit
Pairwise R (x ∷ xs) = All (R x) xs × Pairwise R xs

abbrev pub Before : Entry → Entry → Type 0
Before x y = cmp x.0 y.0 ≡ Ordering.lt

abbrev pub from_key : Bytes → Entry → Bool
from_key k e = at_most k e.0

abbrev pub to_key : Bytes → Entry → Bool
to_key k e = at_most e.0 k

abbrev pub lookup : Bytes → List Entry → Option Bytes
lookup k [] = none
lookup k (e ∷ es) = let rest = lookup k es in if equals e.0 k then some e.1 else rest

-- A store whose entries, in the order of their keys, are `entries`, read without errors.
pub record Scans (s : RawEventStore) (entries : List Entry) : Type 0 where
  pub ascending : Pairwise Before entries
  pub scan_forward : (k : Bytes) → s.iterator_cf k forward ≡ map ok (select (from_key k) entries)
  pub scan_reverse :
      (k : Bytes) → s.iterator_cf k reverse_order ≡ map ok (reverse (select (to_key k) entries))
  pub get_lookup : (k : Bytes) → s.get_cf k ≡ ok (lookup k entries)
