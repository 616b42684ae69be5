-- ===== src/Tests.antt =====
-- Concrete stores, keys and events on which the theorems about src/storage.rs, src/graphql.rs,
-- src/ingest.rs, src/publish.rs and src/peer.rs are applied.
pub mod Keys
pub mod Retention
pub mod Shown
pub mod Pages
pub mod Streams
pub mod Published
pub mod Peers
pub mod Networks
pub mod Exports
pub mod Searches
pub mod Traffic
pub mod Sensors
pub mod Upgrades
pub mod Records
pub mod Live
pub mod Nodes
pub mod Requests
pub mod Configured
use giganto.Prelude.{
  ℕ, length, ltb, if◌then◌else◌, Option, none, List, [], ◌∷◌, map, reverse, select, refl, arith,
}
use giganto.Bytes.{Bytes, cmp, to_be}
use giganto.Int64.{pos, to_be_bytes}
use giganto.Outcome.{Outcome, ok, err}
use giganto.Key.{builder, start_key, end_key, build}
use giganto.Key.Shape.{NoNul}
use giganto.Store.{
  Entry, RawEventStore, Direction, forward, reverse_order, Scans, Pairwise, Before, from_key,
  to_key, lookup,
}

-- A store of entries that is read without errors.
abbrev pub table : List Entry → RawEventStore
table entries = record {
  iterator_cf = λ k d. elim d [
    | forward ↦ map ok (select (from_key k) entries)
    | reverse_order ↦ map ok (reverse (select (to_key k) entries))
  ];
  get_cf = λ k. ok (lookup k entries);
}

pub table-Scans : (entries : List Entry) → Pairwise Before entries → Scans (table entries) entries
table-Scans entries h = record {
  ascending = h;
  scan_forward = λ k. refl;
  scan_reverse = λ k. refl;
  get_lookup = λ k. refl;
}

-- "src"
abbrev pub source : Bytes
source = 115 ∷ 114 ∷ 99 ∷ []

pub source-NoNul : NoNul source
source-NoNul = (ground arith, (ground arith, (ground arith, tt)))

abbrev pub key_at : ℕ → Bytes
key_at t = build (end_key (start_key builder source) (pos t))

abbrev pub three_entries : List Entry
three_entries = (key_at 10, 1 ∷ []) ∷ (key_at 20, 2 ∷ []) ∷ (key_at 300, 3 ∷ []) ∷ []

pub three_entries-Scans : Scans (table three_entries) three_entries
unfolding cmp end_key start_key to_be_bytes to_be
three_entries-Scans = table-Scans three_entries ((refl, (refl, tt)), ((refl, tt), (tt, tt)))

-- An event is its bytes.
abbrev pub deserialize : Bytes → Outcome Bytes
deserialize v = ok v

-- As `get_timestamp_from_key` does, it refuses keys of at most eight bytes.
abbrev pub with_timestamp : Bytes → Bytes → Outcome Bytes
with_timestamp key value =
    if ltb 8 (length key) then ok value else err "invalid database key length"
