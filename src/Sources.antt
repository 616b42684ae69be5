-- ===== src/Sources.antt =====
-- `check_sources_conn` of src/ingest.rs, the task that keeps the connected sources and the store of
-- sources (`SourceStore` of src/storage.rs), as a step relation on what it is notified of. The
-- clock is an input, and whether the store takes an entry is a parameter.
pub mod Maps
pub mod Recorded
pub mod Connection
use giganto.Prelude.{ℕ, ◌+◌, Bool, true, false, List, [], ◌∷◌, map, select, not, if◌then◌else◌}
use giganto.Bytes.{Bytes}
use giganto.Int64.{ℤ}
use giganto.Outcome.{Outcome, ok, err}
use giganto.Store.{equals}

-- A `HashMap` from names, without two entries of one name.
abbrev pub Map {ℓ} : Type ℓ → Type ℓ
Map V = List (Bytes × V)

abbrev pub remove {ℓ} : {V : Type ℓ} → Bytes → Map V → Map V
remove name m = select (λ e. not (equals e.0 name)) m

unfoldable pub insert {ℓ} : {V : Type ℓ} → Bytes → V → Map V → Map V
insert name v m = (name, v) ∷ remove name m

abbrev pub keys {ℓ} : {V : Type ℓ} → Map V → List Bytes
keys m = map (λ e. e.0) m

pub data ConnState : Type 0 where
  connected disconnected : ConnState

pub record SourceState : Type 0 where
  pub source_store : Map ℤ
  pub sources : Map ℤ
  -- The senders of the packet captures, by their names.
  pub packet_sources : Map ℕ
  pub notified : ℕ

-- What the task's `select!` wakes up for: its interval, at the time that `Utc::now` gives for each
-- of the sources, and a `SourceInfo`.
pub data Event : Type 0 where
  tick : (Bytes → ℤ) → Event
  source_info : Bytes → ℤ → ConnState → Bool → Event

module _ (stores : Map ℤ → Bytes → Bool) where
  -- `source_store.insert`, whose failure is only logged.
  unfoldable pub append_source : Bytes → ℤ → SourceState → SourceState
  append_source name timestamp s =
      if stores s.source_store name
      then record s { source_store = insert name timestamp s.source_store }
      else s

  unfoldable pub refresh : (Bytes → ℤ) → List Bytes → SourceState → SourceState
  unfolding append_source
  refresh now [] s = s
  refresh now (name ∷ names) s =
      let s' = append_source name (now name) s in
      refresh now names (record s' { sources = insert name (now name) s'.sources })

  unfoldable pub handle_event : Event → SourceState → SourceState
  unfolding refresh append_source insert
  handle_event (tick now) s = refresh now (keys s.sources) s
  handle_event (source_info name timestamp connected rep) s =
      let s' = append_source name timestamp s in
      if rep
      then s'
      else record s' { sources = insert name timestamp s'.sources; notified = s'.notified + 1 }
  handle_event (source_info name timestamp disconnected rep) s =
      let s' = append_source name timestamp s in
      if rep then s' else record s' {
        sources = remove name s'.sources;
        packet_sources = remove name s'.packet_sources;
        notified = s'.notified + 1;
      }

  unfoldable pub check_sources_conn : List Event → SourceState → SourceState
  unfolding handle_event
  check_sources_conn [] s = s
  check_sources_conn (e ∷ events) s = check_sources_conn events (handle_event e s)
