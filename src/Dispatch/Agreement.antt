-- ===== src/Dispatch/Agreement.antt =====
-- The stores that the ingest and the publish side choose for a kind of event agree, but for one
-- (src/ingest.rs, src/publish.rs).
use giganto.Prelude.{◌≡◌, refl, Bool, true, false, Option, none, some, String}
use giganto.Families.{Accessor}
use giganto.Dispatch.{
  RawEventKind, conn, file_create_time, file_create, statistics, op_log, packet, secu_log, other,
  ingest_handler, range_handler, raw_data_handler,
}

-- The kinds that are ingested and not published.
abbrev pub is_published : RawEventKind → Bool
is_published statistics = false
is_published op_log = false
is_published packet = false
is_published secu_log = false
is_published other = false
is_published _ = true

abbrev pub store_of : Option (Accessor × Option String) → Option Accessor
store_of none = none
store_of (some (a, p)) = some a

-- A request for raw data reads the store that events of the kind are ingested into, for every kind
-- but statistics, operation logs, packets and security logs, which have no answer.
pub raw_data_handler-ingest :
    (kind : RawEventKind)
    → raw_data_handler kind
      ≡ elim (is_published kind) [ true ↦ store_of (ingest_handler kind) | false ↦ none ]
unfolding raw_data_handler ingest_handler
raw_data_handler-ingest conn = refl
raw_data_handler-ingest _ = refl

abbrev pub range_store : Option (Accessor × Bool) → Option Accessor
range_store none = none
range_store (some (a, k)) = some a

-- The kind whose store a range request reads.
abbrev pub range_kind : RawEventKind → RawEventKind
range_kind file_create_time = file_create
range_kind kind = kind

-- A request for a range reads the store that events of the kind are ingested into, for every
-- published kind but one: a range of `FileCreateTime` is read from the store of `FileCreate`. The
-- other kinds have no answer.
pub range_handler-ingest :
    (kind : RawEventKind)
    → range_store (range_handler kind) ≡ elim (is_published kind) [
      | true ↦ store_of (ingest_handler (range_kind kind))
      | false ↦ none
    ]
unfolding range_handler ingest_handler
range_handler-ingest conn = refl
range_handler-ingest _ = refl
