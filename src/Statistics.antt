-- ===== src/Statistics.antt =====
-- The kinds, the sums and the results of the statistics of the sources' traffic
-- (src/graphql/statistics.rs): `convert_to_stats_allowed_type`, and what a round of `gen_statistics`
-- makes of the values of one moment. `RawEventKind::from_str` is a parameter. A `HashMap` is read in
-- the order in which its keys came.
pub mod Query
pub mod Leftover
mod Selected
pub mod Ends
use giganto.Prelude.{
  ℕ, zero, suc, ◌+◌, ◌*◌, ◌-◌, ◌%◌, ◌^◌, Bool, true, false, Ordering, Option, none, some, List, [],
  ◌∷◌, ◌++◌, map, not, length, leb, drop, any, every, ◌==◌, is_empty, if◌then◌else◌, String,
}
use giganto.Bytes.{Bytes, cmp, to_be}
use giganto.Int64.{ℤ, from_be_bytes, cmp_ℤ}
use giganto.Outcome.{Outcome, ok, err, ◌>>=◌}
use giganto.Chrono.{Chrono}
use giganto.Dispatch.{RawEventKind}
use giganto.Export.File.{Ended, returned, panicked}
use giganto.Export.Statistics.{
  max_core_size, get_elem?, set, remove_at, items_left, timestamp_bytes, has_timestamp,
}
use giganto.Key.{
  StorageKeyBuilder, builder, start_key, mid_key, build, lower_closed_bound_end_key,
  upper_open_bound_end_key,
}
use giganto.Store.{RawEventStore, reverse_order}
use giganto.Iter.{boundary_iter, next_statistics}
use giganto.Page.{is_some}

-- `Statistics` of the client library: what is used of it.
pub record Statistics : Type 0 where
  pub period : ℕ
  pub stats : List (RawEventKind × ℕ × ℕ)

abbrev pub rank : RawEventKind → ℕ
rank RawEventKind.conn = 0
rank RawEventKind.dns = 1
rank RawEventKind.log = 2
rank RawEventKind.http = 3
rank RawEventKind.rdp = 4
rank RawEventKind.periodic_time_series = 5
rank RawEventKind.smtp = 6
rank RawEventKind.ntlm = 7
rank RawEventKind.kerberos = 8
rank RawEventKind.ssh = 9
rank RawEventKind.dce_rpc = 10
rank RawEventKind.statistics = 11
rank RawEventKind.op_log = 12
rank RawEventKind.packet = 13
rank RawEventKind.ftp = 14
rank RawEventKind.mqtt = 15
rank RawEventKind.ldap = 16
rank RawEventKind.tls = 17
rank RawEventKind.smb = 18
rank RawEventKind.nfs = 19
rank RawEventKind.process_create = 20
rank RawEventKind.file_create_time = 21
rank RawEventKind.network_connect = 22
rank RawEventKind.process_terminate = 23
rank RawEventKind.image_load = 24
rank RawEventKind.file_create = 25
rank RawEventKind.registry_value_set = 26
rank RawEventKind.registry_key_rename = 27
rank RawEventKind.file_create_stream_hash = 28
rank RawEventKind.pipe_event = 29
rank RawEventKind.dns_query = 30
rank RawEventKind.file_delete = 31
rank RawEventKind.process_tamper = 32
rank RawEventKind.file_delete_detected = 33
rank RawEventKind.netflow5 = 34
rank RawEventKind.netflow9 = 35
rank RawEventKind.secu_log = 36
rank RawEventKind.other = 37

abbrev pub same_kind : RawEventKind → RawEventKind → Bool
same_kind a b = rank a == rank b

abbrev pub contains_kind : RawEventKind → List RawEventKind → Bool
contains_kind kind kinds = any (same_kind kind) kinds

abbrev pub stats_allowed_kinds : List RawEventKind
stats_allowed_kinds =
    RawEventKind.conn ∷ RawEventKind.dns ∷ RawEventKind.rdp ∷ RawEventKind.http ∷ RawEventKind.smtp
    ∷ RawEventKind.ntlm ∷ RawEventKind.kerberos ∷ RawEventKind.ssh ∷ RawEventKind.dce_rpc
    ∷ RawEventKind.ftp ∷ RawEventKind.mqtt ∷ RawEventKind.ldap ∷ RawEventKind.tls ∷ RawEventKind.smb
    ∷ RawEventKind.nfs ∷ RawEventKind.statistics ∷ []

-- The first argument is `from_str(..).unwrap_or_default()`.
unfoldable pub convert_to_stats_allowed_type :
    (String → RawEventKind) → String → Outcome RawEventKind
convert_to_stats_allowed_type from_str input =
    if contains_kind (from_str input) stats_allowed_kinds
    then ok (from_str input)
    else err "not allowed RawEventKind string"

-- The kinds of a request, which stand for their `HashSet`.
unfoldable pub convert_all : (String → RawEventKind) → List String → Outcome (List RawEventKind)
unfolding convert_to_stats_allowed_type
convert_all from_str [] = ok []
convert_all from_str (p ∷ ps) = do
  kind ← convert_to_stats_allowed_type from_str p
  kinds ← convert_all from_str ps
  ok (kind ∷ kinds)

abbrev pub requested_kinds :
    (String → RawEventKind) → Option (List String) → Outcome (List RawEventKind)
requested_kinds from_str none = ok stats_allowed_kinds
requested_kinds from_str (some protocols) = convert_all from_str protocols

abbrev pub Item : Type 0
Item = Bytes × Statistics

-- `StatisticsIter`: the items that it reads.
abbrev pub StatisticsIter : Type 0
StatisticsIter = List (Outcome Item)

-- Counts and sizes by kind.
abbrev pub Totals : Type 0
Totals = List (RawEventKind × ℕ × ℕ)

-- A sum of two `u64`.
abbrev pub add_u64 : ℕ → ℕ → ℕ
add_u64 a b = (a + b) % 2 ^ 64

-- `entry(..).and_modify(..).or_insert(..)`
abbrev pub add_stat : RawEventKind × ℕ × ℕ → Totals → Totals
add_stat s [] = s ∷ []
add_stat s (t ∷ totals) =
    let later = add_stat s totals in
    if same_kind s.0 t.0 then (t.0, add_u64 t.1 s.1, add_u64 t.2 s.2) ∷ totals else t ∷ later

abbrev pub add_allowed : List RawEventKind → List (RawEventKind × ℕ × ℕ) → Totals → Totals
add_allowed kinds [] totals = totals
add_allowed kinds (s ∷ stats) totals =
    if contains_kind s.0 kinds
    then add_allowed kinds stats (add_stat s totals)
    else add_allowed kinds stats totals

-- `max_by_key` of the timestamps' bytes: the last of the greatest.
unfoldable pub latest_of : Item → List Item → Item
latest_of best [] = best
latest_of best (item ∷ items) = elim (cmp (timestamp_bytes item.0) (timestamp_bytes best.0)) [
  | Ordering.lt ↦ latest_of best items
  | _ ↦ latest_of item items
]

abbrev pub timestamp_of : Bytes → ℤ
timestamp_of key = from_be_bytes (timestamp_bytes key)

abbrev pub at_time : ℤ → Item → Bool
at_time timestamp item = elim (cmp_ℤ timestamp (timestamp_of item.0)) [
  | Ordering.eq ↦ true
  | _ ↦ false
]

-- The sums of the values with a timestamp, and their indices, the last one first.
unfoldable pub collect : List RawEventKind → ℤ → ℕ → List Item → Totals → List ℕ → Totals × List ℕ
collect kinds timestamp index [] totals next_candidate = (totals, next_candidate)
collect kinds timestamp index (item ∷ items) totals next_candidate =
    if at_time timestamp item
    then collect kinds timestamp (suc index) items (add_allowed kinds item.1.stats totals)
        (index ∷ next_candidate)
    else collect kinds timestamp (suc index) items totals next_candidate

-- The protocol is the kind, which is printed.
pub record StatisticsDetail (F : Type 0) : Type 0 where
  pub protocol : RawEventKind
  pub bps : Option F
  pub pps : Option F
  pub eps : Option F

pub record StatisticsInfo (F : Type 0) : Type 0 where
  pub timestamp : ℤ
  pub detail : List (StatisticsDetail F)

pub record StatisticsRawEvent (F : Type 0) : Type 0 where
  pub source : Bytes
  pub stats : List (StatisticsInfo F)

abbrev pub byte_to_bit : ℕ
byte_to_bit = 8
