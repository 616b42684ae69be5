-- ===== src/Search/Queries.antt =====
-- Which store a GraphQL query of one kind of event reads: the `*_raw_events` and `search_*` queries
-- of src/graphql/network.rs, the `*_events` and `search_*` queries of src/graphql/sysmon.rs, and the
-- queries of src/graphql/log.rs, src/graphql/packet.rs, src/graphql/security.rs and
-- src/graphql/timeseries.rs. A kind that a file has no query for has no store.
use giganto.Prelude.{◌≡◌, refl, Bool, true, false, Option, none, some}
use giganto.Families.{Accessor}
use giganto.Dispatch.{
  RawEventKind, conn, dns, http, rdp, smtp, ntlm, kerberos, ssh, dce_rpc, ftp, mqtt, ldap, tls, smb,
  nfs, netflow5, netflow9, process_create, file_create_time, network_connect, process_terminate,
  image_load, file_create, registry_value_set, registry_key_rename, file_create_stream_hash,
  pipe_event, dns_query, file_delete, process_tamper, file_delete_detected, log, op_log, packet,
  secu_log, periodic_time_series, statistics, other, ingest_handler,
}
use giganto.Dispatch.Agreement.{store_of}

unfoldable pub network_query : RawEventKind → Option Accessor
network_query conn = some Accessor.conn
network_query dns = some Accessor.dns
network_query http = some Accessor.http
network_query rdp = some Accessor.rdp
network_query smtp = some Accessor.smtp
network_query ntlm = some Accessor.ntlm
network_query kerberos = some Accessor.kerberos
network_query ssh = some Accessor.ssh
network_query dce_rpc = some Accessor.dce_rpc
network_query ftp = some Accessor.ftp
network_query mqtt = some Accessor.mqtt
network_query ldap = some Accessor.ldap
network_query tls = some Accessor.tls
network_query smb = some Accessor.smb
network_query nfs = some Accessor.nfs
network_query netflow5 = some Accessor.netflow5
network_query netflow9 = some Accessor.netflow9
network_query _ = none

unfoldable pub sysmon_query : RawEventKind → Option Accessor
sysmon_query process_create = some Accessor.process_create
sysmon_query file_create_time = some Accessor.file_create_time
sysmon_query network_connect = some Accessor.network_connect
sysmon_query process_terminate = some Accessor.process_terminate
sysmon_query image_load = some Accessor.image_load
sysmon_query file_create = some Accessor.file_create
sysmon_query registry_value_set = some Accessor.registry_value_set
sysmon_query registry_key_rename = some Accessor.registry_key_rename
sysmon_query file_create_stream_hash = some Accessor.file_create_stream_hash
sysmon_query pipe_event = some Accessor.pipe_event
sysmon_query dns_query = some Accessor.dns_query
sysmon_query file_delete = some Accessor.file_delete
sysmon_query process_tamper = some Accessor.process_tamper
sysmon_query file_delete_detected = some Accessor.file_delete_detected
sysmon_query _ = none

unfoldable pub network_search : RawEventKind → Option Accessor
network_search conn = some Accessor.conn
network_search dns = some Accessor.dns
network_search http = some Accessor.http
network_search rdp = some Accessor.rdp
network_search smtp = some Accessor.smtp
network_search ntlm = some Accessor.ntlm
network_search kerberos = some Accessor.kerberos
network_search ssh = some Accessor.ssh
network_search dce_rpc = some Accessor.dce_rpc
network_search ftp = some Accessor.ftp
network_search mqtt = some Accessor.mqtt
network_search ldap = some Accessor.ldap
network_search tls = some Accessor.tls
network_search smb = some Accessor.smb
network_search nfs = some Accessor.nfs
network_search netflow5 = some Accessor.netflow5
network_search netflow9 = some Accessor.netflow9
network_search _ = none

unfoldable pub sysmon_search : RawEventKind → Option Accessor
sysmon_search process_create = some Accessor.process_create
sysmon_search file_create_time = some Accessor.file_create_time
sysmon_search network_connect = some Accessor.network_connect
sysmon_search process_terminate = some Accessor.process_terminate
sysmon_search image_load = some Accessor.image_load
sysmon_search file_create = some Accessor.file_create
sysmon_search registry_value_set = some Accessor.registry_value_set
sysmon_search registry_key_rename = some Accessor.registry_key_rename
sysmon_search file_create_stream_hash = some Accessor.file_create_stream_hash
sysmon_search pipe_event = some Accessor.pipe_event
sysmon_search dns_query = some Accessor.dns_query
sysmon_search file_delete = some Accessor.file_delete
sysmon_search process_tamper = some Accessor.process_tamper
sysmon_search file_delete_detected = some Accessor.file_delete_detected
sysmon_search _ = none

-- `log_raw_events`, `op_log_raw_events`, `packets`, `secu_log_raw_events`, `periodic_time_series`
unfoldable pub other_query : RawEventKind → Option Accessor
other_query log = some Accessor.log
other_query op_log = some Accessor.op_log
other_query packet = some Accessor.packet
other_query secu_log = some Accessor.secu_log
other_query periodic_time_series = some Accessor.periodic_time_series
other_query _ = none

abbrev pub or_else : Option Accessor → Option Accessor → Option Accessor
or_else none b = b
or_else (some a) b = some a

-- The store of a query for pages of events.
unfoldable pub query_store : RawEventKind → Option Accessor
unfolding network_query sysmon_query other_query
query_store kind = or_else (network_query kind) (or_else (sysmon_query kind) (other_query kind))

-- The store of a search by timestamps.
unfoldable pub search_store : RawEventKind → Option Accessor
unfolding network_search sysmon_search
search_store kind = or_else (network_search kind) (sysmon_search kind)

-- The kinds that are read by pages.
abbrev pub is_queried : RawEventKind → Bool
is_queried statistics = false
is_queried other = false
is_queried _ = true

-- The kinds that are searched: those whose key is the source and the timestamp.
abbrev pub is_searched : RawEventKind → Bool
is_searched log = false
is_searched op_log = false
is_searched packet = false
is_searched secu_log = false
is_searched periodic_time_series = false
is_searched statistics = false
is_searched other = false
is_searched _ = true

-- Every kind of event but statistics has a query for pages that reads the store into which events
-- of the kind are ingested; every kind but those whose keys have a middle part, the time series and
-- the statistics has a search in that same store.
pub query_store-ingest :
    (kind : RawEventKind)
    → (query_store kind
        ≡ elim (is_queried kind) [ true ↦ store_of (ingest_handler kind) | false ↦ none ])
      × (search_store kind
          ≡ elim (is_searched kind) [ true ↦ store_of (ingest_handler kind) | false ↦ none ])
unfolding query_store search_store ingest_handler
query_store-ingest conn = (refl, refl)
query_store-ingest _ = (refl, refl)
