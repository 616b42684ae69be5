-- ===== src/Dispatch.antt =====
-- Which store serves which kind of event: the `match` of `handle_request` in src/ingest.rs, those
-- of `handle_request` and `process_stream` in src/publish.rs. `RawEventKind` and
-- `RequestStreamRecord` are enums of the client library: the constructors are the variants that the
-- code names, and `other` any further one.
pub mod Agreement
pub mod Streams
use giganto.Prelude.{Bool, true, false, Option, none, some, String}
use giganto.Families.{Accessor}

pub data RawEventKind : Type 0 where
  conn dns log http rdp periodic_time_series smtp ntlm kerberos ssh dce_rpc statistics op_log packet
        ftp mqtt ldap tls smb nfs process_create file_create_time network_connect process_terminate
        image_load file_create registry_value_set registry_key_rename file_create_stream_hash
        pipe_event dns_query file_delete process_tamper file_delete_detected netflow5 netflow9
        secu_log other :
      RawEventKind

-- What `handle_data` is called with: the store, and the protocol of the `NetworkKey`, if any.
abbrev pub Handler : Type 0
Handler = Option (Accessor × Option String)

-- The arms of `ingest::handle_request` from `Conn` to `Nfs`, the others in `endpoint_handler`.
unfoldable pub network_handler : RawEventKind → Handler
network_handler conn = some (Accessor.conn, some "conn")
network_handler dns = some (Accessor.dns, some "dns")
network_handler log = some (Accessor.log, some "log")
network_handler http = some (Accessor.http, some "http")
network_handler rdp = some (Accessor.rdp, some "rdp")
network_handler periodic_time_series = some (Accessor.periodic_time_series, none)
network_handler smtp = some (Accessor.smtp, some "smtp")
network_handler ntlm = some (Accessor.ntlm, some "ntlm")
network_handler kerberos = some (Accessor.kerberos, some "kerberos")
network_handler ssh = some (Accessor.ssh, some "ssh")
network_handler dce_rpc = some (Accessor.dce_rpc, some "dce rpc")
network_handler statistics = some (Accessor.statistics, none)
network_handler op_log = some (Accessor.op_log, none)
network_handler packet = some (Accessor.packet, none)
network_handler ftp = some (Accessor.ftp, some "ftp")
network_handler mqtt = some (Accessor.mqtt, some "mqtt")
network_handler ldap = some (Accessor.ldap, some "ldap")
network_handler tls = some (Accessor.tls, some "tls")
network_handler smb = some (Accessor.smb, some "smb")
network_handler nfs = some (Accessor.nfs, some "nfs")
network_handler _ = none

-- The arms from `ProcessCreate` on; the last is `_`, which only logs an error.
unfoldable pub endpoint_handler : RawEventKind → Handler
endpoint_handler process_create = some (Accessor.process_create, none)
endpoint_handler file_create_time = some (Accessor.file_create_time, none)
endpoint_handler network_connect = some (Accessor.network_connect, none)
endpoint_handler process_terminate = some (Accessor.process_terminate, none)
endpoint_handler image_load = some (Accessor.image_load, none)
endpoint_handler file_create = some (Accessor.file_create, none)
endpoint_handler registry_value_set = some (Accessor.registry_value_set, none)
endpoint_handler registry_key_rename = some (Accessor.registry_key_rename, none)
endpoint_handler file_create_stream_hash = some (Accessor.file_create_stream_hash, none)
endpoint_handler pipe_event = some (Accessor.pipe_event, none)
endpoint_handler dns_query = some (Accessor.dns_query, none)
endpoint_handler file_delete = some (Accessor.file_delete, none)
endpoint_handler process_tamper = some (Accessor.process_tamper, none)
endpoint_handler file_delete_detected = some (Accessor.file_delete_detected, none)
endpoint_handler netflow5 = some (Accessor.netflow5, none)
endpoint_handler netflow9 = some (Accessor.netflow9, none)
endpoint_handler secu_log = some (Accessor.secu_log, none)
endpoint_handler _ = none

unfoldable pub ingest_handler : RawEventKind → Handler
unfolding network_handler endpoint_handler
ingest_handler kind = elim (network_handler kind) [ some h ↦ some h | none ↦ endpoint_handler kind ]

-- The store of `MessageCode::ReqRange`, and whether the kind is part of the key (`availed_kind`).
unfoldable pub range_handler : RawEventKind → Option (Accessor × Bool)
range_handler conn = some (Accessor.conn, false)
range_handler dns = some (Accessor.dns, false)
range_handler rdp = some (Accessor.rdp, false)
range_handler http = some (Accessor.http, false)
range_handler smtp = some (Accessor.smtp, false)
range_handler log = some (Accessor.log, true)
range_handler ntlm = some (Accessor.ntlm, false)
range_handler kerberos = some (Accessor.kerberos, false)
range_handler ssh = some (Accessor.ssh, false)
range_handler dce_rpc = some (Accessor.dce_rpc, false)
range_handler ftp = some (Accessor.ftp, false)
range_handler mqtt = some (Accessor.mqtt, false)
range_handler periodic_time_series = some (Accessor.periodic_time_series, false)
range_handler ldap = some (Accessor.ldap, false)
range_handler tls = some (Accessor.tls, false)
range_handler smb = some (Accessor.smb, false)
range_handler nfs = some (Accessor.nfs, false)
range_handler process_create = some (Accessor.process_create, false)
range_handler file_create_time = some (Accessor.file_create, false)
range_handler network_connect = some (Accessor.network_connect, false)
range_handler process_terminate = some (Accessor.process_terminate, false)
range_handler image_load = some (Accessor.image_load, false)
range_handler file_create = some (Accessor.file_create, false)
range_handler registry_value_set = some (Accessor.registry_value_set, false)
range_handler registry_key_rename = some (Accessor.registry_key_rename, false)
range_handler file_create_stream_hash = some (Accessor.file_create_stream_hash, false)
range_handler pipe_event = some (Accessor.pipe_event, false)
range_handler dns_query = some (Accessor.dns_query, false)
range_handler file_delete = some (Accessor.file_delete, false)
range_handler process_tamper = some (Accessor.process_tamper, false)
range_handler file_delete_detected = some (Accessor.file_delete_detected, false)
range_handler netflow5 = some (Accessor.netflow5, false)
range_handler netflow9 = some (Accessor.netflow9, false)
range_handler _ = none

-- The store of `MessageCode::RawData`.
unfoldable pub raw_data_handler : RawEventKind → Option Accessor
raw_data_handler conn = some Accessor.conn
raw_data_handler dns = some Accessor.dns
raw_data_handler rdp = some Accessor.rdp
raw_data_handler http = some Accessor.http
raw_data_handler smtp = some Accessor.smtp
raw_data_handler log = some Accessor.log
raw_data_handler ntlm = some Accessor.ntlm
raw_data_handler kerberos = some Accessor.kerberos
raw_data_handler ssh = some Accessor.ssh
raw_data_handler dce_rpc = some Accessor.dce_rpc
raw_data_handler ftp = some Accessor.ftp
raw_data_handler mqtt = some Accessor.mqtt
raw_data_handler periodic_time_series = some Accessor.periodic_time_series
raw_data_handler ldap = some Accessor.ldap
raw_data_handler tls = some Accessor.tls
raw_data_handler smb = some Accessor.smb
raw_data_handler nfs = some Accessor.nfs
raw_data_handler process_create = some Accessor.process_create
raw_data_handler file_create_time = some Accessor.file_create_time
raw_data_handler network_connect = some Accessor.network_connect
raw_data_handler process_terminate = some Accessor.process_terminate
raw_data_handler image_load = some Accessor.image_load
raw_data_handler file_create = some Accessor.file_create
raw_data_handler registry_value_set = some Accessor.registry_value_set
raw_data_handler registry_key_rename = some Accessor.registry_key_rename
raw_data_handler file_create_stream_hash = some Accessor.file_create_stream_hash
raw_data_handler pipe_event = some Accessor.pipe_event
raw_data_handler dns_query = some Accessor.dns_query
raw_data_handler file_delete = some Accessor.file_delete
raw_data_handler process_tamper = some Accessor.process_tamper
raw_data_handler file_delete_detected = some Accessor.file_delete_detected
raw_data_handler netflow5 = some Accessor.netflow5
raw_data_handler netflow9 = some Accessor.netflow9
raw_data_handler _ = none

pub data RequestStreamRecord : Type 0 where
  conn dns rdp http log smtp ntlm kerberos ssh dce_rpc ftp mqtt ldap tls smb nfs file_create
        file_delete pcap :
      RequestStreamRecord

-- The store of `process_stream`.
unfoldable pub stream_handler : RequestStreamRecord → Option Accessor
stream_handler conn = some Accessor.conn
stream_handler dns = some Accessor.dns
stream_handler rdp = some Accessor.rdp
stream_handler http = some Accessor.http
stream_handler log = some Accessor.log
stream_handler smtp = some Accessor.smtp
stream_handler ntlm = some Accessor.ntlm
stream_handler kerberos = some Accessor.kerberos
stream_handler ssh = some Accessor.ssh
stream_handler dce_rpc = some Accessor.dce_rpc
stream_handler ftp = some Accessor.ftp
stream_handler mqtt = some Accessor.mqtt
stream_handler ldap = some Accessor.ldap
stream_handler tls = some Accessor.tls
stream_handler smb = some Accessor.smb
stream_handler nfs = some Accessor.nfs
stream_handler file_create = some Accessor.file_create
stream_handler file_delete = some Accessor.file_delete
stream_handler pcap = none
