-- ===== src/Dispatch/Streams.antt =====
-- The store of a stream and the store of the events that it is about (src/publish.rs,
-- src/ingest.rs).
use giganto.Prelude.{◌≡◌, refl, Option, none, some}
use giganto.Dispatch.{RawEventKind, RequestStreamRecord, ingest_handler, stream_handler}
use giganto.Dispatch.Agreement.{store_of}

-- The kind of the events of a stream; packet captures are not events.
abbrev pub streamed_kind : RequestStreamRecord → Option RawEventKind
streamed_kind RequestStreamRecord.conn = some RawEventKind.conn
streamed_kind RequestStreamRecord.dns = some RawEventKind.dns
streamed_kind RequestStreamRecord.rdp = some RawEventKind.rdp
streamed_kind RequestStreamRecord.http = some RawEventKind.http
streamed_kind RequestStreamRecord.smtp = some RawEventKind.smtp
streamed_kind RequestStreamRecord.log = some RawEventKind.log
streamed_kind RequestStreamRecord.ntlm = some RawEventKind.ntlm
streamed_kind RequestStreamRecord.kerberos = some RawEventKind.kerberos
streamed_kind RequestStreamRecord.ssh = some RawEventKind.ssh
streamed_kind RequestStreamRecord.dce_rpc = some RawEventKind.dce_rpc
streamed_kind RequestStreamRecord.ftp = some RawEventKind.ftp
streamed_kind RequestStreamRecord.mqtt = some RawEventKind.mqtt
streamed_kind RequestStreamRecord.ldap = some RawEventKind.ldap
streamed_kind RequestStreamRecord.tls = some RawEventKind.tls
streamed_kind RequestStreamRecord.smb = some RawEventKind.smb
streamed_kind RequestStreamRecord.nfs = some RawEventKind.nfs
streamed_kind RequestStreamRecord.file_create = some RawEventKind.file_create
streamed_kind RequestStreamRecord.file_delete = some RawEventKind.file_delete
streamed_kind RequestStreamRecord.pcap = none

-- Every stream but that of packet captures reads the store that the events of its kind are ingested
-- into; packet captures read none.
pub stream_handler-ingest :
    (record_type : RequestStreamRecord)
    → stream_handler record_type ≡ elim (streamed_kind record_type) [
      | none ↦ none
      | some kind ↦ store_of (ingest_handler kind)
    ]
unfolding stream_handler ingest_handler
stream_handler-ingest RequestStreamRecord.conn = refl
stream_handler-ingest _ = refl
