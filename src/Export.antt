-- ===== src/Export.antt =====
-- The export of records as text (src/graphql/export.rs): the filter of a request, its validation and
-- the choice of the store. The task that exports a store is in the children.
pub mod Protocols
pub mod File
pub mod Statistics
use text.Mathlib.Text.{◌==◌ as str_eq}
use giganto.Prelude.{
  Bool, true, false, ◌||◌, ◌&&◌, not, Option, none, some, List, [], ◌∷◌, ◌++◌, String,
  if◌then◌else◌,
}
use giganto.Bytes.{Bytes}
use giganto.Outcome.{Outcome, ok, err, ◌>>=◌, ◌>>◌}
use giganto.Chrono.{Chrono}
use giganto.Families.{Accessor, member}
use giganto.Filter.{Text, IpRange, PortRange, Fields, check_network, IpAddr}
use giganto.Page.{is_some}

pub record ExportFilter (c : Chrono) : Type 0 where
  pub protocol : String
  pub source_id : Text
  pub agent_name : Option Text
  pub agent_id : Option Text
  pub kind : Option Text
  pub start : Option (c.DateTime)
  pub end : Option (c.DateTime)
  pub orig_addr : Option IpRange
  pub resp_addr : Option IpRange
  pub orig_port : Option PortRange
  pub resp_port : Option PortRange

-- The names of the protocols that have no addresses.
abbrev pub non_network : List String
non_network =
    "log" ∷ "periodic time series" ∷ "op_log" ∷ "statistics" ∷ "sysmon" ∷ "process create"
    ∷ "file create time" ∷ "network connect" ∷ "process terminate" ∷ "image load" ∷ "file create"
    ∷ "registry value set" ∷ "registry key rename" ∷ "file create stream hash" ∷ "pipe event"
    ∷ "dns query" ∷ "file delete" ∷ "process tamper" ∷ "file delete detected" ∷ "secu_log" ∷ []

-- The arms of the `match` on the protocol, and the stores that they export.
abbrev pub protocols : List (String × Accessor)
protocols =
    ("conn", Accessor.conn)
    ∷ ("dns", Accessor.dns)
    ∷ ("http", Accessor.http)
    ∷ ("log", Accessor.log)
    ∷ ("rdp", Accessor.rdp)
    ∷ ("smtp", Accessor.smtp)
    ∷ ("periodic time series", Accessor.periodic_time_series)
    ∷ ("ntlm", Accessor.ntlm)
    ∷ ("kerberos", Accessor.kerberos)
    ∷ ("ssh", Accessor.ssh)
    ∷ ("dce rpc", Accessor.dce_rpc)
    ∷ ("op_log", Accessor.op_log)
    ∷ ("ftp", Accessor.ftp)
    ∷ ("mqtt", Accessor.mqtt)
    ∷ ("ldap", Accessor.ldap)
    ∷ ("tls", Accessor.tls)
    ∷ ("smb", Accessor.smb)
    ∷ ("nfs", Accessor.nfs)
    ∷ ("statistics", Accessor.statistics)
    ∷ ("process_create", Accessor.process_create)
    ∷ ("file_create_time", Accessor.file_create_time)
    ∷ ("network_connect", Accessor.network_connect)
    ∷ ("process_terminate", Accessor.process_terminate)
    ∷ ("image_load", Accessor.image_load)
    ∷ ("file_create", Accessor.file_create)
    ∷ ("registry_value_set", Accessor.registry_value_set)
    ∷ ("registry_key_rename", Accessor.registry_key_rename)
    ∷ ("file_create_stream_hash", Accessor.file_create_stream_hash)
    ∷ ("pipe_event", Accessor.pipe_event)
    ∷ ("dns_query", Accessor.dns_query)
    ∷ ("file_delete", Accessor.file_delete)
    ∷ ("process_tamper", Accessor.process_tamper)
    ∷ ("file_delete_detected", Accessor.file_delete_detected)
    ∷ ("netflow5", Accessor.netflow5)
    ∷ ("netflow9", Accessor.netflow9)
    ∷ ("secu_log", Accessor.secu_log)
    ∷ []

unfoldable pub find_protocol : String → List (String × Accessor) → Option Accessor
find_protocol name [] = none
find_protocol name (row ∷ rows) =
    let later = find_protocol name rows in if str_eq row.0 name then some row.1 else later

-- The store that the task exports.
unfoldable pub export_by_protocol : String → Outcome Accessor
unfolding find_protocol
export_by_protocol protocol = elim (find_protocol protocol protocols) [
  | none ↦ err "Unknown protocol"
  | some store ↦ ok store
]

module _ (c : Chrono) where
  -- `ExportFilter::get_mid_key`
  unfoldable pub get_mid_key : ExportFilter c → Option Bytes
  get_mid_key filter = elim filter.kind [
    | some kind ↦ some kind
    | none ↦ elim filter.agent_name [
      | none ↦ none
      | some agent_name ↦ elim filter.agent_id [
        | none ↦ some agent_name
        | some agent_id ↦ some ((agent_name ++ 0 ∷ []) ++ agent_id)
      ]
    ]
  ]

  -- `ExportFilter::check`
  unfoldable pub check_export : (Text → Outcome IpAddr) → ExportFilter c → Fields → Outcome Bool
  unfolding check_network
  check_export parse filter f =
      check_network parse filter.orig_addr filter.resp_addr filter.orig_port filter.resp_port f

  abbrev pub has_address : ExportFilter c → Bool
  has_address filter =
      is_some filter.orig_addr
      || is_some filter.resp_addr
      || is_some filter.orig_port
      || is_some filter.resp_port

  abbrev pub has_middle : ExportFilter c → Bool
  has_middle filter = is_some filter.kind || is_some filter.agent_name || is_some filter.agent_id

  unfoldable pub validate : String → ExportFilter c → Outcome (Unit {0})
  validate export_type filter = do
    (if member filter.protocol non_network
        then (if has_address filter then err "Invalid ip/port input" else ok tt)
        else (if has_middle filter then err "Invalid kind/agent_name/agent_id input" else ok tt))
    (if str_eq export_type "csv" || str_eq export_type "json"
        then ok tt
        else err "Invalid export file format")

  -- `export`: the store whose records the task that it starts writes. The last argument is the
  -- result of `create_dir_all`, where it is called.
  unfoldable pub export : String → ExportFilter c → Outcome (Unit {0}) → Outcome Accessor
  unfolding validate export_by_protocol
  export export_type filter create_dir_all = do
    validate export_type filter
    create_dir_all
    export_by_protocol filter.protocol
