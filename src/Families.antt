-- ===== src/Families.antt =====
-- The column families of src/storage.rs: the lists of names that `Database::open` opens, the
-- accessors `conn_store` to `secu_log_store` and `sources_store`, and `retain_period_store`.
pub mod Laws
use text.Mathlib.Text.{◌==◌ as str_eq}
use giganto.Prelude.{
  Bool, true, false, not, Option, none, some, List, [], ◌∷◌, ◌++◌, any, String, ◌≡◌, if◌then◌else◌,
}

abbrev pub raw_data_column_family_names : List String
raw_data_column_family_names =
    "conn" ∷ "dns" ∷ "log" ∷ "http" ∷ "rdp" ∷ "periodic time series" ∷ "smtp" ∷ "ntlm" ∷ "kerberos"
    ∷ "ssh" ∷ "dce rpc" ∷ "statistics" ∷ "oplog" ∷ "packet" ∷ "ftp" ∷ "mqtt" ∷ "ldap" ∷ "tls"
    ∷ "smb" ∷ "nfs" ∷ "process create" ∷ "file create time" ∷ "network connect"
    ∷ "process terminate" ∷ "image load" ∷ "file create" ∷ "registry value set"
    ∷ "registry key rename" ∷ "file create stream hash" ∷ "pipe event" ∷ "dns query" ∷ "file delete"
    ∷ "process tamper" ∷ "file delete detected" ∷ "netflow5" ∷ "netflow9" ∷ "seculog" ∷ []

abbrev pub meta_data_column_family_names : List String
meta_data_column_family_names = "sources" ∷ []

-- Not a `source`+`timestamp` event.
abbrev pub non_standard_cfs : List String
non_standard_cfs =
    "log" ∷ "periodic time series" ∷ "statistics" ∷ "oplog" ∷ "packet" ∷ "seculog" ∷ []

-- The accessors, in the order of the names above; `sources` is `sources_store`.
pub data Accessor : Type 0 where
  conn dns log http rdp periodic_time_series smtp ntlm kerberos ssh dce_rpc statistics op_log packet
        ftp mqtt ldap tls smb nfs process_create file_create_time network_connect process_terminate
        image_load file_create registry_value_set registry_key_rename file_create_stream_hash
        pipe_event dns_query file_delete process_tamper file_delete_detected netflow5 netflow9
        secu_log sources :
      Accessor

-- The column family that an accessor asks for.
unfoldable pub cf_name : Accessor → String
cf_name conn = "conn"
cf_name dns = "dns"
cf_name log = "log"
cf_name http = "http"
cf_name rdp = "rdp"
cf_name periodic_time_series = "periodic time series"
cf_name smtp = "smtp"
cf_name ntlm = "ntlm"
cf_name kerberos = "kerberos"
cf_name ssh = "ssh"
cf_name dce_rpc = "dce rpc"
cf_name statistics = "statistics"
cf_name op_log = "oplog"
cf_name packet = "packet"
cf_name ftp = "ftp"
cf_name mqtt = "mqtt"
cf_name ldap = "ldap"
cf_name tls = "tls"
cf_name smb = "smb"
cf_name nfs = "nfs"
cf_name process_create = "process create"
cf_name file_create_time = "file create time"
cf_name network_connect = "network connect"
cf_name process_terminate = "process terminate"
cf_name image_load = "image load"
cf_name file_create = "file create"
cf_name registry_value_set = "registry value set"
cf_name registry_key_rename = "registry key rename"
cf_name file_create_stream_hash = "file create stream hash"
cf_name pipe_event = "pipe event"
cf_name dns_query = "dns query"
cf_name file_delete = "file delete"
cf_name process_tamper = "process tamper"
cf_name file_delete_detected = "file delete detected"
cf_name netflow5 = "netflow5"
cf_name netflow9 = "netflow9"
cf_name secu_log = "seculog"
cf_name sources = "sources"

unfoldable pub member : String → List String → Bool
member name = any (λ n. str_eq n name)

-- The families that `Database::open` opens.
abbrev pub opened : List String
opened = raw_data_column_family_names ++ meta_data_column_family_names

module _ (cf_handle : String → Option String) where
  -- RocksDB has a handle, here the name, for each family that was opened.
  abbrev pub HasHandles : Type 0
  HasHandles = (name : String) → member name opened ≡ true → cf_handle name ≡ some name

  -- An accessor fails where its family has no handle.
  unfoldable pub open_store : Accessor → Option String
  unfolding cf_name
  open_store a = cf_handle (cf_name a)

  -- The loop of `retain_period_store`, over the names that are left.
  unfoldable pub retain_stores : List String → Option (List String)
  retain_stores [] = some []
  retain_stores (store ∷ names) =
      let later = retain_stores names in
      if not (member store non_standard_cfs)
      then elim (cf_handle store) [
        | none ↦ none
        | some cf ↦ elim later [ none ↦ none | some cfs ↦ some (cf ∷ cfs) ]
      ]
      else later

  unfoldable pub retain_period_store : Option (List String)
  unfolding retain_stores
  retain_period_store = retain_stores raw_data_column_family_names
