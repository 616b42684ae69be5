-- ===== src/Events/Impls.antt =====
-- The `impl`s of `EventFilter` in src/ingest/implement.rs, one for each type of event.
use giganto.Prelude.{[], ◌∷◌, none, some}
use giganto.Filter.{Text}
use giganto.Events.{
  Flow, Http, OpLogLevel, info, warn, error, OpLog, Netflow9, SecuLog, EventFilter, nothing,
  of_flow,
}

abbrev pub conn : EventFilter Flow
conn = record { data_type = "conn"; fields = of_flow }

abbrev pub dns : EventFilter Flow
dns = record { data_type = "dns"; fields = of_flow }

abbrev pub rdp : EventFilter Flow
rdp = record { data_type = "rdp"; fields = of_flow }

abbrev pub smtp : EventFilter Flow
smtp = record { data_type = "smtp"; fields = of_flow }

abbrev pub ntlm : EventFilter Flow
ntlm = record { data_type = "ntlm"; fields = of_flow }

abbrev pub kerberos : EventFilter Flow
kerberos = record { data_type = "kerberos"; fields = of_flow }

abbrev pub ssh : EventFilter Flow
ssh = record { data_type = "ssh"; fields = of_flow }

abbrev pub dce_rpc : EventFilter Flow
dce_rpc = record { data_type = "dce rpc"; fields = of_flow }

abbrev pub ftp : EventFilter Flow
ftp = record { data_type = "ftp"; fields = of_flow }

abbrev pub mqtt : EventFilter Flow
mqtt = record { data_type = "mqtt"; fields = of_flow }

abbrev pub ldap : EventFilter Flow
ldap = record { data_type = "ldap"; fields = of_flow }

abbrev pub tls : EventFilter Flow
tls = record { data_type = "tls"; fields = of_flow }

abbrev pub smb : EventFilter Flow
smb = record { data_type = "smb"; fields = of_flow }

abbrev pub nfs : EventFilter Flow
nfs = record { data_type = "nfs"; fields = of_flow }

abbrev pub network_connection : EventFilter Flow
network_connection = record { data_type = "network connection"; fields = of_flow }

abbrev pub netflow5 : EventFilter Flow
netflow5 = record { data_type = "netflow v5"; fields = of_flow }

-- The text of an `Http` is all that its `to_string` prints.
abbrev pub http : EventFilter Http
http = record {
  data_type = "http";
  fields = λ e. record (of_flow e.flow) { text = some e.to_string };
}

abbrev pub log : {E : Type 0} → EventFilter E
log = record { data_type = "log"; fields = λ e. nothing }

abbrev pub periodic_time_series : {E : Type 0} → EventFilter E
periodic_time_series = record { data_type = "periodic time series"; fields = λ e. nothing }

abbrev pub packet : {E : Type 0} → EventFilter E
packet = record { data_type = "packet"; fields = λ e. nothing }

abbrev pub statistics : {E : Type 0} → EventFilter E
statistics = record { data_type = "statistics"; fields = λ e. nothing }

abbrev pub process_create : {E : Type 0} → EventFilter E
process_create = record { data_type = "process create"; fields = λ e. nothing }

abbrev pub file_creation_time_changed : {E : Type 0} → EventFilter E
file_creation_time_changed = record {
  data_type = "file creation time changed";
  fields = λ e. nothing;
}

abbrev pub process_terminated : {E : Type 0} → EventFilter E
process_terminated = record { data_type = "process terminated"; fields = λ e. nothing }

abbrev pub image_loaded : {E : Type 0} → EventFilter E
image_loaded = record { data_type = "image loaded"; fields = λ e. nothing }

abbrev pub file_create : {E : Type 0} → EventFilter E
file_create = record { data_type = "file create"; fields = λ e. nothing }

abbrev pub registry_value_set : {E : Type 0} → EventFilter E
registry_value_set = record { data_type = "registry value set"; fields = λ e. nothing }

abbrev pub registry_key_value_rename : {E : Type 0} → EventFilter E
registry_key_value_rename = record {
  data_type = "registry key value rename";
  fields = λ e. nothing;
}

abbrev pub file_create_stream_hash : {E : Type 0} → EventFilter E
file_create_stream_hash = record { data_type = "file create stream hash"; fields = λ e. nothing }

abbrev pub pipe_event : {E : Type 0} → EventFilter E
pipe_event = record { data_type = "pipe event"; fields = λ e. nothing }

abbrev pub dns_event : {E : Type 0} → EventFilter E
dns_event = record { data_type = "dns event"; fields = λ e. nothing }

abbrev pub file_delete : {E : Type 0} → EventFilter E
file_delete = record { data_type = "file delete"; fields = λ e. nothing }

abbrev pub process_tampering : {E : Type 0} → EventFilter E
process_tampering = record { data_type = "process tampering"; fields = λ e. nothing }

abbrev pub file_delete_detected : {E : Type 0} → EventFilter E
file_delete_detected = record { data_type = "file delete detected"; fields = λ e. nothing }

-- "Info", "Warn" and "Error".
abbrev pub level_text : OpLogLevel → Text
level_text info = 73 ∷ 110 ∷ 102 ∷ 111 ∷ []
level_text warn = 87 ∷ 97 ∷ 114 ∷ 110 ∷ []
level_text error = 69 ∷ 114 ∷ 114 ∷ 111 ∷ 114 ∷ []

abbrev pub op_log : EventFilter OpLog
op_log = record {
  data_type = "oplog";
  fields = λ e. record nothing {
    log_level = some (level_text e.log_level);
    log_contents = some e.contents;
  };
}

abbrev pub netflow9 : EventFilter Netflow9
netflow9 = record {
  data_type = "netflow v9";
  fields = λ e. record (of_flow e.flow) { log_contents = some e.contents };
}

abbrev pub secu_log : EventFilter SecuLog
secu_log = record {
  data_type = "security log";
  fields = λ e. record {
    orig_addr = e.orig_addr;
    resp_addr = e.resp_addr;
    orig_port = e.orig_port;
    resp_port = e.resp_port;
    log_level = none;
    log_contents = some e.contents;
    text = none;
    source = some e.source;
  };
}
