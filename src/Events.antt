-- ===== src/Events.antt =====
-- What the filters read of an event: `EventFilter` of src/ingest/implement.rs and its `impl` for each
-- type of event. Of the client library's types there is what the code uses: the addresses and ports
-- (`Flow`), whatever the fields are called, the text that `to_string` gives of an `Http`, and the
-- level, the contents and the source of logs. An `impl` that uses nothing is one for any type.
pub mod Impls
pub mod Admitted
use giganto.Prelude.{ℕ, Option, none, some, String}
use giganto.Filter.{Text, IpAddr, Fields}

-- The types for which all four of the address and port methods are `Some`.
pub record Flow : Type 0 where
  pub orig_addr : IpAddr
  pub resp_addr : IpAddr
  pub orig_port : ℕ
  pub resp_port : ℕ

pub record Http : Type 0 where
  pub flow : Flow
  pub to_string : Text

pub data OpLogLevel : Type 0 where
  info warn error : OpLogLevel

pub record OpLog : Type 0 where
  pub log_level : OpLogLevel
  pub contents : Text

pub record Netflow9 : Type 0 where
  pub flow : Flow
  pub contents : Text

pub record SecuLog : Type 0 where
  pub orig_addr : Option IpAddr
  pub resp_addr : Option IpAddr
  pub orig_port : Option ℕ
  pub resp_port : Option ℕ
  pub contents : Text
  pub source : Text

-- The trait: `fields` are the methods that `RawEventFilter::check` is called with. `timestamp`,
-- which is `None` for every type, has no caller.
pub record EventFilter (E : Type 0) : Type 0 where
  pub data_type : String
  pub fields : E → Fields

-- The methods that have a default, and `None` where an `impl` says so.
abbrev pub nothing : Fields
nothing = record {
  orig_addr = none;
  resp_addr = none;
  orig_port = none;
  resp_port = none;
  log_level = none;
  log_contents = none;
  text = none;
  source = none;
}

abbrev pub of_flow : Flow → Fields
of_flow f = record nothing {
  orig_addr = some f.orig_addr;
  resp_addr = some f.resp_addr;
  orig_port = some f.orig_port;
  resp_port = some f.resp_port;
}
