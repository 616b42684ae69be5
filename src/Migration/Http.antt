-- ===== src/Migration/Http.antt =====
-- `migrate_0_10_to_0_12` of src/storage/migration.rs, which gives the HTTP events of an old database
-- the lists of file names and MIME types that they lack. bincode is a parameter, and so is whether
-- RocksDB takes a value.
use giganto.Prelude.{ℕ, List, [], ◌∷◌, Ordering}
use giganto.Bytes.{Bytes, cmp}
use giganto.Int64.{ℤ}
use giganto.Outcome.{Outcome, ok, err, ◌>>=◌}
use giganto.Store.{Entry}
use giganto.Filter.{IpAddr, Text}

pub record OldHttp : Type 0 where
  pub orig_addr : IpAddr
  pub orig_port : ℕ
  pub resp_addr : IpAddr
  pub resp_port : ℕ
  pub proto : ℕ
  pub last_time : ℤ
  pub method : Text
  pub host : Text
  pub uri : Text
  pub referrer : Text
  pub version : Text
  pub user_agent : Text
  pub request_len : ℕ
  pub response_len : ℕ
  pub status_code : ℕ
  pub status_msg : Text
  pub username : Text
  pub password : Text
  pub cookie : Text
  pub content_encoding : Text
  pub content_type : Text
  pub cache_control : Text

pub record NewHttp : Type 0 where
  pub orig_addr : IpAddr
  pub orig_port : ℕ
  pub resp_addr : IpAddr
  pub resp_port : ℕ
  pub proto : ℕ
  pub last_time : ℤ
  pub method : Text
  pub host : Text
  pub uri : Text
  pub referrer : Text
  pub version : Text
  pub user_agent : Text
  pub request_len : ℕ
  pub response_len : ℕ
  pub status_code : ℕ
  pub status_msg : Text
  pub username : Text
  pub password : Text
  pub cookie : Text
  pub content_encoding : Text
  pub content_type : Text
  pub cache_control : Text
  pub orig_filenames : List Text
  pub orig_mime_types : List Text
  pub resp_filenames : List Text
  pub resp_mime_types : List Text

-- "-"
abbrev pub dash : Text
dash = 45 ∷ []

-- `NewHttp::from`
unfoldable pub from_old : OldHttp → NewHttp
from_old input = record {
  orig_addr = input.orig_addr;
  orig_port = input.orig_port;
  resp_addr = input.resp_addr;
  resp_port = input.resp_port;
  proto = input.proto;
  last_time = input.last_time;
  method = input.method;
  host = input.host;
  uri = input.uri;
  referrer = input.referrer;
  version = input.version;
  user_agent = input.user_agent;
  request_len = input.request_len;
  response_len = input.response_len;
  status_code = input.status_code;
  status_msg = input.status_msg;
  username = input.username;
  password = input.password;
  cookie = input.cookie;
  content_encoding = input.content_encoding;
  content_type = input.content_type;
  cache_control = input.cache_control;
  orig_filenames = dash ∷ [];
  orig_mime_types = dash ∷ [];
  resp_filenames = dash ∷ [];
  resp_mime_types = dash ∷ [];
}

-- `put_cf`, on the entries in the order of their keys: the value of the key is replaced.
unfoldable pub put : Bytes → Bytes → List Entry → List Entry
put key value [] = (key, value) ∷ []
put key value (e ∷ entries) = elim (cmp key e.0) [
  | Ordering.lt ↦ (key, value) ∷ e ∷ entries
  | Ordering.eq ↦ (key, value) ∷ entries
  | Ordering.gt ↦ e ∷ put key value entries
]

-- What was returned, and the store behind it.
abbrev pub Ran : Type 0
Ran = Outcome (Unit {0}) × List Entry

module _ (deserialize : Bytes → Outcome OldHttp) (serialize : NewHttp → Outcome Bytes)
    (append : Bytes → Outcome (Unit {0})) where
  -- The value that an entry is given.
  unfoldable pub converted : Bytes → Outcome Bytes
  converted val = do old ← deserialize val; serialize (from_old old)

  -- The loop, over what the iterator yields: it reads the store as it was when it began.
  unfoldable pub migrate_0_10_to_0_12 : List (Outcome Entry) → List Entry → Ran
  migrate_0_10_to_0_12 [] store = (ok tt, store)
  migrate_0_10_to_0_12 (err e ∷ events) store = (err "Failed to read Database", store)
  migrate_0_10_to_0_12 (ok entry ∷ events) store = elim (converted entry.1) [
    | err e ↦ (err e, store)
    | ok new ↦ elim (append entry.0) [
      | err e ↦ (err e, store)
      | ok _ ↦ migrate_0_10_to_0_12 events (put entry.0 new store)
    ]
  ]
