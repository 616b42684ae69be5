-- ===== src/Config.antt =====
-- The queries of the configuration in src/graphql/status.rs: `giganto_config`,
-- `set_giganto_config` and the functions on TOML documents. The crate `toml_edit` is an interface,
-- the file its text.
pub mod Elements
pub mod Collected
pub mod Returned
pub mod Table
use text.Mathlib.Text.{◌==◌ as str_eq}
use giganto.Prelude.{
  Bool, true, false, Option, none, some, List, [], ◌∷◌, ◌++◌, ◌≡◌, String, if◌then◌else◌,
}
use giganto.Bytes.{Bytes}
use giganto.Outcome.{Outcome, ok, err, ◌>>=◌, ◌>>◌}

-- A table: its keys and items.
abbrev pub Entries : Type 0 → Type 0
Entries Item = List (String × Item)

abbrev pub entry {ℓ} : {Item : Type ℓ} → String → List (String × Item) → Option Item
entry key [] = none
entry key (e ∷ entries) = if str_eq e.0 key then some e.1 else entry key entries

-- What the code uses of `toml_edit`, and what that documents of it.
pub record Toml : Type 1 where
  pub Document : Type 0
  pub Item : Type 0
  pub Text : Type 0
  pub parse : Text → Outcome Document
  pub to_string : Document → Text
  -- the text of a file to which `writeln!` writes a text
  pub writeln : Text → Text
  pub get : String → Document → Option Item
  -- `doc[key] = item`
  pub set : String → Item → Document → Document
  -- an item that is a string, an array or an inline table
  pub value : Bytes → Item
  pub array : List Item → Item
  pub inline_table : Entries Item → Item
  pub as_str : Item → Option Bytes
  pub as_array : Item → Option (List Item)
  pub as_inline_table : Item → Option (Entries Item)
  pub as_value : Item → Option Item
  pub parse-to_string : (d : Document) → parse (writeln (to_string d)) ≡ ok d
  pub get-set : (k : String) (i : Item) (d : Document) → get k (set k i d) ≡ some i
  pub get-set_other :
      (k k' : String) (i : Item) (d : Document) → str_eq k' k ≡ false → get k (set k' i d) ≡ get k d
  pub as_str-value : (s : Bytes) → as_str (value s) ≡ some s
  pub as_value-value : (s : Bytes) → as_value (value s) ≡ some (value s)
  pub as_array-array : (l : List Item) → as_array (array l) ≡ some l
  pub as_inline_table-inline_table : (t : Entries Item) → as_inline_table (inline_table t) ≡ some t

pub record PeerList : Type 0 where
  pub address : Bytes
  pub host_name : Bytes

pub record GigantoConfig : Type 0 where
  pub ingest_address : Bytes
  pub publish_address : Bytes
  pub graphql_address : Bytes
  pub retention : Bytes
  pub max_open_files : Bytes
  pub max_mb_of_level_base : Bytes
  pub peer_address : Bytes
  pub peer_list : List PeerList

pub record UserConfig : Type 0 where
  pub ingest_address : Option Bytes
  pub publish_address : Option Bytes
  pub graphql_address : Option Bytes
  pub retention : Option Bytes
  pub max_open_files : Option Bytes
  pub max_mb_of_level_base : Option Bytes
  pub peer_address : Option Bytes
  pub peer_list : Option (List PeerList)

-- `context`, and `let Some(..) = .. else`
abbrev pub or_fail {ℓ} : {A : Type ℓ} → String → Option A → Outcome A
or_fail message none = err message
or_fail message (some a) = ok a

module _ (t : Toml) where
  open t use {
    Document, Item, Text, parse, to_string, writeln, get, set, value, array, inline_table, as_str,
    as_array, as_inline_table, as_value,
  }

  unfoldable pub parse_toml_element : String → Document → Outcome Bytes
  parse_toml_element key doc = do
    item ← or_fail "not found." (get key doc)
    or_fail "format is not available." (as_str item)

  unfoldable pub insert_toml_element : String → Document → Option Bytes → Document
  insert_toml_element key doc none = doc
  insert_toml_element key doc (some element) = set key (value element) doc

  unfoldable pub peer_table : PeerList → Outcome Item
  peer_table peer = do
    address ←
        or_fail "insert failed: peer's address/hostname option not found."
          (as_value (value peer.address))
    host_name ←
        or_fail "insert failed: peer's address/hostname option not found."
          (as_value (value peer.host_name))
    ok (inline_table (("address", address) ∷ ("host_name", host_name) ∷ []))

  unfoldable pub peer_tables : List PeerList → Outcome (List Item)
  unfolding peer_table
  peer_tables [] = ok []
  peer_tables (peer ∷ peers) = do
    table ← peer_table peer
    tables ← peer_tables peers
    ok (table ∷ tables)

  -- The array is cleared and filled in place.
  unfoldable pub insert_toml_peers : Document → Option (List PeerList) → Outcome Document
  unfolding peer_tables
  insert_toml_peers doc none = ok doc
  insert_toml_peers doc (some peer_list) = do
    item ← or_fail "insert failed: peers option not found" (get "peers" doc)
    old ← or_fail "insert failed: peers option not found" (as_array item)
    tables ← peer_tables peer_list
    ok (set "peers" (array tables) doc)

  -- The loop over the array; what is no inline table is passed over.
  unfoldable pub read_peers : List Item → Outcome (List PeerList)
  read_peers [] = ok []
  read_peers (peer ∷ peers) =
      let rest = read_peers peers in
      elim (as_inline_table peer) [
        | none ↦ rest
        | some peer_data ↦ (do
          address_val ← or_fail "Invalid address/hostname Value format" (entry "address" peer_data)
          host_name_val ←
              or_fail "Invalid address/hostname Value format" (entry "host_name" peer_data)
          address ← or_fail "Invalid address/hostname String format" (as_str address_val)
          host_name ← or_fail "Invalid address/hostname String format" (as_str host_name_val)
          later ← rest
          ok (record { address = address; host_name = host_name } ∷ later))
      ]

  unfoldable pub peers_of : Document → Outcome (List PeerList)
  unfolding read_peers
  peers_of doc = do
    item ← or_fail "peers not found" (get "peers" doc)
    peers_value ← or_fail "invalid peers format" (as_array item)
    read_peers peers_value

  -- The argument is the text of the file.
  unfoldable pub giganto_config : Text → Outcome GigantoConfig
  unfolding peers_of parse_toml_element
  giganto_config file = do
    doc ← parse file
    ingest_address ← parse_toml_element "ingest_address" doc
    publish_address ← parse_toml_element "publish_address" doc
    graphql_address ← parse_toml_element "graphql_address" doc
    retention ← parse_toml_element "retention" doc
    max_open_files ← parse_toml_element "max_open_files" doc
    max_mb_of_level_base ← parse_toml_element "max_mb_of_level_base" doc
    peer_address ← parse_toml_element "peer_address" doc
    peer_list ← peers_of doc
    ok (record {
      ingest_address = ingest_address;
      publish_address = publish_address;
      graphql_address = graphql_address;
      retention = retention;
      max_open_files = max_open_files;
      max_mb_of_level_base = max_mb_of_level_base;
      peer_address = peer_address;
      peer_list = peer_list;
    })

  -- The document with the elements of the mutation, before its peers.
  unfoldable pub insert_fields : UserConfig → Document → Document
  unfolding insert_toml_element
  insert_fields field doc =
      let doc1 = insert_toml_element "ingest_address" doc field.ingest_address in
      let doc2 = insert_toml_element "publish_address" doc1 field.publish_address in
      let doc3 = insert_toml_element "graphql_address" doc2 field.graphql_address in
      let doc4 = insert_toml_element "retention" doc3 field.retention in
      let doc5 = insert_toml_element "max_open_files" doc4 field.max_open_files in
      let doc6 = insert_toml_element "max_mb_of_level_base" doc5 field.max_mb_of_level_base in
      insert_toml_element "peer_address" doc6 field.peer_address

  -- The text of the file that is written, if that succeeds, upon which the program is told to
  -- start again.
  unfoldable pub set_giganto_config : UserConfig → Text → Outcome Text
  unfolding insert_fields insert_toml_peers
  set_giganto_config field file = do
    doc ← parse file
    doc' ← insert_toml_peers (insert_fields field doc) field.peer_list
    ok (writeln (to_string doc'))
