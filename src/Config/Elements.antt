-- ===== src/Config/Elements.antt =====
-- The elements and the peers of a configuration, after some of them were inserted
-- (src/graphql/status.rs).
use text.Mathlib.Text.{◌==◌ as str_eq}
use giganto.Prelude.{◌≡◌, refl, ◌∙◌, false, Option, none, some, List, [], ◌∷◌, ◌++◌, String, All}
use giganto.Bytes.{Bytes}
use giganto.Outcome.{ok, bind_ok}
use giganto.Config.{
  Toml, PeerList, or_fail, parse_toml_element, insert_toml_element, peer_table, peer_tables,
  insert_toml_peers, read_peers, peers_of,
}

abbrev pub given {ℓ} : {A : Type ℓ} → Option A → A → A
given none old = old
given (some new) old = new

-- Elements and what is inserted for them.
abbrev pub Fields : Type 0
Fields = List (String × Option Bytes)

-- None of them is the key.
abbrev pub Without : String → Fields → Type 0
Without key fields = All (λ f. str_eq f.0 key ≡ false) fields

or_fail-some :
    {A : Type 0} (o : Option A) (message : String) (a : A) → or_fail message o ≡ ok a → o ≡ some a
or_fail-some none message a h = cc
or_fail-some (some b) message a h = cc

module _ (t : Toml) where
  open t use {
    Document, Item, Text, parse, to_string, writeln, get, set, value, array, as_str, as_array,
    parse-to_string, get-set, get-set_other, as_str-value, as_value-value, as_array-array,
    as_inline_table-inline_table,
  }

  unfoldable pub inserted : Fields → Document → Document
  inserted [] doc = doc
  inserted (f ∷ fields) doc = inserted fields (insert_toml_element t f.0 doc f.1)

  get-insert_other :
      (key key' : String) (doc : Document) (input : Option Bytes)
      → str_eq key' key ≡ false
      → get key (insert_toml_element t key' doc input) ≡ get key doc
  unfolding insert_toml_element
  get-insert_other key key' doc none h = refl
  get-insert_other key key' doc (some e) h = get-set_other key key' (value e) doc h

  pub get-inserted :
      (key : String) (fields : Fields) (doc : Document)
      → Without key fields
      → get key (inserted fields doc) ≡ get key doc
  unfolding inserted
  get-inserted key [] doc h = refl
  get-inserted key (f ∷ fields) doc h =
      get-inserted key fields (insert_toml_element t f.0 doc f.1) h.1
      ∙ get-insert_other key f.0 doc f.1 h.0

  -- The lookup of an element depends only on its item.
  pub parse_lem :
      (key : String) (doc doc' : Document)
      → get key doc' ≡ get key doc
      → parse_toml_element t key doc' ≡ parse_toml_element t key doc
  unfolding parse_toml_element
  parse_lem key doc doc' h = rw h refl

  pub get-peers_of :
      (doc doc' : Document) → get "peers" doc' ≡ get "peers" doc → peers_of t doc' ≡ peers_of t doc
  unfolding peers_of
  get-peers_of doc doc' h = rw h refl

  parse-insert_same :
      (key : String) (doc : Document) (input : Option Bytes) (old : Bytes)
      → parse_toml_element t key doc ≡ ok old
      → parse_toml_element t key (insert_toml_element t key doc input) ≡ ok (given input old)
  unfolding parse_toml_element insert_toml_element
  parse-insert_same key doc none old h = h
  parse-insert_same key doc (some e) old h = rw (get-set key (value e) doc, as_str-value e) refl

  pub parse-inserted :
      (before after : Fields) (key : String) (input : Option Bytes) (doc : Document) (old : Bytes)
      → Without key before
      → Without key after
      → parse_toml_element t key doc ≡ ok old
      → parse_toml_element t key (inserted (before ++ (key, input) ∷ after) doc)
        ≡ ok (given input old)
  unfolding inserted
  parse-inserted [] after key input doc old b a h =
      let doc' = insert_toml_element t key doc input in
      parse_lem key doc' (inserted after doc') (get-inserted key after doc' a)
      ∙ parse-insert_same key doc input old h
  parse-inserted (f ∷ before) after key input doc old b a h =
      let doc' = insert_toml_element t f.0 doc f.1 in
      parse-inserted before after key input doc' old b.1 a
        (parse_lem key doc doc' (get-insert_other key f.0 doc f.1 b.0) ∙ h)

  -- The table of a peer is read as that peer.
  peer_tables-read :
      (peers : List PeerList)
      → (tables : List Item) × (peer_tables t peers ≡ ok tables) × (read_peers t tables ≡ ok peers)
  unfolding peer_tables peer_table read_peers
  peer_tables-read [] = ([], refl, refl)
  peer_tables-read (peer ∷ peers) =
      let (tables, made, read) = peer_tables-read peers in
      let a : String × Item = ("address", value peer.address) in
      let h : String × Item = ("host_name", value peer.host_name) in
      (
        t.inline_table (a ∷ h ∷ []) ∷ tables,
        rw (as_value-value peer.address, as_value-value peer.host_name, made) refl,
        rw
            (
              read_peers,
              as_inline_table-inline_table (a ∷ h ∷ []),
              as_str-value peer.address,
              as_str-value peer.host_name,
              read,
            )
            refl,
      )

  -- The peers are inserted and read again, and no other element is changed.
  pub insert_toml_peers-read :
      (doc : Document) (input : Option (List PeerList)) (old : List PeerList)
      → peers_of t doc ≡ ok old
      → (doc' : Document) × (insert_toml_peers t doc input ≡ ok doc')
        × (peers_of t doc' ≡ ok (given input old))
        × ((key : String) → str_eq "peers" key ≡ false → get key doc' ≡ get key doc)
  unfolding insert_toml_peers peers_of
  insert_toml_peers-read doc none old h = (doc, refl, h, λ key k. refl)
  insert_toml_peers-read doc (some peers) old h =
      let (item, found, h') = bind_ok (or_fail "peers not found" (get "peers" doc)) _ old h in
      let (values, is_array, h'') =
        bind_ok (or_fail "invalid peers format" (as_array item)) _ old h' in
      let (tables, made, read) = peer_tables-read peers in
      let item' = or_fail-some (get "peers" doc) "peers not found" item found in
      let values' = or_fail-some (as_array item) "invalid peers format" values is_array in
      (
        set "peers" (array tables) doc,
        rw (item', values', made) refl,
        rw (get-set "peers" (array tables) doc, as_array-array tables) read,
        λ key k. get-set_other key "peers" (array tables) doc k,
      )
