-- ===== src/Config/Returned.antt =====
-- What `giganto_config` returns after `set_giganto_config` (src/graphql/status.rs).
use text.Mathlib.Text.{◌==◌ as str_eq}
use giganto.Prelude.{
  ◌≡◌, refl, sym, ap, ◌∙◌, false, none, some, [], ◌∷◌, String, take, drop, inl, inr,
}
use giganto.Outcome.{ok, err, bind_ok, Outcome-cases}
use giganto.Config.Collected.{AreOf, collected-AreOf}
use giganto.Config.Elements.{
  given, Fields, inserted, get-inserted, parse_lem, get-peers_of, parse-inserted,
  insert_toml_peers-read,
}
use giganto.Config.{
  Toml, GigantoConfig, UserConfig, parse_toml_element, peers_of, giganto_config, insert_fields,
  set_giganto_config,
}

-- The configuration with the fields that a mutation gives.
abbrev pub updated : UserConfig → GigantoConfig → GigantoConfig
updated field config = record {
  ingest_address = given field.ingest_address config.ingest_address;
  publish_address = given field.publish_address config.publish_address;
  graphql_address = given field.graphql_address config.graphql_address;
  retention = given field.retention config.retention;
  max_open_files = given field.max_open_files config.max_open_files;
  max_mb_of_level_base = given field.max_mb_of_level_base config.max_mb_of_level_base;
  peer_address = given field.peer_address config.peer_address;
  peer_list = given field.peer_list config.peer_list;
}

ok_injective : {A : Type 0} {a b : A} → ok a ≡ ok b → a ≡ b
ok_injective h = cc

err_ok : {A : Type 0} {e : String} {a : A} → err e ≡ ok a → ⊥
err_ok h = cc

module _ (t : Toml) where
  open t use {
    Document, Item, Text, parse, to_string, writeln, get, set, value, array, as_str, as_array,
    parse-to_string, get-set, get-set_other, as_str-value, as_value-value, as_array-array,
    as_inline_table-inline_table,
  }

  -- The seven elements.
  abbrev fields_of : UserConfig → Fields
  fields_of field =
      ("ingest_address", field.ingest_address)
      ∷ ("publish_address", field.publish_address)
      ∷ ("graphql_address", field.graphql_address)
      ∷ ("retention", field.retention)
      ∷ ("max_open_files", field.max_open_files)
      ∷ ("max_mb_of_level_base", field.max_mb_of_level_base)
      ∷ ("peer_address", field.peer_address)
      ∷ []

  insert_fields_lem :
      (field : UserConfig) (doc : Document)
      → insert_fields t field doc ≡ inserted t (fields_of field) doc
  unfolding insert_fields inserted
  insert_fields_lem field doc = refl

  -- What a document says of a configuration.
  abbrev Says : Document → GigantoConfig → Type 0
  Says doc config =
      AreOf config (parse_toml_element t "ingest_address" doc)
        (parse_toml_element t "publish_address" doc) (parse_toml_element t "graphql_address" doc)
        (parse_toml_element t "retention" doc) (parse_toml_element t "max_open_files" doc)
        (parse_toml_element t "max_mb_of_level_base" doc) (parse_toml_element t "peer_address" doc)
        (peers_of t doc)

  giganto_config-Says :
      (file : Text) (config : GigantoConfig)
      → giganto_config t file ≡ ok config
      → (doc : Document) × (parse file ≡ ok doc) × Says doc config
  unfolding giganto_config
  giganto_config-Says file config h =
      let (doc, parsed, rest) = bind_ok (parse file) _ config h in
      (doc, parsed, collected-AreOf config _ _ _ _ _ _ _ _ rest)

  Says-giganto_config :
      (doc : Document) (config : GigantoConfig)
      → Says doc config
      → giganto_config t (writeln (to_string doc)) ≡ ok config
  unfolding giganto_config
  Says-giganto_config doc config (p1, p2, p3, p4, p5, p6, p7, p8) =
      rw (parse-to_string doc, p1, p2, p3, p4, p5, p6, p7, p8) refl

  updated-Says :
      (field : UserConfig) (doc doc' : Document) (config : GigantoConfig)
      → Says doc config
      → ((key : String)
          → str_eq "peers" key ≡ false
          → get key doc' ≡ get key (inserted t (fields_of field) doc))
      → peers_of t doc' ≡ ok (given field.peer_list config.peer_list)
      → Says doc' (updated field config)
  updated-Says field doc doc' config (p1, p2, p3, p4, p5, p6, p7, p8) others peers =
      let as_before = λ (key : String) (k : str_eq "peers" key ≡ false).
        parse_lem t key (inserted t (fields_of field) doc) doc' (others key k) in
      let fs = fields_of field in
      (
        as_before "ingest_address" refl
            ∙ parse-inserted t (take 0 fs) (drop 1 fs) "ingest_address" field.ingest_address doc
                config.ingest_address tt (refl, (refl, (refl, (refl, (refl, (refl, tt)))))) p1,
        as_before "publish_address" refl
            ∙ parse-inserted t (take 1 fs) (drop 2 fs) "publish_address" field.publish_address doc
                config.publish_address (refl, tt) (refl, (refl, (refl, (refl, (refl, tt))))) p2,
        as_before "graphql_address" refl
            ∙ parse-inserted t (take 2 fs) (drop 3 fs) "graphql_address" field.graphql_address doc
                config.graphql_address (refl, (refl, tt)) (refl, (refl, (refl, (refl, tt)))) p3,
        as_before "retention" refl
            ∙ parse-inserted t (take 3 fs) (drop 4 fs) "retention" field.retention doc
                config.retention (refl, (refl, (refl, tt))) (refl, (refl, (refl, tt))) p4,
        as_before "max_open_files" refl
            ∙ parse-inserted t (take 4 fs) (drop 5 fs) "max_open_files" field.max_open_files doc
                config.max_open_files (refl, (refl, (refl, (refl, tt)))) (refl, (refl, tt)) p5,
        as_before "max_mb_of_level_base" refl
            ∙ parse-inserted t (take 5 fs) (drop 6 fs) "max_mb_of_level_base"
                field.max_mb_of_level_base doc config.max_mb_of_level_base
                (refl, (refl, (refl, (refl, (refl, tt))))) (refl, tt) p6,
        as_before "peer_address" refl
            ∙ parse-inserted t (take 6 fs) (drop 7 fs) "peer_address" field.peer_address doc
                config.peer_address (refl, (refl, (refl, (refl, (refl, (refl, tt)))))) tt p7,
        peers,
      )

  -- If the configuration can be read before, then a mutation that can be written leads to a file
  -- that is read as the same configuration with the fields that the mutation gives, the list of
  -- peers included, replaced.
  pub giganto_config-set_giganto_config :
      (field : UserConfig) (file : Text) (config : GigantoConfig)
      → giganto_config t file ≡ ok config
      → (file' : Text) × (set_giganto_config t field file ≡ ok file')
        × (giganto_config t file' ≡ ok (updated field config))
  unfolding giganto_config set_giganto_config
  giganto_config-set_giganto_config field file config h =
      let (doc, parsed, says) = giganto_config-Says file config h in
      let peers = get-peers_of t doc (inserted t (fields_of field) doc) (
        get-inserted t "peers" (fields_of field) doc
          (refl, (refl, (refl, (refl, (refl, (refl, (refl, tt)))))))) in
      let (doc', made, read, others) =
        insert_toml_peers-read t (inserted t (fields_of field) doc) field.peer_list config.peer_list
          (peers ∙ says.7) in
      (
        writeln (to_string doc'),
        rw (parsed, insert_fields_lem field doc, made) refl,
        Says-giganto_config doc' (updated field config)
            (updated-Says field doc doc' config says others read),
      )

  -- A configuration with an element that is not a string, as the numbers of `max_open_files` and
  -- `max_mb_of_level_base` in the configuration file that the documentation shows, is not
  -- returned: the query fails.
  pub giganto_config_number :
      (file : Text) (doc : Document) (item : Item)
      → parse file ≡ ok doc
      → get "max_open_files" doc ≡ some item
      → as_str item ≡ none
      → (e : String) × (giganto_config t file ≡ err e)
  unfolding parse_toml_element
  giganto_config_number file doc item parsed found number =
      elim (Outcome-cases (giganto_config t file)) [
        | inl (e, q) ↦ (e, q)
        | inr (config, q) ↦
            let (doc', parsed', says) = giganto_config-Says file config q in
            let same : doc ≡ doc' = ok_injective (sym parsed ∙ parsed') in
            let fails : parse_toml_element t "max_open_files" doc ≡ err "format is not available." =
              rw (found, number) refl in
            absurd (err_ok (sym fails ∙ ap (parse_toml_element t "max_open_files") same ∙ says.4))
      ]
