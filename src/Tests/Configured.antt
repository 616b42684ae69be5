-- ===== src/Tests/Configured.antt =====
-- A configuration file and a mutation of it (src/graphql/status.rs).
use giganto.Prelude.{◌≡◌, refl, none, some, [], ◌∷◌}
use giganto.Config.{
  Entries, GigantoConfig, UserConfig, giganto_config, set_giganto_config, parse_toml_element,
  peers_of, read_peers,
}
use giganto.Config.Returned.{giganto_config-set_giganto_config}
use giganto.Config.Table.{TomlItem, string, array_end, tables}
use giganto.Outcome.{ok}

abbrev file : Entries TomlItem
file =
    ("ingest_address", string (1 ∷ []))
    ∷ ("publish_address", string (2 ∷ []))
    ∷ ("graphql_address", string (3 ∷ []))
    ∷ ("retention", string (4 ∷ []))
    ∷ ("max_open_files", string (5 ∷ []))
    ∷ ("max_mb_of_level_base", string (6 ∷ []))
    ∷ ("peer_address", string (7 ∷ []))
    ∷ ("peers", array_end)
    ∷ []

abbrev config : GigantoConfig
config = record {
  ingest_address = 1 ∷ [];
  publish_address = 2 ∷ [];
  graphql_address = 3 ∷ [];
  retention = 4 ∷ [];
  max_open_files = 5 ∷ [];
  max_mb_of_level_base = 6 ∷ [];
  peer_address = 7 ∷ [];
  peer_list = [];
}

-- Another retention, and a peer.
abbrev mutation : UserConfig
mutation = record {
  ingest_address = none;
  publish_address = none;
  graphql_address = none;
  retention = some (9 ∷ []);
  max_open_files = none;
  max_mb_of_level_base = none;
  peer_address = none;
  peer_list = some (record { address = 8 ∷ []; host_name = 110 ∷ [] } ∷ []);
}

file-config : giganto_config tables file ≡ ok config
unfolding giganto_config parse_toml_element peers_of read_peers
file-config = refl

giganto_config-set_giganto_config_example :
    (file' : Entries TomlItem) × (set_giganto_config tables mutation file ≡ ok file')
    × (giganto_config tables file'
        ≡ ok (record config {
          retention = 9 ∷ [];
          peer_list = record { address = 8 ∷ []; host_name = 110 ∷ [] } ∷ [];
        }))
giganto_config-set_giganto_config_example =
    giganto_config-set_giganto_config tables mutation file config file-config
