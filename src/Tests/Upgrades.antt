-- ===== src/Tests/Upgrades.antt =====
-- Data directories of several versions (src/storage/migration.rs), with a semver that knows minor
-- versions.
use text.Mathlib.Text.{◌==◌ as str_eq}
use giganto.Prelude.{◌≡◌, refl, Bool, true, ◌&&◌, some, [], ◌∷◌, ◌++◌, map, ℕ, leb, if◌then◌else◌}
use giganto.Bytes.{Bytes, cmp}
use giganto.Int64.{pos}
use giganto.Outcome.{Outcome, ok, err}
use giganto.Filter.{v4}
use giganto.Migration.{Semver, FileCall, Storage, Database, Migrated, migrate_data_dir}
use giganto.Migration.Http.{OldHttp, NewHttp, from_old, converted}
use giganto.Migration.Rounds.{Documented, migrate_data_dir-Ends}
use giganto.Migration.Upgraded.{versioned, Usable, migrate_data_dir-upgraded}

abbrev within : ℕ → ℕ → ℕ → Bool
within lo hi v = leb lo v && leb v hi

abbrev minor : Semver
minor = record {
  Version = ℕ;
  VersionReq = ℕ × ℕ;
  requirement = λ s.
      if str_eq s ">=0.10.0,<0.12.0"
      then (10, 11)
      else if str_eq s ">=0.12.0,<=0.13.0-alpha.1"
      then (12, 12)
      else (13, 15);
  constant = λ s. if str_eq s "0.12.0" then 12 else 13;
  parse = λ s.
      if str_eq s "0.10.2"
      then ok 10
      else if str_eq s "0.9.0"
      then ok 9
      else if str_eq s "0.15.4"
      then ok 15
      else err "unexpected";
  matches = λ r v. within r.0 r.1 v;
}

minor-Documented : Documented minor
minor-Documented = record {
  compatible_0_13 = refl;
  incompatible_0_12 = refl;
  before_0_12 = refl;
  from_0_12 = refl;
}

abbrev no_failure : FileCall → Outcome (Unit {0})
no_failure call = ok tt

-- An event of which only the URI is kept.
abbrev of_uri : Bytes → OldHttp
of_uri uri = record {
  orig_addr = v4 1;
  orig_port = 1;
  resp_addr = v4 2;
  resp_port = 2;
  proto = 6;
  last_time = pos 0;
  method = [];
  host = [];
  uri = uri;
  referrer = [];
  version = [];
  user_agent = [];
  request_len = 0;
  response_len = 0;
  status_code = 200;
  status_msg = [];
  username = [];
  password = [];
  cookie = [];
  content_encoding = [];
  content_type = [];
  cache_control = [];
}

abbrev to_bytes : NewHttp → Bytes
to_bytes n = elim n.orig_filenames [ [] ↦ n.uri | f ∷ fs ↦ n.uri ++ f ]

abbrev rocks : Storage
rocks = record {
  iter_forward = λ l. map ok l;
  append = λ k. ok tt;
  delete = λ k. ok tt;
  deserialize = λ b. ok (of_uri b);
  serialize = λ n. ok (to_bytes n);
}

abbrev old_database : Database
old_database = record {
  http_store = (1 ∷ [], 9 ∷ []) ∷ (2 ∷ [], 8 ∷ []) ∷ [];
  statistics_store = (1 ∷ [], 7 ∷ []) ∷ [];
}

old_database-Usable :
    Usable minor no_failure "0.15.4" rocks
      (λ call. refl)
      minor-Documented
      (λ b. b ++ 45 ∷ [])
      true
      old_database
unfolding from_old converted cmp
old_database-Usable = record {
  reads = λ l. refl;
  http_ordered = λ h. ((refl, tt), (tt, tt));
  http_converts = λ h. ((refl, refl), ((refl, refl), tt));
  statistics_ordered = (tt, tt);
  statistics_deletes = (refl, tt);
}

migrate_data_dir-upgraded_example :
    migrate_data_dir minor no_failure "0.15.4" rocks (versioned "0.10.2") old_database
    ≡ some (
      ok tt,
      versioned "0.15.4",
      record {
        http_store = (1 ∷ [], 9 ∷ 45 ∷ []) ∷ (2 ∷ [], 8 ∷ 45 ∷ []) ∷ [];
        statistics_store = [];
      },
    )
migrate_data_dir-upgraded_example =
    migrate_data_dir-upgraded minor no_failure "0.15.4" rocks (λ call. refl) minor-Documented
      (λ b. b ++ 45 ∷ []) true "0.10.2" 10 old_database refl refl refl refl old_database-Usable

migrate_data_dir-Ends_example :
    (m : Migrated minor no_failure "0.15.4" rocks) × (migrate_data_dir minor no_failure "0.15.4"
        rocks
        (versioned "0.10.2")
        old_database
      ≡ some m)
migrate_data_dir-Ends_example =
    migrate_data_dir-Ends minor no_failure "0.15.4" rocks minor-Documented (versioned "0.10.2")
      old_database
