-- ===== src/Migration/Upgraded.antt =====
-- What `migrate_data_dir` of src/storage/migration.rs does to a data directory and its database.
use giganto.Prelude.{
  ◌≡◌, refl, ap, ◌∙◌, Bool, true, false, ◌||◌, none, some, List, [], map, All, String, ℕ, suc,
}
use giganto.Bytes.{Bytes}
use giganto.Outcome.{Outcome, ok, err}
use giganto.Store.{Entry, Pairwise, Before}
use giganto.Migration.{
  Semver, FileCall, create_dir_all, create_version, write_version, open_version, read_version,
  read_dir, DataDir, Database, create_version_file, read_version_file, retrieve_or_create_version,
  Storage, Step, http_lists, old_statistics, migrate, migration, find, compatible, update_version,
  migrate_from, migrate_data_dir,
}
use giganto.Migration.Converted.{
  Converts, renewed, migrate_0_10_to_0_12-renewed, statistics-deleted,
}
use giganto.Migration.Rounds.{Documented, then_update}

abbrev pub from_0_10 : (v : Semver) → v.Version → Bool
from_0_10 v w = v.matches (v.requirement ">=0.10.0,<0.12.0") w

abbrev pub from_0_12 : (v : Semver) → v.Version → Bool
from_0_12 v w = v.matches (v.requirement ">=0.12.0,<=0.13.0-alpha.1") w

-- A directory with a file VERSION.
abbrev pub versioned : String → DataDir
versioned ver = record { exists = true; version_file = some ver }

module _ (v : Semver) (files : FileCall → Outcome (Unit {0})) (pkg_version : String)
    (storage : Storage) (no_failure : (call : FileCall) → files call ≡ ok tt) where
  read_made :
      (ver : String) (w : v.Version)
      → v.parse ver ≡ ok w
      → read_version_file files pkg_version v (versioned ver) ≡ ok w
  unfolding read_version_file
  read_made ver w p =
      rw (read_version_file, no_failure open_version, no_failure read_version, p) refl

  read_version-parse :
      (ver : String) (w : v.Version)
      → v.parse ver ≡ ok w
      → retrieve_or_create_version files pkg_version v (versioned ver) ≡ (ok w, versioned ver)
  unfolding retrieve_or_create_version
  read_version-parse ver w p = rw (no_failure read_dir, read_made ver w p) refl

  created_lem :
      (dir : DataDir)
      → create_version_file files pkg_version dir
        ≡ (ok tt, record dir { version_file = some pkg_version })
  unfolding create_version_file
  created_lem dir =
      rw (create_version_file, no_failure create_version, no_failure write_version) refl

  updated :
      (ver : String) (db : Database)
      → update_version v files pkg_version storage (versioned ver) db
        ≡ (ok tt, versioned pkg_version, db)
  unfolding update_version
  updated ver db =
      rw (update_version, created_lem (versioned ver)) (rw (created_lem (versioned ver)) refl)

  made :
      (exists : Bool) (w : v.Version)
      → v.parse pkg_version ≡ ok w
      → retrieve_or_create_version files pkg_version v
          (record { exists = exists; version_file = none })
        ≡ (ok w, versioned pkg_version)
  unfolding retrieve_or_create_version
  made true w p =
      let m = created_lem (record { exists = true; version_file = none }) in
      rw (no_failure read_dir, m) (rw (m, read_made pkg_version w p) refl)
  made false w p =
      let m = created_lem (record { exists = true; version_file = none }) in
      rw (retrieve_or_create_version, no_failure create_dir_all)
        (rw (no_failure read_dir, m) (rw (m, read_made pkg_version w p) refl))

  -- With a version that is neither compatible nor one that a migration begins at, and where no call
  -- of the file system fails, the check is an error, and neither the directory nor the database is changed.
  pub migrate_data_dir_unsupported :
      (ver : String) (w : v.Version) (db : Database)
      → v.parse ver ≡ ok w
      → compatible v w ≡ false
      → from_0_10 v w ≡ false
      → from_0_12 v w ≡ false
      → migrate_data_dir v files pkg_version storage (versioned ver) db
        ≡ some (err "migration is not supported", versioned ver, db)
  unfolding migrate_data_dir migrate_from find
  migrate_data_dir_unsupported ver w db p c a b =
      let f : find v w migration ≡ none = rw (find, a, b) refl in
      let r = read_version-parse ver w p in
      rw (migrate_data_dir, r, c) (rw (migrate_from, f, r) refl)

  -- A directory without a file VERSION, which need not exist yet, is given that of the program,
  -- and where the program's version is compatible nothing is migrated, whatever the database
  -- holds. No call of the file system fails.
  pub migrate_data_dir_unversioned :
      (exists : Bool) (w : v.Version) (db : Database)
      → v.parse pkg_version ≡ ok w
      → compatible v w ≡ true
      → migrate_data_dir v files pkg_version storage
          (record { exists = exists; version_file = none })
          db
        ≡ some (ok tt, versioned pkg_version, db)
  unfolding migrate_data_dir
  migrate_data_dir_unversioned exists w db p c =
      let r = made exists w p in rw (migrate_data_dir, r, c, r) refl

module _ (v : Semver) (files : FileCall → Outcome (Unit {0})) (pkg_version : String)
    (storage : Storage) (no_failure : (call : FileCall) → files call ≡ ok tt)
    (documented : Documented v) (value : Bytes → Bytes) where
  -- Stores that are read, written and deleted from without errors, and whose HTTP events are
  -- converted to `value` if the database is from before 0.12.
  pub record Usable (old : Bool) (db : Database) : Type 0 where
    pub reads : (l : List Entry) → storage.iter_forward l ≡ map ok l
    pub http_ordered : old ≡ true → Pairwise Before db.http_store
    pub http_converts :
        old ≡ true
        → All (Converts storage.deserialize storage.serialize storage.append value) db.http_store
    pub statistics_ordered : Pairwise Before db.statistics_store
    pub statistics_deletes : All (λ e. storage.delete e.0 ≡ ok tt) db.statistics_store

  abbrev pub converted_store : Database → List Entry
  converted_store db =
      renewed storage.deserialize storage.serialize storage.append value db.http_store

  http_migrated :
      (db : Database)
      → Usable true db
      → migrate storage http_lists db ≡ (ok tt, record db { http_store = converted_store db })
  unfolding migrate
  http_migrated db u =
      rw
        (
          u.reads db.http_store,
          migrate_0_10_to_0_12-renewed storage.deserialize storage.serialize storage.append value
              db.http_store (u.http_ordered refl) (u.http_converts refl),
        )
        refl

  statistics_migrated :
      (db : Database)
      → Pairwise Before db.statistics_store
      → All (λ e. storage.delete e.0 ≡ ok tt) db.statistics_store
      → ((l : List Entry) → storage.iter_forward l ≡ map ok l)
      → migrate storage old_statistics db ≡ (ok tt, record db { statistics_store = [] })
  unfolding migrate
  statistics_migrated db s d r =
      rw (r db.statistics_store, statistics-deleted storage.delete db.statistics_store s d) refl

  round_done :
      (n : ℕ) (w : v.Version) (to : String) (step : Step) (dir : DataDir) (db db' : Database)
      → find v w migration ≡ some (to, step)
      → migrate storage step db ≡ (ok tt, db')
      → migrate_from v files pkg_version storage (suc n) w dir db
        ≡ then_update v files pkg_version storage n to dir db'
  unfolding migrate_from
  round_done n w to step dir db db' f m = rw (migrate_from, f, m) (rw m refl)

  -- The second migration, from whatever version it begins at.
  last_round :
      (n : ℕ) (ver : String) (w : v.Version) (db : Database)
      → from_0_10 v w ≡ false
      → from_0_12 v w ≡ true
      → migrate storage old_statistics db ≡ (ok tt, record db { statistics_store = [] })
      → migrate_from v files pkg_version storage (suc n) w (versioned ver) db
        ≡ some (ok tt, versioned pkg_version, record db { statistics_store = [] })
  last_round n ver w db a b m =
      let emptied = record db { statistics_store = [] } in
      let f : find v w migration ≡ some ("0.13.0", old_statistics) =
        unfold find in rw (find, a, b) refl in
      round_done n w "0.13.0" old_statistics (versioned ver) db emptied f m
      ∙ rw documented.compatible_0_13
          (ap some (updated v files pkg_version storage no_failure ver emptied))

  -- What an upgrade makes of a database: from before 0.12 on the HTTP events are converted too.
  abbrev pub upgraded : Bool → Database → Database
  upgraded true db = record { http_store = converted_store db; statistics_store = [] }
  upgraded false db = record db { statistics_store = [] }

  from_old_version :
      (old : Bool) (ver : String) (w : v.Version) (db : Database)
      → from_0_10 v w ≡ old
      → (old || from_0_12 v w) ≡ true
      → Usable old db
      → migrate_from v files pkg_version storage 2 w (versioned ver) db
        ≡ some (ok tt, versioned pkg_version, upgraded old db)
  from_old_version false ver w db a b u =
      last_round 1 ver w db a b
        (statistics_migrated db u.statistics_ordered u.statistics_deletes u.reads)
  from_old_version true ver w db a b u =
      let f : find v w migration ≡ some ("0.12.0", http_lists) = unfold find in rw (find, a) refl in
      let lists = record db { http_store = converted_store db } in
      round_done 1 w "0.12.0" http_lists (versioned ver) db lists f (http_migrated db u)
      ∙ rw documented.incompatible_0_12 (
          last_round 0 ver (v.constant "0.12.0") lists documented.before_0_12 documented.from_0_12
            (statistics_migrated lists u.statistics_ordered u.statistics_deletes u.reads))

  -- A data directory whose version is incompatible and one that a migration begins at is brought
  -- up to date: the check succeeds, VERSION is that of the program, the statistics are deleted,
  -- and a database from 0.10.0 on and before 0.12.0 has every HTTP event converted, under its key;
  -- that of 0.12.0 itself or later has its HTTP events left as they are. Nothing else is changed. semver orders the constants as it documents, no call of the file system fails, and
  -- the stores are read, written and deleted from without errors.
  pub migrate_data_dir-upgraded :
      (old : Bool) (ver : String) (w : v.Version) (db : Database)
      → v.parse ver ≡ ok w
      → compatible v w ≡ false
      → from_0_10 v w ≡ old
      → (old || from_0_12 v w) ≡ true
      → Usable old db
      → migrate_data_dir v files pkg_version storage (versioned ver) db
        ≡ some (ok tt, versioned pkg_version, upgraded old db)
  unfolding migrate_data_dir
  migrate_data_dir-upgraded old ver w db p c a b u =
      let r = read_version-parse v files pkg_version storage no_failure ver w p in
      rw (migrate_data_dir, r, c) (rw r (from_old_version old ver w db a b u))
