-- ===== src/Migration.antt =====
-- `migrate_data_dir` of src/storage/migration.rs: the check of the data directory's version and the
-- migrations that bring an old database up to date. semver, the file system and RocksDB are
-- parameters.
pub mod Http
pub mod Converted
pub mod Rounds
pub mod Upgraded
use giganto.Prelude.{
  ℕ, zero, suc, Bool, true, false, not, Option, none, some, List, [], ◌∷◌, select, if◌then◌else◌,
  String,
}
use giganto.Bytes.{Bytes}
use giganto.Outcome.{Outcome, ok, err, ◌>>=◌}
use giganto.Store.{Entry, equals}
use giganto.Migration.Http.{OldHttp, NewHttp, migrate_0_10_to_0_12}

-- What is used of the semver crate. The `expect`s are on constants.
pub record Semver : Type 1 where
  pub Version : Type 0
  pub VersionReq : Type 0
  -- `VersionReq::parse(..).expect(..)`
  pub requirement : String → VersionReq
  -- `Version::parse(..).expect(..)`
  pub constant : String → Version
  -- `Version::parse`
  pub parse : String → Outcome Version
  pub matches : VersionReq → Version → Bool

-- The calls of the file system.
pub data FileCall : Type 0 where
  create_dir_all read_dir create_version write_version open_version read_version : FileCall

-- The data directory: whether it exists, and the content of its file VERSION.
pub record DataDir : Type 0 where
  pub exists : Bool
  pub version_file : Option String

pub record Database : Type 0 where
  pub http_store : List Entry
  pub statistics_store : List Entry

abbrev pub compatible_version_req : String
compatible_version_req = ">0.13.0-alpha,<0.16.0-alpha"

abbrev pub Done : Type 0 → Type 0
Done S = Outcome (Unit {0}) × S

module _ (files : FileCall → Outcome (Unit {0})) (pkg_version : String) where
  -- `File::create` empties the file.
  unfoldable pub create_version_file : DataDir → Done DataDir
  create_version_file dir = elim (files create_version) [
    | err e ↦ (err "cannot create VERSION", dir)
    | ok _ ↦ elim (files write_version) [
      | err e ↦ (err "cannot write VERSION", record dir { version_file = some "" })
      | ok _ ↦ (ok tt, record dir { version_file = some pkg_version })
    ]
  ]

  unfoldable pub read_version_file : (v : Semver) → DataDir → Outcome (v.Version)
  read_version_file v dir = elim (files open_version) [
    | err e ↦ err "cannot open VERSION"
    | ok _ ↦ elim (files read_version) [
      | err e ↦ err "cannot read VERSION"
      | ok _ ↦ elim dir.version_file [
        | none ↦ err "cannot open VERSION"
        | some ver ↦ elim (v.parse ver) [ err e ↦ err "cannot parse VERSION" | ok w ↦ ok w ]
      ]
    ]
  ]

  -- The directory that is there when the version is looked for.
  abbrev pub created : DataDir → Outcome DataDir
  created dir =
      if dir.exists then ok dir else do _ ← files create_dir_all; ok (record dir { exists = true })

  unfoldable pub retrieve_or_create_version : (v : Semver) → DataDir → Outcome (v.Version) × DataDir
  retrieve_or_create_version v dir = elim (created dir) [
    | err e ↦ (err e, dir)
    | ok dir' ↦ elim (files read_dir) [
      | err e ↦ (err "cannot read data dir", dir')
      | ok _ ↦ elim dir'.version_file [
        | some ver ↦ (read_version_file v dir', dir')
        | none ↦
            let made = create_version_file dir' in
            elim made.0 [ err e ↦ (err e, made.1) | ok _ ↦ (read_version_file v made.1, made.1) ]
      ]
    ]
  ]

module _ (delete : Bytes → Outcome (Unit {0})) where
  -- Every key of the statistics is deleted.
  unfoldable pub migrate_0_12_to_0_13_0 : List (Outcome Entry) → List Entry → Done (List Entry)
  migrate_0_12_to_0_13_0 [] store = (ok tt, store)
  migrate_0_12_to_0_13_0 (err e ∷ events) store = (err "Failed to read Database", store)
  migrate_0_12_to_0_13_0 (ok entry ∷ events) store = elim (delete entry.0) [
    | err e ↦ (err e, store)
    | ok _ ↦ migrate_0_12_to_0_13_0 events (select (λ e. not (equals e.0 entry.0)) store)
  ]

-- What RocksDB and bincode do: an iterator over the entries of a store, whether a value is taken or
-- a key deleted, and the two formats of HTTP events.
pub record Storage : Type 0 where
  pub iter_forward : List Entry → List (Outcome Entry)
  pub append : Bytes → Outcome (Unit {0})
  pub delete : Bytes → Outcome (Unit {0})
  pub deserialize : Bytes → Outcome OldHttp
  pub serialize : NewHttp → Outcome Bytes

-- The functions in the table of migrations.
pub data Step : Type 0 where
  http_lists old_statistics : Step

unfoldable pub migrate : Storage → Step → Database → Done Database
migrate s http_lists db =
    let r =
      migrate_0_10_to_0_12 s.deserialize s.serialize s.append (s.iter_forward db.http_store)
        db.http_store in
    (r.0, record db { http_store = r.1 })
migrate s old_statistics db =
    let r =
      migrate_0_12_to_0_13_0 s.delete (s.iter_forward db.statistics_store) db.statistics_store in
    (r.0, record db { statistics_store = r.1 })

-- The table: what it applies to, the version that it leads to, and the function.
abbrev pub migration : List (String × String × Step)
migration =
    (">=0.10.0,<0.12.0", "0.12.0", http_lists)
    ∷ (">=0.12.0,<=0.13.0-alpha.1", "0.13.0", old_statistics)
    ∷ []

unfoldable pub find :
    (v : Semver) → v.Version → List (String × String × Step) → Option (String × Step)
find v version [] = none
find v version ((req, to, m) ∷ table) =
    let later = find v version table in
    if v.matches (v.requirement req) version then some (to, m) else later

abbrev pub compatible : (v : Semver) → v.Version → Bool
compatible v version = v.matches (v.requirement compatible_version_req) version

module _ (v : Semver) (files : FileCall → Outcome (Unit {0})) (pkg_version : String)
    (storage : Storage) where
  abbrev pub Migrated : Type 0
  Migrated = Outcome (Unit {0}) × DataDir × Database

  -- `.context("failed to update VERSION")`
  unfoldable pub update_version : DataDir → Database → Migrated
  unfolding create_version_file
  update_version dir db =
      let made = create_version_file files pkg_version dir in
      elim made.0 [
        | err e ↦ (err "failed to update VERSION", made.1, db)
        | ok _ ↦ (ok tt, made.1, db)
      ]

  -- The loop; the message of its error is without the version. `none` is that the rounds run out.
  unfoldable pub migrate_from : ℕ → v.Version → DataDir → Database → Option Migrated
  migrate_from zero version dir db = none
  migrate_from (suc rounds) version dir db = elim (find v version migration) [
    | none ↦ some (err "migration is not supported", dir, db)
    | some step ↦
        let (done, db') = migrate storage step.1 db in
        let later = migrate_from rounds (v.constant step.0) dir db' in
        elim done [
          | err e ↦ some (err e, dir, db')
          | ok _ ↦ if compatible v (v.constant step.0) then some (update_version dir db') else later
        ]
  ]

  -- A round for each migration of the table.
  unfoldable pub migrate_data_dir : DataDir → Database → Option Migrated
  migrate_data_dir dir db =
      let (retrieved, dir') = retrieve_or_create_version files pkg_version v dir in
      elim retrieved [
        | err e ↦ some (err e, dir', db)
        | ok version ↦
            if compatible v version then some (ok tt, dir', db) else migrate_from 2 version dir' db
      ]
