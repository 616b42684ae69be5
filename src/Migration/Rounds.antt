-- ===== src/Migration/Rounds.antt =====
-- `migrate_data_dir` of src/storage/migration.rs ends.
use giganto.Prelude.{
  ◌≡◌, refl, true, false, Option, none, some, ◌⊎◌, Bool-cases, Option-cases, inl, inr,
  if◌then◌else◌, String, ℕ, suc,
}
use giganto.Outcome.{Outcome, ok, err, Outcome-cases}
use giganto.Migration.{
  Semver, FileCall, DataDir, Database, retrieve_or_create_version, Storage, Step, old_statistics,
  migrate, migration, find, compatible, Migrated, update_version, migrate_from, migrate_data_dir,
}

-- What the documentation of semver says of the constants: the order of versions.
pub record Documented (v : Semver) : Type 0 where
  pub compatible_0_13 : compatible v (v.constant "0.13.0") ≡ true
  pub incompatible_0_12 : compatible v (v.constant "0.12.0") ≡ false
  pub before_0_12 : v.matches (v.requirement ">=0.10.0,<0.12.0") (v.constant "0.12.0") ≡ false
  pub from_0_12 : v.matches (v.requirement ">=0.12.0,<=0.13.0-alpha.1") (v.constant "0.12.0") ≡ true

module _ (v : Semver) (files : FileCall → Outcome (Unit {0})) (pkg_version : String)
    (storage : Storage) where
  -- What follows a migration that succeeded.
  abbrev pub then_update :
      ℕ → String → DataDir → Database → Option (Migrated v files pkg_version storage)
  then_update n to dir db =
      if compatible v (v.constant to)
      then some (update_version v files pkg_version storage dir db)
      else migrate_from v files pkg_version storage n (v.constant to) dir db

module _ (v : Semver) (files : FileCall → Outcome (Unit {0})) (pkg_version : String)
    (storage : Storage) (documented : Documented v) where
  abbrev Ends : Option (Migrated v files pkg_version storage) → Type 0
  Ends r = (m : Migrated v files pkg_version storage) × (r ≡ some m)

  round-Ends :
      (n : ℕ) (version : v.Version) (to : String) (step : Step) (dir : DataDir) (db : Database)
      → find v version migration ≡ some (to, step)
      → ((db' : Database) → Ends (then_update v files pkg_version storage n to dir db'))
      → Ends (migrate_from v files pkg_version storage (suc n) version dir db)
  unfolding migrate_from
  round-Ends n version to step dir db f h = elim (Outcome-cases (migrate storage step db).0) [
    | inl (e, q) ↦ ((err e, dir, (migrate storage step db).1), rw (migrate_from, f, q) refl)
    | inr (u, q) ↦ let (m, r) = h (migrate storage step db).1 in (m, rw (migrate_from, f, q) r)
  ]

  second_step : find v (v.constant "0.12.0") migration ≡ some ("0.13.0", old_statistics)
  unfolding find
  second_step = rw (find, documented.before_0_12, documented.from_0_12) refl

  -- The second migration is the last.
  from_0_12-Ends :
      (n : ℕ) (dir : DataDir) (db : Database)
      → Ends (migrate_from v files pkg_version storage (suc n) (v.constant "0.12.0") dir db)
  from_0_12-Ends n dir db =
      round-Ends n (v.constant "0.12.0") "0.13.0" old_statistics dir db second_step (λ db'.
        (update_version v files pkg_version storage dir db', rw documented.compatible_0_13 refl))

  abbrev Known : Option (String × Step) → Type 0
  Known none = Unit
  Known (some s) = (s.0 ≡ "0.12.0") ⊎ (s.0 ≡ "0.13.0")

  find-Known : (version : v.Version) → Known (find v version migration)
  unfolding find
  find-Known version = elim (Bool-cases (v.matches (v.requirement ">=0.10.0,<0.12.0") version)) [
    | inl a ↦ rw (find, a) (inl refl)
    | inr a ↦ elim (Bool-cases (v.matches (v.requirement ">=0.12.0,<=0.13.0-alpha.1") version)) [
      | inl b ↦ rw (find, a, b) (inr refl)
      | inr b ↦ rw (find, a, b) tt
    ]
  ]

  migrate_from-Ends :
      (version : v.Version) (dir : DataDir) (db : Database)
      → Ends (migrate_from v files pkg_version storage 2 version dir db)
  unfolding migrate_from
  migrate_from-Ends version dir db =
      let k = find-Known version in
      elim (Option-cases (find v version migration)) [
        | inl f ↦ ((err "migration is not supported", dir, db), rw (migrate_from, f) refl)
        | inr (s, f) ↦ round-Ends 1 version s.0 s.1 dir db f (λ db'. elim (rw f at k) [
          | inl t ↦ rw (t, documented.incompatible_0_12) (from_0_12-Ends 0 dir db')
          | inr t ↦ (
            update_version v files pkg_version storage dir db',
            rw (t, documented.compatible_0_13) refl,
          )
        ])
      ]

  -- Where semver orders the constants as it documents, the check of the data directory ends,
  -- whatever its version, the files, the database and the failures are, within the two rounds that
  -- the function is given, each of which runs at most one migration.
  pub migrate_data_dir-Ends :
      (dir : DataDir) (db : Database)
      → (m : Migrated v files pkg_version storage) × (migrate_data_dir v files pkg_version storage
            dir db
          ≡ some m)
  unfolding migrate_data_dir
  migrate_data_dir-Ends dir db =
      let (retrieved, dir') = retrieve_or_create_version files pkg_version v dir in
      elim (Outcome-cases retrieved) [
        | inl (e, q) ↦ ((err e, dir', db), rw (migrate_data_dir, q) refl)
        | inr (version, q) ↦ elim (Bool-cases (compatible v version)) [
          | inl t ↦ ((ok tt, dir', db), rw (migrate_data_dir, q, t) refl)
          | inr t ↦
              let (m, r) = migrate_from-Ends version dir' db in (m, rw (migrate_data_dir, q, t) r)
        ]
      ]
