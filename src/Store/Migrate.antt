-- ===== src/Store/Migrate.antt =====
-- internal/store/migrate.go: the migrations that `runMigrations` applies. The database is the versions
-- of schema_migrations and the rest of its state, on which a script is a function; `none` is a script
-- that the engine refuses.
pub mod Again
use fin_guard.Prelude.{
  ℕ, ◌+◌, String, Option, none, some, List, [], ◌∷◌, ◌++◌, Bool, true, false, ◌||◌, if◌then◌else◌,
  leb, nat_eq, any, select, sort, Result, ok, err, Error, io, syntax, unique_violation,
}

-- strings.HasSuffix with ".up.sql", fmt.Sscanf with "%06d_", and the order of sort.Strings.
pub record FileNames : Type 0 where
  pub is_up : String → Bool
  pub version_of : String → Option ℕ
  pub le : String → String → Bool

pub record Schema (S : Type 0) : Type 0 where
  pub versions : List ℕ
  pub state : S

-- Which of the calls for one file fail: reading it, beginning, executing, inserting and committing.
pub record FileFaults : Type 0 where
  pub reading : Bool
  pub starting : Bool
  pub executing : Bool
  pub recording : Bool
  pub committing : Bool

pub record Faults : Type 0 where
  pub creating : Bool
  pub querying : Bool
  pub listing : Bool
  pub file : ℕ → FileFaults

-- A file of the embedded directory.
abbrev pub File : Type 0
File = String × String

-- COALESCE(MAX(version), 0)
unfoldable pub max_version : List ℕ → ℕ
max_version [] = 0
max_version (v ∷ vs) = let m = max_version vs in if leb v m then m else v

-- The names that end in `.up.sql`, in order.
abbrev pub up_files : FileNames → List File → List File
up_files names files = sort (λ f g. names.le f.0 g.0) (select (λ f. names.is_up f.0) files)

module _ {S : Type 0} (names : FileNames) (apply : String → S → Option S) where
  -- After the script: the row of schema_migrations, and the commit.
  abbrev pub recorded : FileFaults → ℕ → Schema S → Option S → Result (Schema S)
  recorded f version db none = err syntax
  recorded f version db (some state) =
      if f.recording
      then err io
      else if any (λ v. nat_eq v version) db.versions
      then err unique_violation
      else if f.committing
      then err io
      else ok (record { versions = db.versions ++ version ∷ []; state = state })

  -- The transaction of one file.
  unfoldable pub migrate : FileFaults → ℕ → String → Schema S → Result (Schema S)
  migrate f version content db =
      if f.reading || f.starting || f.executing
      then err io
      else recorded f version db (apply content db.state)

  -- `continue` for a name with no version, and for a version that is not above the current one.
  unfoldable pub migrate_file : ℕ → FileFaults → Option ℕ → String → Schema S → Result (Schema S)
  unfolding migrate
  migrate_file current f none content db = ok db
  migrate_file current f (some version) content db =
      if leb version current then ok db else migrate f version content db

  -- The loop, from the `n`-th file on. An error ends it, and what was committed stays.
  unfoldable pub migrate_files :
      ℕ → (ℕ → FileFaults) → ℕ → List File → Schema S → Result (Unit {0}) × Schema S
  unfolding migrate_file
  migrate_files current faults n [] db = (ok tt, db)
  migrate_files current faults n ((name, content) ∷ files) db =
      elim (migrate_file current (faults n) (names.version_of name) content db) [
        | ok db' ↦ migrate_files current faults (n + 1) files db'
        | err e ↦ (err e, db)
      ]

  unfoldable pub run_migrations : Faults → List File → Schema S → Result (Unit {0}) × Schema S
  unfolding migrate_files max_version
  run_migrations f files db =
      if f.creating || f.querying || f.listing
      then (err io, db)
      else migrate_files (max_version db.versions) f.file 0 (up_files names files) db
