-- ===== src/Tests/Migrate.antt =====
-- Two migrations, of which one is no script to apply.
use fin_guard.Prelude.{
  String, Option, none, some, List, [], ◌∷◌, ◌≡◌, refl, true, false, ◌==◌, if◌then◌else◌, ok, any,
  select, sort,
}
use fin_guard.Store.Migrate.{
  FileNames, Schema, Faults, File, run_migrations, migrate_files, migrate_file, migrate,
  max_version,
}
use fin_guard.Store.Migrate.Again.{run_migrations_again}

abbrev names : FileNames
names = record {
  is_up = λ s. s == "000001_init.up.sql";
  version_of = λ s. if s == "000001_init.up.sql" then some 1 else none;
  le = λ s t. true;
}

-- The state is the scripts that have run.
abbrev apply : String → List String → Option (List String)
apply content state = some (content ∷ state)

abbrev fine : Faults
fine = record {
  creating = false;
  querying = false;
  listing = false;
  file = λ n. record {
    reading = false;
    starting = false;
    executing = false;
    recording = false;
    committing = false;
  };
}

abbrev files : List File
files = ("000001_init.up.sql", "create") ∷ ("000001_init.down.sql", "drop") ∷ []

abbrev fresh : Schema (List String)
fresh = record { versions = []; state = [] }

applied :
    run_migrations names apply fine files fresh
    ≡ (ok tt, record { versions = 1 ∷ []; state = "create" ∷ [] })
unfolding run_migrations migrate_files migrate_file migrate max_version any select sort
applied = refl

run_migrations_again_example :
    run_migrations names apply fine files (run_migrations names apply fine files fresh).1
    ≡ (ok tt, (run_migrations names apply fine files fresh).1)
unfolding run_migrations migrate_files migrate_file migrate max_version any select sort
run_migrations_again_example =
    run_migrations_again names apply fine fine files fresh refl refl refl refl
