-- ===== src/Store/Projects.antt =====
-- The projects of internal/store/sql.go, with the ON DELETE actions of
-- migrations/000001_init.up.sql. An ON DELETE CASCADE deletes the rows that refer to a deleted row;
-- ON DELETE SET NULL clears the reference.
use fin_guard.Prelude.{
  String, Option, some, none, List, ◌∷◌, [], ◌++◌, Bool, false, not, ◌&&◌, ◌||◌, ◌==◌,
  if◌then◌else◌,
}
use fin_guard.Prelude.{ok, unique_violation, any, first, delete, update, sort}
use fin_guard.Models.{Project, Budget}
use fin_guard.Store.Db.{Db, Env, Exec, Query, fail, write, read, given_id}

-- `CreateProject` up to the statement: the struct that the caller's pointer then holds.
abbrev pub stamp_project : Env → Project → Project
stamp_project e p = record p { id = given_id e p.id; created_at = e.now; updated_at = e.now }

-- Two rows that the keys of `projects` keep apart.
abbrev pub clash : Project → Project → Bool
clash p q = p.id == q.id || p.name == q.name

-- Is the reference to a row that `gone` tells?
abbrev pub refers : Option String → (String → Bool) → Bool
refers none gone = false
refers (some id) gone = gone id

-- ON DELETE SET NULL
unfoldable pub unlink : {R : Type 0} → (String → Bool) → List (Budget R) → List (Budget R)
unlink gone = update (λ b. refers b.cost_source_id gone) (λ b. record b { cost_source_id = none })

module _ {R : Type 0} where
  unfoldable pub create_project : Env → Project → Exec R Project
  create_project e p = write e λ db.
      let row = stamp_project e p in
      if any (λ q. clash q row) db.projects
      then fail unique_violation db
      else (ok row, record db { projects = db.projects ++ row ∷ [] })

  unfoldable pub get_project : Env → String → Query R (Option Project)
  get_project e id = read e λ db. ok (first (λ p. p.id == id) db.projects)

  unfoldable pub list_projects : Env → Query R (List Project)
  list_projects e = read e λ db. ok (sort (λ p q. e.collate p.name q.name) db.projects)

  -- The new name must be free, if the statement finds a row.
  unfoldable pub update_project : Env → Project → Exec R Project
  update_project e p = write e λ db.
      let p' = record p { updated_at = e.now } in
      if any (λ q. q.id == p.id) db.projects
        && any (λ q. not (q.id == p.id) && q.name == p.name) db.projects
      then fail unique_violation db
      else (
        ok p',
        record db {
          projects =
              update (λ q. q.id == p.id)
                (λ q. record q {
                  name = p'.name;
                  description = p'.description;
                  updated_at = p'.updated_at;
                })
                db.projects;
        },
      )

  -- Is the id that of a cost source of the project?
  abbrev pub source_of : String → Db R → String → Bool
  source_of project_id db id = any (λ s. s.id == id && s.project_id == project_id) db.cost_sources

  -- The cascade of a deleted project, that of its cost sources included.
  unfoldable pub cascade_project : String → Db R → Db R
  unfolding unlink
  cascade_project id db = record db {
    projects = delete (λ p. p.id == id) db.projects;
    cost_sources = delete (λ s. s.project_id == id) db.cost_sources;
    project_roles = delete (λ r. r.project_id == id) db.project_roles;
    budgets = unlink (source_of id db) (delete (λ b. b.project_id == id) db.budgets);
    cost_records =
        delete (λ r. r.project_id == id || source_of id db r.cost_source_id) db.cost_records;
  }

  unfoldable pub delete_project : Env → String → Exec R (Unit {0})
  unfolding cascade_project
  delete_project e id = write e λ db. (ok tt, cascade_project id db)
