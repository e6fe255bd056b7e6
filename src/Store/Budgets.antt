-- ===== src/Store/Budgets.antt =====
-- The budgets of internal/store/sql.go.
use fin_guard.Prelude.{
  String, Option, some, none, List, ◌∷◌, [], ◌++◌, Bool, true, ◌&&◌, ◌==◌, if◌then◌else◌,
}
use fin_guard.Prelude.{
  ok, unique_violation, foreign_key_violation, any, first, select, delete, update,
}
use fin_guard.Models.{Budget}
use fin_guard.Store.Db.{Db, Env, Exec, Query, fail, write, read, given_id, has_project, has_source}

module _ {R : Type 0} where
  -- A NULL reference is no violation.
  abbrev pub source_exists : Option String → Db R → Bool
  source_exists none db = true
  source_exists (some id) db = has_source id db

  abbrev pub stamp_budget : Env → Budget R → Budget R
  stamp_budget e b = record b { id = given_id e b.id; created_at = e.now; updated_at = e.now }

  unfoldable pub create_budget : Env → Budget R → Exec R (Budget R)
  create_budget e b = write e λ db.
      let row = stamp_budget e b in
      if any (λ c. c.id == row.id) db.budgets
      then fail unique_violation db
      else if has_project row.project_id db && source_exists row.cost_source_id db
      then (ok row, record db { budgets = db.budgets ++ row ∷ [] })
      else fail foreign_key_violation db

  unfoldable pub get_budget : Env → String → Query R (Option (Budget R))
  get_budget e id = read e λ db. ok (first (λ b. b.id == id) db.budgets)

  unfoldable pub list_budgets : Env → String → Query R (List (Budget R))
  list_budgets e project_id = read e λ db. ok (select (λ b. b.project_id == project_id) db.budgets)

  unfoldable pub update_budget : Env → Budget R → Exec R (Budget R)
  update_budget e b = write e λ db.
      let b' = record b { updated_at = e.now } in
      (
        ok b',
        record db {
          budgets =
              update (λ c. c.id == b'.id)
                (λ c. record c {
                  monthly_limit = b'.monthly_limit;
                  warn_threshold = b'.warn_threshold;
                  updated_at = b'.updated_at;
                })
                db.budgets;
        },
      )

  unfoldable pub delete_budget : Env → String → Exec R (Unit {0})
  delete_budget e id =
      write e λ db. (ok tt, record db { budgets = delete (λ b. b.id == id) db.budgets })
