-- ===== src/Store/Call.antt =====
-- The writing calls of the store as data, for what holds of every one of them.
use fin_guard.Prelude.{String, List}
use fin_guard.Prelude.{Result, ok, err}
use fin_guard.Models.{Time, Project, CostSource, User, Group, ProjectRole, Budget, CostRecord}
use fin_guard.Store.Db.{Db, Env, empty}
use fin_guard.Store.Projects.{create_project, update_project, delete_project}
use fin_guard.Store.Sources.{
  create_cost_source, update_cost_source, delete_cost_source, update_cost_source_collected_at,
}
use fin_guard.Store.Users.{create_user}
use fin_guard.Store.Groups.{create_group, add_group_member, remove_group_member}
use fin_guard.Store.Roles.{set_project_role, remove_project_role}
use fin_guard.Store.Budgets.{create_budget, update_budget, delete_budget}
use fin_guard.Store.Costs.{LabelsJson, insert_cost_records}

pub data Call (R : Type 0) : Type 0 where
  creating_project : Env → Project → Call R
  updating_project : Env → Project → Call R
  deleting_project : Env → String → Call R
  creating_source : Env → CostSource → Call R
  updating_source : Env → CostSource → Call R
  deleting_source : Env → String → Call R
  collected : Env → String → Time → Call R
  creating_user : Env → User → Call R
  creating_group : Env → Group → Call R
  adding_member : Env → String → String → Call R
  removing_member : Env → String → String → Call R
  setting_role : Env → ProjectRole → Call R
  removing_role : Env → String → String → String → Call R
  creating_budget : Env → Budget R → Call R
  updating_budget : Env → Budget R → Call R
  deleting_budget : Env → String → Call R
  inserting_records : Env → Env → List (Env × CostRecord R) → Env → Call R

-- The result of a call, its value left out.
abbrev pub outcome : {A : Type 0} → Result A → Result (Unit {0})
outcome (ok a) = ok tt
outcome (err e) = err e

abbrev pub forget : {R A : Type 0} → Result A × Db R → Result (Unit {0}) × Db R
forget (r, db) = (outcome r, db)

module _ {R : Type 0} (json : LabelsJson) where
  unfoldable pub run : Call R → Db R → Result (Unit {0}) × Db R
  run (creating_project e p) db = forget (create_project e p db)
  run (updating_project e p) db = forget (update_project e p db)
  run (deleting_project e id) db = delete_project e id db
  run (creating_source e s) db = forget (create_cost_source e s db)
  run (updating_source e s) db = forget (update_cost_source e s db)
  run (deleting_source e id) db = delete_cost_source e id db
  run (collected e id t) db = update_cost_source_collected_at e id t db
  run (creating_user e u) db = forget (create_user e u db)
  run (creating_group e g) db = forget (create_group e g db)
  run (adding_member e g u) db = add_group_member e g u db
  run (removing_member e g u) db = remove_group_member e g u db
  run (setting_role e pr) db = set_project_role e pr db
  run (removing_role e p t s) db = remove_project_role e p t s db
  run (creating_budget e b) db = forget (create_budget e b db)
  run (updating_budget e b) db = forget (update_budget e b db)
  run (deleting_budget e id) db = delete_budget e id db
  run (inserting_records begin prepare rows commit) db =
      insert_cost_records json begin prepare rows commit db

  -- The tables that a sequence of calls can reach from the empty ones.
  pub data Reachable : Db R → Type 0 where
    start : Reachable empty
    next : {db : Db R} → Reachable db → (c : Call R) → Reachable (run c db).1
