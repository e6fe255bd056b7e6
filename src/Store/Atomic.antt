-- ===== src/Store/Atomic.antt =====
-- What a call of internal/store/sql.go that returns an error leaves.
use fin_guard.Prelude.{◌≡◌, arith, err, Error}
use fin_guard.Store.Db.{Db}
use fin_guard.Store.Projects.{create_project, update_project, delete_project}
use fin_guard.Store.Sources.{
  create_cost_source, update_cost_source, delete_cost_source, update_cost_source_collected_at,
}
use fin_guard.Store.Users.{create_user}
use fin_guard.Store.Groups.{create_group, add_group_member, remove_group_member}
use fin_guard.Store.Roles.{set_project_role, remove_project_role}
use fin_guard.Store.Budgets.{create_budget, update_budget, delete_budget}
use fin_guard.Store.Costs.{LabelsJson, insert_cost_records}
use fin_guard.Store.Call.{Call, creating_project, run}

module _ {R : Type 0} (json : LabelsJson) where
  -- A call of the store that returns an error leaves every table as it was: the statements of each
  -- call and the transaction of a batch of cost records included.
  pub run-error_unchanged :
      (c : Call R) (db : Db R) (x : Error) → (run json c db).0 ≡ err x → (run json c db).1 ≡ db
  unfolding run create_project update_project delete_project create_cost_source update_cost_source
      delete_cost_source update_cost_source_collected_at create_user create_group add_group_member
      remove_group_member set_project_role remove_project_role create_budget update_budget
      delete_budget insert_cost_records
  run-error_unchanged (creating_project e p) db x h = ground arith
  run-error_unchanged _ db x h = ground arith
