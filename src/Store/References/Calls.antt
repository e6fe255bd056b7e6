-- ===== src/Store/References/Calls.antt =====
-- The references under each call of the store.
use fin_guard.Prelude.{◌≡◌, sym, subst, ok, All-append}
use fin_guard.Models.{CostRecord}
use fin_guard.Store.Db.{Db, Env, empty}
use fin_guard.Store.Costs.{LabelsJson, cost_row, insert_row}
use fin_guard.Store.Effects.Records.{insert_row_effect, insert_cost_records_induction}
use fin_guard.Store.Call.{
  Call, creating_project, updating_project, deleting_project, creating_source, updating_source,
  deleting_source, collected, creating_user, creating_group, adding_member, removing_member,
  setting_role, removing_role, creating_budget, updating_budget, deleting_budget, inserting_records,
  run, Reachable, start, next,
}
use fin_guard.Store.References.Defs.{HasReferences, Refs-records}
use fin_guard.Store.References.Writes.{
  create_project-refs, update_project-refs, create_cost_source-refs, update_cost_source-refs,
  collected-refs, create_user-refs, create_group-refs, add_group_member-refs, set_project_role-refs,
  create_budget-refs, update_budget-refs,
}
use fin_guard.Store.References.Deletes.{
  delete_project-refs, delete_cost_source-refs, remove_group_member-refs, remove_project_role-refs,
  delete_budget-refs,
}

module _ {R : Type 0} (json : LabelsJson) where
  insert_row-refs :
      (e : Env) (r : CostRecord R) (db db' : Db R)
      → insert_row json e r db ≡ ok db'
      → HasReferences db
      → HasReferences db'
  unfolding cost_row
  insert_row-refs e r db db' done h =
      let (_, project, source, eq) = insert_row_effect json e r db db' done in
      subst HasReferences (sym eq) (
        Refs-records _ h (All-append _ db.cost_records _ h.records_project (project, tt))
          (All-append _ db.cost_records _ h.records_source (source, tt)))

  -- Whatever the call, and whether it fails or not, every reference of the tables after it names a
  -- row of them, if every reference before it does.
  pub run-HasReferences :
      (c : Call R) (db : Db R) → HasReferences db → HasReferences (run json c db).1
  unfolding run
  run-HasReferences (creating_project e p) db h = create_project-refs e db h p
  run-HasReferences (updating_project e p) db h = update_project-refs e db h p
  run-HasReferences (deleting_project e id) db h = delete_project-refs e db h id
  run-HasReferences (creating_source e s) db h = create_cost_source-refs e db h s
  run-HasReferences (updating_source e s) db h = update_cost_source-refs e db h s
  run-HasReferences (deleting_source e id) db h = delete_cost_source-refs e db h id
  run-HasReferences (collected e id t) db h = collected-refs e db h id t
  run-HasReferences (creating_user e u) db h = create_user-refs e db h u
  run-HasReferences (creating_group e g) db h = create_group-refs e db h g
  run-HasReferences (adding_member e g u) db h =
      add_group_member-refs e db h (record { group_id = g; user_id = u })
  run-HasReferences (removing_member e g u) db h = remove_group_member-refs e db h g u
  run-HasReferences (setting_role e pr) db h = set_project_role-refs e db h pr
  run-HasReferences (removing_role e p t s) db h = remove_project_role-refs e db h p t s
  run-HasReferences (creating_budget e b) db h = create_budget-refs e db h b
  run-HasReferences (updating_budget e b) db h = update_budget-refs e db h b
  run-HasReferences (deleting_budget e id) db h = delete_budget-refs e db h id
  run-HasReferences (inserting_records begin prepare rows commit) db h =
      insert_cost_records_induction json HasReferences insert_row-refs begin prepare rows commit db
        h

  pub empty-HasReferences : HasReferences (empty {R = R})
  empty-HasReferences = record {
    sources = tt;
    members_group = tt;
    members_user = tt;
    roles = tt;
    budgets_project = tt;
    budgets_source = tt;
    records_project = tt;
    records_source = tt;
  }

  pub Reachable-HasReferences : {db : Db R} → Reachable json db → HasReferences db
  Reachable-HasReferences start = empty-HasReferences
  Reachable-HasReferences (next {db} r c) = run-HasReferences c db (Reachable-HasReferences r)
