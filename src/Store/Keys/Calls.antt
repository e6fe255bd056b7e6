-- ===== src/Store/Keys/Calls.antt =====
-- The keys under each call of the store.
use fin_guard.Prelude.{
  String, ◌≡◌, refl, sym, subst, inl, inr, false, not, ◌&&◌, ◌==◌, arith, ok, any, update, delete,
  Unique, Unique-append, Unique-select, Unique-update, Bool-cases,
}
use fin_guard.Models.{Project, CostRecord}
use fin_guard.Store.Db.{Db, Env}
use fin_guard.Store.Projects
use fin_guard.Store.Projects.{update_project, cascade_project, unlink}
use fin_guard.Store.Sources.{cascade_source}
use fin_guard.Store.Costs.{LabelsJson, insert_row}
use fin_guard.Store.Effects.{
  create_project_effect, update_project_effect, delete_project_effect, create_cost_source_effect,
  update_cost_source_effect, delete_cost_source_effect, collected_effect, create_user_effect,
  create_group_effect, add_group_member_effect, remove_group_member_effect, set_project_role_effect,
  remove_project_role_effect, create_budget_effect, update_budget_effect, delete_budget_effect,
  renamed,
}
use fin_guard.Store.Effects.Records.{insert_row_effect, insert_cost_records_induction}
use fin_guard.Store.Call.{
  Call, creating_project, updating_project, deleting_project, creating_source, updating_source,
  deleting_source, collected, creating_user, creating_group, adding_member, removing_member,
  setting_role, removing_role, creating_budget, updating_budget, deleting_budget, inserting_records,
  run, Reachable, start, next,
}
use fin_guard.Store.Keys.{HasKeys, update_none, All-any-false, Unique-rename}

abbrev moved : {R : Type 0} {db db' : Db R} → db' ≡ db → HasKeys db → HasKeys db'
moved eq h = subst HasKeys (sym eq) h

-- A renamed project has a free name, or there is none to rename.
renamed-HasKeys :
    {R : Type 0} (e : Env) (p : Project) (db : Db R)
    → (any (λ q. q.id == p.id) db.projects
        && any (λ q. not (q.id == p.id) && q.name == p.name) db.projects)
      ≡ false
    → HasKeys db
    → HasKeys (renamed e p db)
renamed-HasKeys e p db free (ps, ss, us, gs, ms, rs, bs, cs) =
    (projects, ss, us, gs, ms, rs, bs, cs)
  where
    change : Project → Project
    change q = record q { name = p.name; description = p.description; updated_at = e.now }

    projects : Unique Projects.clash (update (λ q. q.id == p.id) change db.projects)
    projects = elim (Bool-cases (any (λ q. q.id == p.id) db.projects)) [
      | inl found ↦
          Unique-rename p.id p.name change (λ q. refl) (λ q. refl) db.projects
            (All-any-false _ db.projects (ground arith)) ps
      | inr missing ↦
          subst (Unique Projects.clash)
            (sym (update_none (λ q. q.id == p.id) change db.projects missing)) ps
    ]

cascade_project-HasKeys :
    {R : Type 0} (id : String) (db : Db R) → HasKeys db → HasKeys (cascade_project id db)
unfolding cascade_project unlink delete
cascade_project-HasKeys id db (ps, ss, us, gs, ms, rs, bs, cs) = (
  Unique-select _ _ db.projects ps,
  Unique-select _ _ db.cost_sources ss,
  us,
  gs,
  ms,
  Unique-select _ _ db.project_roles rs,
  Unique-update _ _ _ (λ b c. refl) (λ b c. refl) _ (Unique-select _ _ db.budgets bs),
  Unique-select _ _ db.cost_records cs,
)

cascade_source-HasKeys :
    {R : Type 0} (id : String) (db : Db R) → HasKeys db → HasKeys (cascade_source id db)
unfolding cascade_source unlink delete
cascade_source-HasKeys id db (ps, ss, us, gs, ms, rs, bs, cs) = (
  ps,
  Unique-select _ _ db.cost_sources ss,
  us,
  gs,
  ms,
  rs,
  Unique-update _ _ _ (λ b c. refl) (λ b c. refl) db.budgets bs,
  Unique-select _ _ db.cost_records cs,
)

module _ {R : Type 0} (json : LabelsJson) where
  insert_row-HasKeys :
      (e : Env) (r : CostRecord R) (db db' : Db R)
      → insert_row json e r db ≡ ok db'
      → HasKeys db
      → HasKeys db'
  insert_row-HasKeys e r db db' done (ps, ss, us, gs, ms, rs, bs, cs) =
      let (fresh, _, _, eq) = insert_row_effect json e r db db' done in
      moved eq (ps, ss, us, gs, ms, rs, bs, Unique-append _ db.cost_records _ fresh cs)

  -- Whatever the call, and whether it fails or not, no two rows of a table after it agree on a
  -- PRIMARY KEY or a UNIQUE column, if none do before it.
  pub run-HasKeys : (c : Call R) (db : Db R) → HasKeys db → HasKeys (run json c db).1
  unfolding run delete
  run-HasKeys (creating_project e p) db (ps, ss, us, gs, ms, rs, bs, cs) =
      elim (create_project_effect e db p) [
        | inl eq ↦ moved eq (ps, ss, us, gs, ms, rs, bs, cs)
        | inr (new, eq) ↦
            moved eq (Unique-append _ db.projects _ new ps, ss, us, gs, ms, rs, bs, cs)
      ]
  run-HasKeys (updating_project e p) db (ps, ss, us, gs, ms, rs, bs, cs) =
      elim (update_project_effect e db p) [
        | inl eq ↦ moved eq (ps, ss, us, gs, ms, rs, bs, cs)
        | inr (free, eq) ↦ moved eq (renamed-HasKeys e p db free (ps, ss, us, gs, ms, rs, bs, cs))
      ]
  run-HasKeys (deleting_project e id) db (ps, ss, us, gs, ms, rs, bs, cs) =
      elim (delete_project_effect e db id) [
        | inl eq ↦ moved eq (ps, ss, us, gs, ms, rs, bs, cs)
        | inr eq ↦ moved eq (cascade_project-HasKeys id db (ps, ss, us, gs, ms, rs, bs, cs))
      ]
  run-HasKeys (creating_source e s) db (ps, ss, us, gs, ms, rs, bs, cs) =
      elim (create_cost_source_effect e db s) [
        | inl eq ↦ moved eq (ps, ss, us, gs, ms, rs, bs, cs)
        | inr (new, _, eq) ↦
            moved eq (ps, Unique-append _ db.cost_sources _ new ss, us, gs, ms, rs, bs, cs)
      ]
  run-HasKeys (updating_source e s) db (ps, ss, us, gs, ms, rs, bs, cs) =
      elim (update_cost_source_effect e db s) [
        | inl eq ↦ moved eq (ps, ss, us, gs, ms, rs, bs, cs)
        | inr eq ↦ moved eq (
          ps,
          Unique-update _ _ _ (λ t u. refl) (λ t u. refl) db.cost_sources ss,
          us,
          gs,
          ms,
          rs,
          bs,
          cs,
        )
      ]
  run-HasKeys (deleting_source e id) db (ps, ss, us, gs, ms, rs, bs, cs) =
      elim (delete_cost_source_effect e db id) [
        | inl eq ↦ moved eq (ps, ss, us, gs, ms, rs, bs, cs)
        | inr eq ↦ moved eq (cascade_source-HasKeys id db (ps, ss, us, gs, ms, rs, bs, cs))
      ]
  run-HasKeys (collected e id t) db (ps, ss, us, gs, ms, rs, bs, cs) =
      elim (collected_effect e db id t) [
        | inl eq ↦ moved eq (ps, ss, us, gs, ms, rs, bs, cs)
        | inr eq ↦ moved eq (
          ps,
          Unique-update _ _ _ (λ t u. refl) (λ t u. refl) db.cost_sources ss,
          us,
          gs,
          ms,
          rs,
          bs,
          cs,
        )
      ]
  run-HasKeys (creating_user e u) db (ps, ss, us, gs, ms, rs, bs, cs) =
      elim (create_user_effect e db u) [
        | inl eq ↦ moved eq (ps, ss, us, gs, ms, rs, bs, cs)
        | inr (new, eq) ↦ moved eq (ps, ss, Unique-append _ db.users _ new us, gs, ms, rs, bs, cs)
      ]
  run-HasKeys (creating_group e g) db (ps, ss, us, gs, ms, rs, bs, cs) =
      elim (create_group_effect e db g) [
        | inl eq ↦ moved eq (ps, ss, us, gs, ms, rs, bs, cs)
        | inr (new, eq) ↦ moved eq (ps, ss, us, Unique-append _ db.groups _ new gs, ms, rs, bs, cs)
      ]
  run-HasKeys (adding_member e g u) db (ps, ss, us, gs, ms, rs, bs, cs) =
      elim (add_group_member_effect e db (record { group_id = g; user_id = u })) [
        | inl eq ↦ moved eq (ps, ss, us, gs, ms, rs, bs, cs)
        | inr (new, _, _, eq) ↦
            moved eq (ps, ss, us, gs, Unique-append _ db.group_members _ new ms, rs, bs, cs)
      ]
  run-HasKeys (removing_member e g u) db (ps, ss, us, gs, ms, rs, bs, cs) =
      elim (remove_group_member_effect e db g u) [
        | inl eq ↦ moved eq (ps, ss, us, gs, ms, rs, bs, cs)
        | inr eq ↦ moved eq (ps, ss, us, gs, Unique-select _ _ db.group_members ms, rs, bs, cs)
      ]
  run-HasKeys (setting_role e pr) db (ps, ss, us, gs, ms, rs, bs, cs) =
      elim (set_project_role_effect e db pr) [
        | inl eq ↦ moved eq (ps, ss, us, gs, ms, rs, bs, cs)
        | inr (inl eq) ↦ moved eq (
          ps,
          ss,
          us,
          gs,
          ms,
          Unique-update _ _ _ (λ r q. refl) (λ r q. refl) db.project_roles rs,
          bs,
          cs,
        )
        | inr (inr (new, _, eq)) ↦
            moved eq (ps, ss, us, gs, ms, Unique-append _ db.project_roles _ new rs, bs, cs)
      ]
  run-HasKeys (removing_role e p t s) db (ps, ss, us, gs, ms, rs, bs, cs) =
      elim (remove_project_role_effect e db p t s) [
        | inl eq ↦ moved eq (ps, ss, us, gs, ms, rs, bs, cs)
        | inr eq ↦ moved eq (ps, ss, us, gs, ms, Unique-select _ _ db.project_roles rs, bs, cs)
      ]
  run-HasKeys (creating_budget e b) db (ps, ss, us, gs, ms, rs, bs, cs) =
      elim (create_budget_effect e db b) [
        | inl eq ↦ moved eq (ps, ss, us, gs, ms, rs, bs, cs)
        | inr (new, _, _, eq) ↦
            moved eq (ps, ss, us, gs, ms, rs, Unique-append _ db.budgets _ new bs, cs)
      ]
  run-HasKeys (updating_budget e b) db (ps, ss, us, gs, ms, rs, bs, cs) =
      elim (update_budget_effect e db b) [
        | inl eq ↦ moved eq (ps, ss, us, gs, ms, rs, bs, cs)
        | inr eq ↦ moved eq (
          ps,
          ss,
          us,
          gs,
          ms,
          rs,
          Unique-update _ _ _ (λ b c. refl) (λ b c. refl) db.budgets bs,
          cs,
        )
      ]
  run-HasKeys (deleting_budget e id) db (ps, ss, us, gs, ms, rs, bs, cs) =
      elim (delete_budget_effect e db id) [
        | inl eq ↦ moved eq (ps, ss, us, gs, ms, rs, bs, cs)
        | inr eq ↦ moved eq (ps, ss, us, gs, ms, rs, Unique-select _ _ db.budgets bs, cs)
      ]
  run-HasKeys (inserting_records begin prepare rows commit) db h =
      insert_cost_records_induction json HasKeys insert_row-HasKeys begin prepare rows commit db h

  pub Reachable-HasKeys : {db : Db R} → Reachable json db → HasKeys db
  Reachable-HasKeys start = (tt, tt, tt, tt, tt, tt, tt, tt)
  Reachable-HasKeys (next {db} r c) = run-HasKeys c db (Reachable-HasKeys r)
