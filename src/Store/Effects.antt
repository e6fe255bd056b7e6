-- ===== src/Store/Effects.antt =====
-- What each writing call leaves: the tables as they were, or one new version of them, with the tests
-- that the call has made.
pub mod Records
use fin_guard.Prelude.{
  String, Option, some, none, List, [], ◌∷◌, ◌++◌, ◌≡◌, ◌⊎◌, Bool, true, false, not, ◌&&◌, ◌==◌,
  arith, any, update, delete,
}
use fin_guard.Models.{Time, Project, CostSource, User, Group, ProjectRole, Budget}
use fin_guard.Store.Db.{Db, GroupMember, Env, has_project}
use fin_guard.Store.Projects.{
  create_project, update_project, delete_project, cascade_project, stamp_project,
}
use fin_guard.Store.Projects
use fin_guard.Store.Sources.{
  create_cost_source, update_cost_source, delete_cost_source, cascade_source, stamp_source,
  config_json, update_cost_source_collected_at,
}
use fin_guard.Store.Users
use fin_guard.Store.Users.{create_user, stamp_user, user_row}
use fin_guard.Store.Groups
use fin_guard.Store.Groups.{
  create_group, stamp_group, group_row, add_group_member, remove_group_member, same_member,
}
use fin_guard.Store.Roles.{set_project_role, remove_project_role, same_key, is_key}
use fin_guard.Store.Budgets.{
  create_budget, update_budget, delete_budget, stamp_budget, source_exists,
}

-- The version that an update of a project leaves.
abbrev pub renamed : {R : Type 0} → Env → Project → Db R → Db R
renamed e p db = record db {
  projects =
      update (λ q. q.id == p.id)
        (λ q. record q { name = p.name; description = p.description; updated_at = e.now })
        db.projects;
}

abbrev pub reconfigured : {R : Type 0} → Env → CostSource → Db R → Db R
reconfigured e s db = record db {
  cost_sources =
      update (λ t. t.id == s.id)
        (λ t. record t {
          name = s.name;
          config = config_json s.config;
          enabled = s.enabled;
          updated_at = e.now;
        })
        db.cost_sources;
}

abbrev pub source_row : Env → CostSource → CostSource
source_row e s =
    let cs = stamp_source e s in
    record cs { config = config_json cs.config; last_collected_at = none }

module _ {R : Type 0} (e : Env) (db : Db R) where
  pub create_project_effect :
      (p : Project)
      → ((create_project e p db).1 ≡ db)
        ⊎ ((any (λ q. Projects.clash q (stamp_project e p)) db.projects ≡ false)
            × ((create_project e p db).1
                ≡ record db { projects = db.projects ++ stamp_project e p ∷ [] }))
  unfolding create_project
  create_project_effect p = ground arith

  pub update_project_effect :
      (p : Project)
      → ((update_project e p db).1 ≡ db)
        ⊎ (((any (λ q. q.id == p.id) db.projects
                && any (λ q. not (q.id == p.id) && q.name == p.name) db.projects)
              ≡ false)
            × ((update_project e p db).1 ≡ renamed e p db))
  unfolding update_project
  update_project_effect p = ground arith

  pub delete_project_effect :
      (id : String)
      → ((delete_project e id db).1 ≡ db) ⊎ ((delete_project e id db).1 ≡ cascade_project id db)
  unfolding delete_project
  delete_project_effect id = ground arith

  pub create_cost_source_effect :
      (s : CostSource)
      → ((create_cost_source e s db).1 ≡ db)
        ⊎ ((any (λ t. t.id == (source_row e s).id) db.cost_sources ≡ false)
            × (has_project s.project_id db ≡ true)
            × ((create_cost_source e s db).1
                ≡ record db { cost_sources = db.cost_sources ++ source_row e s ∷ [] }))
  unfolding create_cost_source
  create_cost_source_effect s = ground arith

  pub update_cost_source_effect :
      (s : CostSource)
      → ((update_cost_source e s db).1 ≡ db) ⊎ ((update_cost_source e s db).1 ≡ reconfigured e s db)
  unfolding update_cost_source
  update_cost_source_effect s = ground arith

  pub delete_cost_source_effect :
      (id : String)
      → ((delete_cost_source e id db).1 ≡ db)
        ⊎ ((delete_cost_source e id db).1 ≡ cascade_source id db)
  unfolding delete_cost_source
  delete_cost_source_effect id = ground arith

  pub collected_effect :
      (id : String) (t : Time)
      → ((update_cost_source_collected_at e id t db).1 ≡ db)
        ⊎ ((update_cost_source_collected_at e id t db).1 ≡ record db {
          cost_sources =
              update
                (λ s. s.id == id)
                (λ s. record s { last_collected_at = some t; updated_at = e.now })
                db.cost_sources;
        })
  unfolding update_cost_source_collected_at
  collected_effect id t = ground arith

  pub create_user_effect :
      (u : User)
      → ((create_user e u db).1 ≡ db)
        ⊎ ((any (λ v. Users.clash v (user_row (stamp_user e u))) db.users ≡ false)
            × ((create_user e u db).1
                ≡ record db { users = db.users ++ user_row (stamp_user e u) ∷ [] }))
  unfolding create_user
  create_user_effect u = ground arith

  pub create_group_effect :
      (g : Group)
      → ((create_group e g db).1 ≡ db)
        ⊎ ((any (λ h. Groups.clash h (group_row (stamp_group e g))) db.groups ≡ false)
            × ((create_group e g db).1
                ≡ record db { groups = db.groups ++ group_row (stamp_group e g) ∷ [] }))
  unfolding create_group
  create_group_effect g = ground arith

  pub add_group_member_effect :
      (m : GroupMember)
      → ((add_group_member e m.group_id m.user_id db).1 ≡ db)
        ⊎ ((any (λ n. same_member n m) db.group_members ≡ false)
            × (any (λ g. g.id == m.group_id) db.groups ≡ true)
            × (any (λ u. u.id == m.user_id) db.users ≡ true)
            × ((add_group_member e m.group_id m.user_id db).1
                ≡ record db { group_members = db.group_members ++ m ∷ [] }))
  unfolding add_group_member
  add_group_member_effect m = ground arith

  pub remove_group_member_effect :
      (g u : String)
      → ((remove_group_member e g u db).1 ≡ db)
        ⊎ ((remove_group_member e g u db).1 ≡ record db {
          group_members = delete (λ m. m.group_id == g && m.user_id == u) db.group_members;
        })
  unfolding remove_group_member
  remove_group_member_effect g u = ground arith

  pub set_project_role_effect :
      (pr : ProjectRole)
      → ((set_project_role e pr db).1 ≡ db)
        ⊎ (((set_project_role e pr db).1 ≡ record db {
          project_roles =
              update (λ r. same_key r pr) (λ r. record r { role = pr.role }) db.project_roles;
        })
            ⊎ ((any (λ r. same_key r pr) db.project_roles ≡ false)
                × (has_project pr.project_id db ≡ true)
                × ((set_project_role e pr db).1
                    ≡ record db { project_roles = db.project_roles ++ pr ∷ [] })))
  unfolding set_project_role
  set_project_role_effect pr = ground arith

  pub remove_project_role_effect :
      (p t s : String)
      → ((remove_project_role e p t s db).1 ≡ db)
        ⊎ ((remove_project_role e p t s db).1
            ≡ record db { project_roles = delete (is_key p t s) db.project_roles })
  unfolding remove_project_role
  remove_project_role_effect p t s = ground arith

  pub create_budget_effect :
      (b : Budget R)
      → ((create_budget e b db).1 ≡ db)
        ⊎ ((any (λ c. c.id == (stamp_budget e b).id) db.budgets ≡ false)
            × (has_project b.project_id db ≡ true)
            × (source_exists b.cost_source_id db ≡ true)
            × ((create_budget e b db).1
                ≡ record db { budgets = db.budgets ++ stamp_budget e b ∷ [] }))
  unfolding create_budget
  create_budget_effect b = ground arith

  pub update_budget_effect :
      (b : Budget R)
      → ((update_budget e b db).1 ≡ db)
        ⊎ ((update_budget e b db).1 ≡ record db {
          budgets =
              update
                (λ c. c.id == b.id)
                (λ c. record c {
                  monthly_limit = b.monthly_limit;
                  warn_threshold = b.warn_threshold;
                  updated_at = e.now;
                })
                db.budgets;
        })
  unfolding update_budget
  update_budget_effect b = ground arith

  pub delete_budget_effect :
      (id : String)
      → ((delete_budget e id db).1 ≡ db)
        ⊎ ((delete_budget e id db).1 ≡ record db { budgets = delete (λ b. b.id == id) db.budgets })
  unfolding delete_budget
  delete_budget_effect id = ground arith
