-- ===== src/Store/References/Writes.antt =====
-- The references under the calls that insert or update rows.
use fin_guard.Prelude.{
  String, Option, none, some, ◌≡◌, refl, sym, subst, ◌∙◌, inl, inr, true, All-append, All-update,
  any-append_old, any-update,
}
use fin_guard.Models.{Time, Project, CostSource, User, Group, ProjectRole, Budget}
use fin_guard.Store.Db.{Db, GroupMember, Env}
use fin_guard.Store.Projects.{create_project, update_project}
use fin_guard.Store.Sources.{
  create_cost_source, update_cost_source, update_cost_source_collected_at,
}
use fin_guard.Store.Users.{create_user}
use fin_guard.Store.Groups.{create_group, add_group_member}
use fin_guard.Store.Roles.{set_project_role}
use fin_guard.Store.Budgets.{create_budget, update_budget, source_exists}
use fin_guard.Store.Effects.{
  create_project_effect, update_project_effect, create_cost_source_effect,
  update_cost_source_effect, collected_effect, create_user_effect, create_group_effect,
  add_group_member_effect, set_project_role_effect, create_budget_effect, update_budget_effect,
}
use fin_guard.Store.References.Defs.{
  Refs-sources, Refs-members, Refs-roles, Refs-budgets, Test, Implies, Refs-mono, HasReferences,
  source_ids, null_or,
}

-- Nothing is lost.
abbrev same : (P : Test) → Implies P P
same P id h = h

null_or_of_source_exists :
    {R : Type 0} (db : Db R) (o : Option String)
    → source_exists o db ≡ true
    → null_or (source_ids db) o ≡ true
null_or_of_source_exists db none h = refl
null_or_of_source_exists db (some id) h = h

module _ {R : Type 0} (e : Env) (db : Db R) (h : HasReferences db) where
  abbrev keep : {db' : Db R} → db' ≡ db → HasReferences db'
  keep eq = subst HasReferences (sym eq) h

  abbrev moved : {db' new : Db R} → db' ≡ new → HasReferences new → HasReferences db'
  moved eq k = subst HasReferences (sym eq) k

  pub create_project-refs : (p : Project) → HasReferences (create_project e p db).1
  create_project-refs p = elim (create_project_effect e db p) [
    | inl eq ↦ keep eq
    | inr (_, eq) ↦ moved eq (
        Refs-mono _ _ _ _ _ _ _ _ _ _ _ _ _ (λ id. any-append_old _ db.projects _) (same _) (same _)
          (same _) h)
  ]

  pub update_project-refs : (p : Project) → HasReferences (update_project e p db).1
  update_project-refs p = elim (update_project_effect e db p) [
    | inl eq ↦ keep eq
    | inr (_, eq) ↦ moved eq (
        Refs-mono _ _ _ _ _ _ _ _ _ _ _ _ _ (λ id k. any-update _ _ _ (λ q. refl) db.projects ∙ k)
          (same _) (same _) (same _) h)
  ]

  pub create_cost_source-refs : (s : CostSource) → HasReferences (create_cost_source e s db).1
  create_cost_source-refs s = elim (create_cost_source_effect e db s) [
    | inl eq ↦ keep eq
    | inr (_, found, eq) ↦ moved eq (
        Refs-mono _ _ _ _ _ _ _ _ _ _ _ _ _ (same _) (λ id. any-append_old _ db.cost_sources _)
          (same _) (same _)
          (Refs-sources _ h (All-append _ db.cost_sources _ h.sources (found, tt))))
  ]

  pub update_cost_source-refs : (s : CostSource) → HasReferences (update_cost_source e s db).1
  update_cost_source-refs s = elim (update_cost_source_effect e db s) [
    | inl eq ↦ keep eq
    | inr eq ↦ moved eq (
        Refs-mono _ _ _ _ _ _ _ _ _ _ _ _ _ (same _)
          (λ id k. any-update _ _ _ (λ t. refl) db.cost_sources ∙ k) (same _) (same _)
          (Refs-sources _ h
            (All-update _ _ _ _ (λ t _ p. p) (λ t _ p. p) db.cost_sources h.sources)))
  ]

  pub collected-refs :
      (id : String) (t : Time) → HasReferences (update_cost_source_collected_at e id t db).1
  collected-refs id t = elim (collected_effect e db id t) [
    | inl eq ↦ keep eq
    | inr eq ↦ moved eq (
        Refs-mono _ _ _ _ _ _ _ _ _ _ _ _ _ (same _)
          (λ id k. any-update _ _ _ (λ s. refl) db.cost_sources ∙ k) (same _) (same _)
          (Refs-sources _ h
            (All-update _ _ _ _ (λ s _ p. p) (λ s _ p. p) db.cost_sources h.sources)))
  ]

  pub create_user-refs : (u : User) → HasReferences (create_user e u db).1
  create_user-refs u = elim (create_user_effect e db u) [
    | inl eq ↦ keep eq
    | inr (_, eq) ↦ moved eq (
        Refs-mono _ _ _ _ _ _ _ _ _ _ _ _ _ (same _) (same _) (same _)
          (λ id. any-append_old _ db.users _) h)
  ]

  pub create_group-refs : (g : Group) → HasReferences (create_group e g db).1
  create_group-refs g = elim (create_group_effect e db g) [
    | inl eq ↦ keep eq
    | inr (_, eq) ↦ moved eq (
        Refs-mono _ _ _ _ _ _ _ _ _ _ _ _ _ (same _) (same _) (λ id. any-append_old _ db.groups _)
          (same _) h)
  ]

  pub add_group_member-refs :
      (m : GroupMember) → HasReferences (add_group_member e m.group_id m.user_id db).1
  add_group_member-refs m = elim (add_group_member_effect e db m) [
    | inl eq ↦ keep eq
    | inr (_, group, user, eq) ↦ moved eq (
        Refs-members _ h (All-append _ db.group_members _ h.members_group (group, tt))
          (All-append _ db.group_members _ h.members_user (user, tt)))
  ]

  pub set_project_role-refs : (pr : ProjectRole) → HasReferences (set_project_role e pr db).1
  set_project_role-refs pr = elim (set_project_role_effect e db pr) [
    | inl eq ↦ keep eq
    | inr (inl eq) ↦
        moved eq
          (Refs-roles _ h (All-update _ _ _ _ (λ r _ p. p) (λ r _ p. p) db.project_roles h.roles))
    | inr (inr (_, found, eq)) ↦
        moved eq (Refs-roles _ h (All-append _ db.project_roles _ h.roles (found, tt)))
  ]

  pub create_budget-refs : (b : Budget R) → HasReferences (create_budget e b db).1
  create_budget-refs b = elim (create_budget_effect e db b) [
    | inl eq ↦ keep eq
    | inr (_, project, source, eq) ↦ moved eq (
        Refs-budgets _ h (All-append _ db.budgets _ h.budgets_project (project, tt)) (
          All-append _ db.budgets _ h.budgets_source
            (null_or_of_source_exists db b.cost_source_id source, tt)))
  ]

  pub update_budget-refs : (b : Budget R) → HasReferences (update_budget e b db).1
  update_budget-refs b = elim (update_budget_effect e db b) [
    | inl eq ↦ keep eq
    | inr eq ↦ moved eq (
        Refs-budgets _ h (All-update _ _ _ _ (λ c _ p. p) (λ c _ p. p) db.budgets h.budgets_project)
          (All-update _ _ _ _ (λ c _ p. p) (λ c _ p. p) db.budgets h.budgets_source))
  ]
