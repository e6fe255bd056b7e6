-- ===== src/Store/References/Deletes.antt =====
-- The references under the calls that delete rows, their cascades included.
use fin_guard.Prelude.{
  String, Option, none, some, List, ◌≡◌, refl, sym, subst, inl, inr, Bool, true, false, not, ◌||◌,
  ◌==◌, arith, eq_iff, All, All-select, All-update, any, delete, any-select, any-delete_rest,
}
use fin_guard.Models.{Budget}
use fin_guard.Store.Db.{Db, Env}
use fin_guard.Store.Projects.{delete_project, cascade_project, source_of, refers, unlink}
use fin_guard.Store.Sources.{delete_cost_source, cascade_source}
use fin_guard.Store.Groups.{remove_group_member}
use fin_guard.Store.Roles.{remove_project_role}
use fin_guard.Store.Budgets.{delete_budget}
use fin_guard.Store.Effects.{
  delete_project_effect, delete_cost_source_effect, remove_group_member_effect,
  remove_project_role_effect, delete_budget_effect,
}
use fin_guard.Store.References.Defs.{
  Test, Refs-members, Refs-roles, Refs-budgets, HasReferences, project_ids, source_ids, null_or,
}

-- A row other than the deleted one is found still.
not-delete_id : (i j k : String) → (i == k) ≡ true → (k == j) ≡ false → (not (i == j)) ≡ true
not-delete_id i j k h n = ground (arith, eq_iff i k, eq_iff i j, eq_iff k j)

module _ {R : Type 0} (db : Db R) where
  project_left :
      (id k : String)
      → (k == id) ≡ false
      → project_ids db k ≡ true
      → any (λ p. p.id == k) (delete (λ p. p.id == id) db.projects) ≡ true
  unfolding delete
  project_left id k n = any-select _ _ (λ p h. not-delete_id p.id id k h n) db.projects

  source_left :
      (id k : String)
      → (k == id) ≡ false
      → source_ids db k ≡ true
      → any (λ s. s.id == k) (delete (λ s. s.id == id) db.cost_sources) ≡ true
  unfolding delete
  source_left id k n = any-select _ _ (λ s h. not-delete_id s.id id k h n) db.cost_sources

  -- A source that is not the project's is found still.
  other_source_left :
      (id k : String)
      → source_of id db k ≡ false
      → source_ids db k ≡ true
      → any (λ s. s.id == k) (delete (λ s. s.project_id == id) db.cost_sources) ≡ true
  other_source_left id k n h =
      any-delete_rest (λ s. s.id == k) (λ s. s.project_id == id) db.cost_sources h n

-- Where no reference to a deleted source is left, the references that are left hold.
module _ (gone S S' : Test) (left : (k : String) → gone k ≡ false → S k ≡ true → S' k ≡ true) where
  null_or_left :
      (o : Option String) → refers o gone ≡ false → null_or S o ≡ true → null_or S' o ≡ true
  null_or_left none n h = refl
  null_or_left (some k) n h = left k n h

  unlink_refs :
      {R : Type 0} (bs : List (Budget R))
      → All (λ b. null_or S b.cost_source_id ≡ true) bs
      → All (λ b. null_or S' b.cost_source_id ≡ true) (unlink gone bs)
  unfolding unlink
  unlink_refs = All-update _ _ _ _ (λ b _ _. refl) (λ b n h. null_or_left b.cost_source_id n h)

unlink_keeps :
    {R : Type 0} (gone P : Test) (bs : List (Budget R))
    → All (λ b. P b.project_id ≡ true) bs
    → All (λ b. P b.project_id ≡ true) (unlink gone bs)
unfolding unlink
unlink_keeps gone P = All-update _ _ _ _ (λ b _ h. h) (λ b _ h. h)

or_false : (a b : Bool) → not (a || b) ≡ true → (a ≡ false) × (b ≡ false)
or_false a b h = ground arith

not-true : (a : Bool) → not a ≡ true → a ≡ false
not-true a h = ground arith

module _ {R : Type 0} (db : Db R) (h : HasReferences db) where
  cascade_project-refs : (id : String) → HasReferences (cascade_project id db)
  unfolding cascade_project delete
  cascade_project-refs id = record {
    sources =
        All-select _ _ _ (λ s q. project_left db id s.project_id (not-true _ q)) db.cost_sources
          h.sources;
    members_group = h.members_group;
    members_user = h.members_user;
    roles =
        All-select _ _ _ (λ r q. project_left db id r.project_id (not-true _ q)) db.project_roles
          h.roles;
    budgets_project = unlink_keeps _ _ _ (
        All-select _ _ _ (λ b q. project_left db id b.project_id (not-true _ q)) db.budgets
          h.budgets_project);
    budgets_source =
        unlink_refs (source_of id db) (source_ids db) _ (other_source_left db id) _
          (All-select _ _ _ (λ b _ p. p) db.budgets h.budgets_source);
    records_project =
        All-select _ _ _ (λ r q. project_left db id r.project_id (or_false _ _ q).0) db.cost_records
          h.records_project;
    records_source =
        All-select _ _ _ (λ r q. other_source_left db id r.cost_source_id (or_false _ _ q).1)
          db.cost_records h.records_source;
  }

  cascade_source-refs : (id : String) → HasReferences (cascade_source id db)
  unfolding cascade_source delete
  cascade_source-refs id = record {
    sources = All-select _ _ _ (λ s _ p. p) db.cost_sources h.sources;
    members_group = h.members_group;
    members_user = h.members_user;
    roles = h.roles;
    budgets_project = unlink_keeps _ _ _ h.budgets_project;
    budgets_source =
        unlink_refs (λ c. c == id) (source_ids db) _ (source_left db id) _ h.budgets_source;
    records_project = All-select _ _ _ (λ r _ p. p) db.cost_records h.records_project;
    records_source =
        All-select _ _ _ (λ r q. source_left db id r.cost_source_id (not-true _ q)) db.cost_records
          h.records_source;
  }

module _ {R : Type 0} (e : Env) (db : Db R) (h : HasReferences db) where
  abbrev moved : {db' new : Db R} → db' ≡ new → HasReferences new → HasReferences db'
  moved eq k = subst HasReferences (sym eq) k

  pub delete_project-refs : (id : String) → HasReferences (delete_project e id db).1
  delete_project-refs id = elim (delete_project_effect e db id) [
    | inl eq ↦ moved eq h
    | inr eq ↦ moved eq (cascade_project-refs db h id)
  ]

  pub delete_cost_source-refs : (id : String) → HasReferences (delete_cost_source e id db).1
  delete_cost_source-refs id = elim (delete_cost_source_effect e db id) [
    | inl eq ↦ moved eq h
    | inr eq ↦ moved eq (cascade_source-refs db h id)
  ]

  pub remove_group_member-refs : (g u : String) → HasReferences (remove_group_member e g u db).1
  unfolding delete
  remove_group_member-refs g u = elim (remove_group_member_effect e db g u) [
    | inl eq ↦ moved eq h
    | inr eq ↦ moved eq (
        Refs-members _ h (All-select _ _ _ (λ m _ p. p) db.group_members h.members_group)
          (All-select _ _ _ (λ m _ p. p) db.group_members h.members_user))
  ]

  pub remove_project_role-refs : (p t s : String) → HasReferences (remove_project_role e p t s db).1
  unfolding delete
  remove_project_role-refs p t s = elim (remove_project_role_effect e db p t s) [
    | inl eq ↦ moved eq h
    | inr eq ↦ moved eq (Refs-roles _ h (All-select _ _ _ (λ r _ p. p) db.project_roles h.roles))
  ]

  pub delete_budget-refs : (id : String) → HasReferences (delete_budget e id db).1
  unfolding delete
  delete_budget-refs id = elim (delete_budget_effect e db id) [
    | inl eq ↦ moved eq h
    | inr eq ↦ moved eq (
        Refs-budgets _ h (All-select _ _ _ (λ b _ p. p) db.budgets h.budgets_project)
          (All-select _ _ _ (λ b _ p. p) db.budgets h.budgets_source))
  ]
