-- ===== src/Auth/Rbac/Admin.antt =====
-- Platform admins, where the roles are those of the relational store.
use fin_guard.Prelude.{
  String, List, [], ◌∷◌, ◌≡◌, refl, ap, true, false, ◌==◌, arith, eq_iff, All, any, select,
  Bool-cases, inl, inr,
}
use fin_guard.Models.{ProjectRole}
use fin_guard.Store.Db.{Db, Env, has_project}
use fin_guard.Store.Roles.{list_project_roles, get_user_project_role}
use fin_guard.Store.Groups.{get_group_by_oidc_claim}
use fin_guard.Store.Costs.{LabelsJson}
use fin_guard.Store.Call.{Reachable}
use fin_guard.Store.References.Calls.{Reachable-HasReferences}
use fin_guard.Auth.Session.{SessionData}
use fin_guard.Auth.Rbac.{RoleStore, is_platform_admin}

-- The store of internal/store/sql.go behind the checks.
abbrev pub role_store : {R : Type 0} → Env → Db R → RoleStore
role_store e db = record {
  get_user_project_role = λ project_id user_id. get_user_project_role e project_id user_id db;
  list_project_roles = λ project_id. list_project_roles e project_id db;
  get_group_by_oidc_claim = λ claim. get_group_by_oidc_claim e claim db;
}

-- No role is on a project that is not there.
select_missing :
    {R : Type 0} (db : Db R) (id : String) (rs : List ProjectRole)
    → has_project id db ≡ false
    → All (λ r. has_project r.project_id db ≡ true) rs
    → select (λ r. r.project_id == id) rs ≡ []
unfolding select
select_missing db id [] n h = refl
select_missing db id (r ∷ rs) n (p, h) = elim (Bool-cases (r.project_id == id)) [
  | inl same ↦ absurd (ground (arith, ap (λ k. has_project k db) ((eq_iff r.project_id id).0 same)))
  | inr other ↦ rw other (select_missing db id rs n h)
]

no_admin :
    {R : Type 0} (e : Env) (db : Db R) (session : SessionData)
    → select (λ r. r.project_id == "_global") db.project_roles ≡ []
    → is_platform_admin (role_store e db) session ≡ false
unfolding is_platform_admin list_project_roles any
no_admin e db session h = elim (Bool-cases e.fault) [
  | inl down ↦ rw down refl
  | inr up ↦ rw (up, h) refl
]

-- In every state that the calls of the store can reach, while no project has the id `_global`, nobody
-- is a platform admin: the roles that the check reads are rows on that project, and the reference of a
-- role to its project keeps such rows out.
pub is_platform_admin_needs_global :
    {R : Type 0} (json : LabelsJson) (e : Env) (db : Db R) (session : SessionData)
    → Reachable json db
    → has_project "_global" db ≡ false
    → is_platform_admin (role_store e db) session ≡ false
is_platform_admin_needs_global json e db session r n =
    no_admin e db session
      (select_missing db "_global" db.project_roles n (Reachable-HasReferences json r).roles)
