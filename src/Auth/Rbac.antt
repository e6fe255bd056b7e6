-- ===== src/Auth/Rbac.antt =====
-- internal/auth/rbac.go. The checks read the store; one check sees one state of it.
pub mod Grants
pub mod Middleware
pub mod Admin
use fin_guard.Prelude.{
  ℕ, String, Option, none, some, List, [], ◌∷◌, Bool, true, false, ◌&&◌, ◌||◌, ◌==◌, if◌then◌else◌,
  leb, any, Result, ok, err,
}
use fin_guard.Models.{
  ProjectRole, Group, role_platform_admin, role_admin, role_editor, role_viewer, subject_user,
  subject_group,
}
use fin_guard.Auth.Session.{SessionData, Verdict, serve, deny}

-- The methods of `store.Store` that the checks call.
pub record RoleStore : Type 0 where
  pub get_user_project_role : String → String → Result (Option ProjectRole)
  pub list_project_roles : String → Result (List ProjectRole)
  pub get_group_by_oidc_claim : String → Result (Option Group)

unfoldable pub role_level : String → ℕ
role_level role =
    if role == role_platform_admin
    then 100
    else if role == role_admin
    then 30
    else if role == role_editor
    then 20
    else if role == role_viewer
    then 10
    else 0

abbrev pub is_admin_role : String → ProjectRole → Bool
is_admin_role user_id r =
    r.role == role_platform_admin && r.subject_type == subject_user && r.subject_id == user_id

pub admin_among : String → Result (List ProjectRole) → Bool
admin_among user_id (err e) = false
admin_among user_id (ok roles) = any (is_admin_role user_id) roles

-- The test of the innermost loop.
abbrev pub is_group_role : String → String → ProjectRole → Bool
is_group_role group_id min_role r =
    (r.subject_type == subject_group && r.subject_id == group_id)
    && leb (role_level min_role) (role_level r.role)

pub group_role_among : String → String → Result (List ProjectRole) → Bool
group_role_among group_id min_role (err e) = false
group_role_among group_id min_role (ok roles) = any (is_group_role group_id min_role) roles

module _ (st : RoleStore) where
  open st use {get_user_project_role, list_project_roles, get_group_by_oidc_claim}

  unfoldable pub is_platform_admin : SessionData → Bool
  unfolding admin_among
  is_platform_admin session = admin_among session.user_id (list_project_roles "_global")

  -- One round of the loop over the groups; `false` is `continue`.
  pub claim_grants : String → String → Result (Option Group) → Bool
  claim_grants project_id min_role (ok (some group)) =
      group_role_among group.id min_role (list_project_roles project_id)
  claim_grants project_id min_role _ = false

  unfoldable pub groups_grant : String → String → List String → Bool
  groups_grant project_id min_role claims =
      any (λ claim. claim_grants project_id min_role (get_group_by_oidc_claim claim)) claims

  -- The direct role decides where there is one, and the groups where there is none or the look-up
  -- failed.
  pub decide : SessionData → String → String → Result (Option ProjectRole) → Bool
  decide session project_id min_role (ok (some pr)) = leb (role_level min_role) (role_level pr.role)
  decide session project_id min_role _ = groups_grant project_id min_role session.groups

  unfoldable pub has_sufficient_role : SessionData → String → String → Bool
  unfolding decide groups_grant claim_grants group_role_among
  has_sufficient_role session project_id min_role =
      if is_platform_admin session
      then true
      else decide session project_id min_role (get_user_project_role project_id session.user_id)

  unfoldable pub require_project_role : Bool → String → String → Option SessionData → Verdict
  require_project_role true min_role project_id session = serve session
  require_project_role false min_role project_id none = deny 401 "authentication required"
  require_project_role false min_role project_id (some session) =
      if project_id == ""
      then serve (some session)
      else if has_sufficient_role session project_id min_role
      then serve (some session)
      else deny 403 "insufficient permissions"

  unfoldable pub require_platform_admin : Bool → Option SessionData → Verdict
  require_platform_admin true session = serve session
  require_platform_admin false none = deny 401 "authentication required"
  require_platform_admin false (some session) =
      if is_platform_admin session then serve (some session) else deny 403 "platform admin required"
