-- ===== src/Auth/Rbac/Grants.antt =====
-- When `hasSufficientRole` says yes, as a relation.
use mathlib.Core.List.{Memᴰ}
use fin_guard.Prelude.{
  ◌≤◌, String, Option, none, some, List, [], ◌∷◌, ◌≡◌, ◌≢◌, ◌↔◌, inl, inr, refl, Bool, true, arith,
  eq_iff, any, Result, ok, err, Bool-cases,
}
use fin_guard.Models.{ProjectRole, Group, subject_group}
use fin_guard.Auth.Session.{SessionData}
use fin_guard.Auth.Rbac.{
  RoleStore, role_level, is_platform_admin, is_group_role, group_role_among, claim_grants,
  groups_grant, decide, has_sufficient_role,
}

-- A row that passes a test, and where it stands.
module _ {A : Type 0} (p : A → Bool) where
  pub found_in : (xs : List A) → any p xs ≡ true → (x : A) × Memᴰ x xs × (p x ≡ true)
  unfolding any
  found_in [] h = absurd (ground arith)
  found_in (x ∷ xs) h = elim (Bool-cases (p x)) [
    | inl e ↦ (x, Memᴰ.head refl, e)
    | inr e ↦ let (y, m, q) = found_in xs (ground arith) in (y, Memᴰ.tail m, q)
  ]

  pub any_of : (xs : List A) (x : A) → Memᴰ x xs → p x ≡ true → any p xs ≡ true
  unfolding any
  any_of [] x m h = elim m [ ]
  any_of (y ∷ ys) x (Memᴰ.head e) h = rw (← e, h) refl
  any_of (y ∷ ys) x (Memᴰ.tail m) h = ground (arith, any_of ys x m h)

module _ (st : RoleStore) (session : SessionData) (project_id min_role : String) where
  open st use {get_user_project_role, list_project_roles, get_group_by_oidc_claim}

  -- One of the groups of the session has a role that suffices.
  pub record ByGroup : Type 0 where
    pub claim : String
    pub claimed : Memᴰ claim session.groups
    pub group : Group
    pub found : get_group_by_oidc_claim claim ≡ ok (some group)
    pub roles : List ProjectRole
    pub listed : list_project_roles project_id ≡ ok roles
    pub role : ProjectRole
    pub assigned : Memᴰ role roles
    pub kind : role.subject_type ≡ subject_group
    pub subject : role.subject_id ≡ group.id
    pub level : role_level min_role ≤ role_level role.role

  -- No role of the user alone: there is none, or it could not be read.
  abbrev pub NoDirect : Type 0
  NoDirect = (pr : ProjectRole) → get_user_project_role project_id session.user_id ≢ ok (some pr)

  pub data Sufficient : Type 0 where
    as_admin : is_platform_admin st session ≡ true → Sufficient
    direct :
        (pr : ProjectRole)
        → get_user_project_role project_id session.user_id ≡ ok (some pr)
        → role_level min_role ≤ role_level pr.role
        → Sufficient
    by_group : NoDirect → ByGroup → Sufficient

  group_role_sound :
      (claim : String) (group : Group) (answer : Result (List ProjectRole))
      → Memᴰ claim session.groups
      → get_group_by_oidc_claim claim ≡ ok (some group)
      → list_project_roles project_id ≡ answer
      → group_role_among group.id min_role answer ≡ true
      → ByGroup
  unfolding group_role_among
  group_role_sound claim group (ok roles) m found listed h =
      let (role, at, passes) = found_in (is_group_role group.id min_role) roles h in
      record {
        claim = claim;
        claimed = m;
        group = group;
        found = found;
        roles = roles;
        listed = listed;
        role = role;
        assigned = at;
        kind = ground (arith, eq_iff role.subject_type subject_group);
        subject = ground (arith, eq_iff role.subject_id group.id);
        level = ground arith;
      }
  group_role_sound claim group (err e) m found listed h = absurd (ground arith)

  claim_grants_sound :
      (claim : String) (answer : Result (Option Group))
      → Memᴰ claim session.groups
      → get_group_by_oidc_claim claim ≡ answer
      → claim_grants st project_id min_role answer ≡ true
      → ByGroup
  unfolding claim_grants
  claim_grants_sound claim (ok (some group)) m found h =
      group_role_sound claim group (list_project_roles project_id) m found refl h
  claim_grants_sound claim (ok none) m found h = absurd (ground arith)
  claim_grants_sound claim (err e) m found h = absurd (ground arith)

  groups_grant_sound : groups_grant st project_id min_role session.groups ≡ true → ByGroup
  unfolding groups_grant
  groups_grant_sound h =
      let (claim, m, grants) =
        found_in (λ c. claim_grants st project_id min_role (get_group_by_oidc_claim c))
          session.groups h in
      claim_grants_sound claim (get_group_by_oidc_claim claim) m refl grants

  groups_grant_complete : ByGroup → groups_grant st project_id min_role session.groups ≡ true
  unfolding groups_grant claim_grants group_role_among
  groups_grant_complete b =
      any_of (λ c. claim_grants st project_id min_role (get_group_by_oidc_claim c)) session.groups
        b.claim b.claimed
        (rw (b.found, b.listed)
          (any_of (is_group_role b.group.id min_role) b.roles b.role b.assigned (
            ground (
              arith,
              b.kind,
              b.subject,
              b.level,
              eq_iff b.role.subject_type subject_group,
              eq_iff b.role.subject_id b.group.id,
            ))))

  decide_sound :
      (answer : Result (Option ProjectRole))
      → get_user_project_role project_id session.user_id ≡ answer
      → decide st session project_id min_role answer ≡ true
      → Sufficient
  unfolding decide
  decide_sound (ok (some pr)) found h = direct pr found (ground arith)
  decide_sound (ok none) found h = by_group (λ pr e. ground arith) (groups_grant_sound h)
  decide_sound (err x) found h = by_group (λ pr e. ground arith) (groups_grant_sound h)

  decide_complete :
      (answer : Result (Option ProjectRole))
      → get_user_project_role project_id session.user_id ≡ answer
      → NoDirect
      → ByGroup
      → decide st session project_id min_role answer ≡ true
  unfolding decide
  decide_complete (ok (some pr)) found n b = absurd (n pr found)
  decide_complete (ok none) found n b = groups_grant_complete b
  decide_complete (err x) found n b = groups_grant_complete b

  sufficient_sound : has_sufficient_role st session project_id min_role ≡ true → Sufficient
  unfolding has_sufficient_role
  sufficient_sound h = elim (Bool-cases (is_platform_admin st session)) [
    | inl admin ↦ as_admin admin
    | inr plain ↦ decide_sound _ refl (rw plain at h)
  ]

  sufficient_complete : Sufficient → has_sufficient_role st session project_id min_role ≡ true
  unfolding has_sufficient_role
  sufficient_complete (as_admin admin) = rw admin refl
  sufficient_complete (direct pr found level) = ground arith
  sufficient_complete (by_group n b) = ground (arith, decide_complete _ refl n b)

-- `hasSufficientRole` says yes exactly to a platform admin, to a user whose own role on the project is
-- of the level asked for or above it, and, where the look-up finds no role of the user's own, to a
-- user one of whose groups has such a role on the project.
pub has_sufficient_role-Sufficient :
    (st : RoleStore) (session : SessionData) (project_id min_role : String)
    → (has_sufficient_role st session project_id min_role ≡ true)
      ↔ Sufficient st session project_id min_role
has_sufficient_role-Sufficient st session project_id min_role = (
  sufficient_sound st session project_id min_role,
  sufficient_complete st session project_id min_role,
)
