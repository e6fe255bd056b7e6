-- ===== src/Auth/Rbac/Middleware.antt =====
-- What the two middlewares let through.
use fin_guard.Prelude.{
  String, Option, none, some, ◌≡◌, ◌≢◌, ◌↔◌, ◌⊎◌, inl, inr, refl, Bool, true, false, arith, eq_iff,
}
use fin_guard.Auth.Session.{SessionData, serve, deny}
use fin_guard.Auth.Rbac.{RoleStore, has_sufficient_role, require_project_role}

-- When `RequireProjectRole` lets a request on: the checks are off, or there is a session and either no
-- project is named or its role suffices.
abbrev pub MayPass : RoleStore → Bool → String → String → Option SessionData → Type 0
MayPass st disabled min_role project_id session =
    (disabled ≡ true)
    ⊎ ((s : SessionData) × (session ≡ some s)
        × ((project_id ≡ "") ⊎ (has_sufficient_role st s project_id min_role ≡ true)))

module _ (st : RoleStore) (min_role project_id : String) where
  passes :
      (disabled : Bool) (session : Option SessionData)
      → MayPass st disabled min_role project_id session
      → require_project_role st disabled min_role project_id session ≡ serve session
  unfolding require_project_role
  passes true session h = refl
  passes false none h = ground arith
  passes false (some s) h = ground (arith, eq_iff project_id "")

  may_pass :
      (disabled : Bool) (session : Option SessionData)
      → require_project_role st disabled min_role project_id session ≡ serve session
      → MayPass st disabled min_role project_id session
  unfolding require_project_role
  may_pass true session h = inl refl
  may_pass false none h = absurd (ground arith)
  may_pass false (some s) h = inr (s, refl, ground (arith, eq_iff project_id ""))

  refusals :
      (disabled : Bool) (session : Option SessionData)
      → (require_project_role st disabled min_role project_id session ≡ serve session)
        ⊎ ((require_project_role st disabled min_role project_id session
              ≡ deny 401 "authentication required")
            × (session ≡ none))
        ⊎ ((require_project_role st disabled min_role project_id session
              ≡ deny 403 "insufficient permissions")
            × (session ≢ none))
  unfolding require_project_role
  refusals true session = inl refl
  refusals false none = inr (inl (refl, refl))
  refusals false (some s) = ground arith

-- `RequireProjectRole` hands a request on, with the session that it had, exactly when the checks are
-- off, or there is a session and either no project is named or its role on the project suffices. Every
-- other request is answered: 401 where there is no session, 403 where there is one.
pub require_project_role_verdict :
    (st : RoleStore) (disabled : Bool) (min_role project_id : String) (session : Option SessionData)
    → ((require_project_role st disabled min_role project_id session ≡ serve session)
        ↔ MayPass st disabled min_role project_id session)
      × ((require_project_role st disabled min_role project_id session ≡ serve session)
          ⊎ ((require_project_role st disabled min_role project_id session
                ≡ deny 401 "authentication required")
              × (session ≡ none))
          ⊎ ((require_project_role st disabled min_role project_id session
                ≡ deny 403 "insufficient permissions")
              × (session ≢ none)))
require_project_role_verdict st disabled min_role project_id session = (
  (
    may_pass st min_role project_id disabled session,
    passes st min_role project_id disabled session,
  ),
  refusals st min_role project_id disabled session,
)
