-- ===== src/Server/Api/Settings.antt =====
-- The routes below /api/v1 on a server with the settings of internal/config/config.go.
use fin_guard.Prelude.{
  String, none, some, false, List, ◌≡◌, ap, ◌∙◌, ◌⊎◌, inl, inr, Bool, true, Bool-cases, arith,
  eq_iff,
}
use fin_guard.Float64.{Float64}
use fin_guard.Models.{Time}
use fin_guard.Store.Db.{Db, Env}
use fin_guard.Config.{Config, env_or, env_bool, load}
use fin_guard.Auth.Session.{SessionData}
use fin_guard.Auth.Web
use fin_guard.Auth.Setup.{Manager, is_disabled, new_manager}
use fin_guard.Stream.{Hub}
use fin_guard.Server.Api.{Asked, denied, Parts, handled, api}
use fin_guard.Server.Api.Guard.{HasSession, api_guarded, api_open}

new_manager-disabled :
    (discovers : String → Bool) (cfg : Config) (m : Manager)
    → new_manager discovers cfg ≡ some m
    → m.disabled ≡ is_disabled cfg
unfolding new_manager
new_manager-disabled discovers cfg m h = elim (Bool-cases (is_disabled cfg)) [
  | inl e ↦ ground (arith, h, e)
  | inr e ↦ ground (arith, h, e)
]

load_disabled :
    (getenv : String → String) (split : String → List String)
    → is_disabled (load getenv split) ≡ true
    → (env_bool getenv "FINGUARD_AUTH_DISABLED" ≡ true) ⊎ (getenv "FINGUARD_OIDC_ISSUER" ≡ "")
unfolding load env_or
load_disabled getenv split h = elim (Bool-cases (env_bool getenv "FINGUARD_AUTH_DISABLED")) [
  | inl e ↦ inl e
  | inr e ↦ inr (ground (arith, h, e, eq_iff (getenv "FINGUARD_OIDC_ISSUER") ""))
]

load_enabled :
    (getenv : String → String) (split : String → List String)
    → is_disabled (load getenv split) ≡ false
    → (env_bool getenv "FINGUARD_AUTH_DISABLED" ≡ false) × ¬ (getenv "FINGUARD_OIDC_ISSUER" ≡ "")
unfolding load env_or
load_enabled getenv split h = (
  ground (arith, h),
  λ issuer. absurd (ground (arith, h, issuer, eq_iff (getenv "FINGUARD_OIDC_ISSUER") "")),
)

module _ (F : Float64) {W : Type 0} (parts : Parts F.Carrier W) (reading e : Env) where
  open F use {Carrier}

  -- On a server whose authentication manager is the one that NewManager makes of the variables of the
  -- environment: either FINGUARD_AUTH_DISABLED switches the authentication off or no OIDC issuer is
  -- given, and then every request to a route below /api/v1, that of the event stream included, is
  -- handled without a session; or neither is so, and the request is answered with 401, and leaves the
  -- tables, the plugins' state and the hub as they were, or is handled with the session in force that its
  -- cookie holds.
  pub api_configured :
      (getenv : String → String) (split : String → List String) (discovers : String → Bool)
      (m : Manager) (now : Time) (r : Web.Request) (asked : Asked) (state : Db Carrier × W × Hub)
      → new_manager discovers (load getenv split) ≡ some m
      → parts.auth ≡ some m.disabled
      → (((env_bool getenv "FINGUARD_AUTH_DISABLED" ≡ true) ⊎ (getenv "FINGUARD_OIDC_ISSUER" ≡ ""))
          × (api F parts reading e now r asked state ≡ handled F parts reading e none asked state))
        ⊎ ((env_bool getenv "FINGUARD_AUTH_DISABLED" ≡ false)
            × ¬ (getenv "FINGUARD_OIDC_ISSUER" ≡ "")
            × (((text : String) × (api F parts reading e now r asked state
                    ≡ (denied 401 text, state)))
                ⊎ ((session : SessionData) × HasSession parts.codec now r session
                    × (api F parts reading e now r asked state
                        ≡ handled F parts reading e (some session) asked state))))
  api_configured getenv split discovers m now r asked state h a =
      let off = new_manager-disabled discovers (load getenv split) m h in
      elim (Bool-cases (is_disabled (load getenv split))) [
        | inl open_to_all ↦ inl (
          load_disabled getenv split open_to_all,
          api_open F parts reading e now r asked state (a ∙ ap some (off ∙ open_to_all)),
        )
        | inr closed ↦
            let (flag, issuer) = load_enabled getenv split closed in
            inr (
              flag,
              issuer,
              api_guarded F parts reading e now r asked state (a ∙ ap some (off ∙ closed)),
            )
      ]
