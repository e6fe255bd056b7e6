-- ===== src/Auth/Setup.antt =====
-- `NewManager` of internal/auth/auth.go. `discovers` tells whether oidc.NewProvider succeeds at an issuer.
use fin_guard.Prelude.{
  String, Option, none, some, List, [], Bool, true, false, not, ◌||◌, ◌==◌, if◌then◌else◌,
}
use fin_guard.Config.{Config}

pub record Manager : Type 0 where
  pub disabled : Bool
  pub client_id : String
  pub client_secret : String
  pub redirect_url : String
  pub scopes : List String
  -- `none` is a random key
  pub session_key : Option String

abbrev pub is_disabled : Config → Bool
is_disabled cfg = cfg.auth_disabled || cfg.oidc_issuer == ""

-- `none` is an error.
unfoldable pub new_manager : (String → Bool) → Config → Option Manager
new_manager discovers cfg =
    if is_disabled cfg
    then some (record {
      disabled = true;
      client_id = "";
      client_secret = "";
      redirect_url = "";
      scopes = [];
      session_key = none;
    })
    else if not (discovers cfg.oidc_issuer)
    then none
    else some (record {
      disabled = false;
      client_id = cfg.oidc_client_id;
      client_secret = cfg.oidc_client_secret;
      redirect_url = cfg.oidc_redirect_url;
      scopes = cfg.oidc_scopes;
      session_key = if cfg.session_secret == "" then none else some cfg.session_secret;
    })
