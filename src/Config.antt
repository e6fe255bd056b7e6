-- ===== src/Config.antt =====
-- internal/config/config.go: the configuration that the variables of the environment give. `getenv` is
-- os.Getenv, empty where a variable is not set; `split` is strings.Split at a comma.
use fin_guard.Prelude.{String, List, [], ◌∷◌, Bool, ◌||◌, ◌==◌, if◌then◌else◌}

pub record Config : Type 0 where
  pub http_addr : String
  pub open_cost_url : String
  pub plugin_dir : String
  pub plugin_config_dir : String
  pub log_level : String
  pub dev_mode : Bool
  pub auth_disabled : Bool
  pub database_dsn : String
  pub oidc_issuer : String
  pub oidc_client_id : String
  pub oidc_client_secret : String
  pub oidc_redirect_url : String
  pub oidc_scopes : List String
  pub session_secret : String

module _ (getenv : String → String) where
  unfoldable pub env_or : String → String → String
  env_or key fallback = let v = getenv key in if v == "" then fallback else v

  unfoldable pub env_bool : String → Bool
  env_bool key = let v = getenv key in v == "true" || v == "1" || v == "yes"

  module _ (split : String → List String) where
    unfoldable pub env_slice : String → List String → List String
    env_slice key fallback = let v = getenv key in if v == "" then fallback else split v

    unfoldable pub load : Config
    unfolding env_or env_bool env_slice
    load = record {
      http_addr = env_or "FINGUARD_ADDR" ":8080";
      open_cost_url = env_or "OPENCOST_URL" "http://opencost.opencost.svc.cluster.local:9003";
      plugin_dir = env_or "FINGUARD_PLUGIN_DIR" "/opt/finguard/plugins/bin";
      plugin_config_dir = env_or "FINGUARD_PLUGIN_CONFIG_DIR" "/opt/finguard/plugins/config";
      log_level = env_or "FINGUARD_LOG_LEVEL" "info";
      dev_mode = env_bool "FINGUARD_DEV_MODE";
      auth_disabled = env_bool "FINGUARD_AUTH_DISABLED";
      database_dsn = env_or "FINGUARD_DB_DSN" "sqlite:///tmp/finguard.db";
      oidc_issuer = env_or "FINGUARD_OIDC_ISSUER" "";
      oidc_client_id = env_or "FINGUARD_OIDC_CLIENT_ID" "finguard";
      oidc_client_secret = env_or "FINGUARD_OIDC_CLIENT_SECRET" "";
      oidc_redirect_url = env_or "FINGUARD_OIDC_REDIRECT_URL" "";
      oidc_scopes =
          env_slice "FINGUARD_OIDC_SCOPES" ("openid" ∷ "profile" ∷ "email" ∷ "groups" ∷ []);
      session_secret = env_or "FINGUARD_SESSION_SECRET" "";
    }
