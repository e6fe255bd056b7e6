-- ===== src/Tests/Api.antt =====
-- Requests behind the middleware, and a connection of the event stream.
use fin_guard.Prelude.{
  ℕ, String, none, some, List, [], ◌∷◌, ◌++◌, ◌≡◌, refl, ◌⊎◌, Bool, true, false, if◌then◌else◌,
  ◌==◌,
}
use fin_guard.Float64.{whole}
use fin_guard.Auth.Session.{SessionData}
use fin_guard.Auth.Web
use fin_guard.Auth.Web.{Codec, plain, error_json}
use fin_guard.Server.Api.{Parts, Asked, stream, denied, handled, api}
use fin_guard.Server.Api.Guard.{HasSession, api_guarded}
use fin_guard.Config.{load, env_or, env_bool, env_slice}
use fin_guard.Auth.Setup.{Manager, new_manager}
use fin_guard.Server.Api.Settings.{api_configured}
use fin_guard.Server.Connection.{
  Moment, reads, writes, meanwhile, context_done, waiting, returned, handle_stream,
}
use fin_guard.Server.Connection.Ends.{is_returned, ends, handle_stream-returns}
use fin_guard.Stream.{Hub, Payload, new_hub}
use fin_guard.Stream.Safety.{Reachable, starts}
use fin_guard.OpenCost.{unreachable}
use fin_guard.Plugins.Manager.{responded}
use fin_guard.Tests.Fixtures.{up, small}

abbrev session : SessionData
session = record {
  user_id = "u1";
  email = "ann@x";
  display_name = "Ann";
  groups = [];
  expires_at = 50;
}

abbrev codec : Codec
codec = record {
  encode = λ name text. some text;
  decode = λ name text. some text;
  marshal = λ s. some s.email;
  unmarshal = λ text. if text == "ann@x" then some session else none;
}

-- A server with no plugins.
abbrev server : Bool → Parts ℕ ℕ
server disabled = record {
  auth = some disabled;
  codec = codec;
  healthy = none;
  http = record {
    parse = λ url query. none;
    accepts = λ method url. false;
    exchange = λ method url header body. unreachable "";
  };
  base_url = "http://o";
  mock = none;
  cache = none;
  manager = none;
  visit = λ ps. ps;
  instances = record {
    get_metadata = λ p w. none;
    initialize = λ p req w. (true, w);
    execute = λ p req w.
        (responded (record { body = ""; content_type = ""; status_code = 0; error = "" }), w);
    shutdown = λ p w. w;
  };
}

abbrev signed_in_request : Web.Request
signed_in_request = record { cookie = λ name. some "ann@x"; query = λ name. "" }

abbrev moments : List Moment
moments =
    meanwhile "system" (some "hello")
    ∷ reads (some ("subscribe", "system" ∷ []))
    ∷ writes true
    ∷ context_done
    ∷ []

-- A connection to the event stream.
abbrev watching : Asked
watching = stream true (some "welcome") moments

api_guarded_example :
    ((text : String) × (api whole
          (server false)
          up
          up
          20
          signed_in_request
          watching
          (small, 0, new_hub)
        ≡ (denied 401 text, (small, 0, new_hub))))
    ⊎ ((s : SessionData) × HasSession codec 20 signed_in_request s
        × (api whole (server false) up up 20 signed_in_request watching (small, 0, new_hub)
            ≡ handled whole (server false) up up (some s) watching (small, 0, new_hub)))
api_guarded_example =
    api_guarded whole (server false) up up 20 signed_in_request watching (small, 0, new_hub) refl

-- The client subscribes and gets an event; then its context is done.
abbrev waiting_moments : List Moment
waiting_moments =
    meanwhile "system" (some "hello") ∷ reads (some ("subscribe", "system" ∷ [])) ∷ writes true ∷ []

handle_stream-returns_example :
    ((written : List Payload) × (h' : Hub) × (handle_stream true
          (some "welcome")
          waiting_moments
          new_hub
        ≡ returned written h')
      × Reachable h'
      × (h'.clients ≡ [])
      × ((h'.cell 0).closed ≡ true))
    ⊎ ((reading : Bool) × (written : List Payload) × (h' : Hub) × (handle_stream true
            (some "welcome")
            waiting_moments
            new_hub
          ≡ waiting reading written h')
        × Reachable h'
        × (h'.clients ≡ 0 ∷ [])
        × (is_returned
              (handle_stream true (some "welcome") (waiting_moments ++ context_done ∷ []) new_hub)
            ≡ ends 0 h' context_done))
handle_stream-returns_example =
    handle_stream-returns (some "welcome") waiting_moments context_done new_hub starts

abbrev variables : String → String
variables key = if key == "FINGUARD_OIDC_ISSUER" then "https://dex" else ""

abbrev manager : Manager
manager = record {
  disabled = false;
  client_id = "finguard";
  client_secret = "";
  redirect_url = "";
  scopes = "openid" ∷ "profile" ∷ "email" ∷ "groups" ∷ [];
  session_key = none;
}

api_configured_example :
    (((env_bool variables "FINGUARD_AUTH_DISABLED" ≡ true)
        ⊎ (variables "FINGUARD_OIDC_ISSUER" ≡ ""))
      × (api whole (server false) up up 90 signed_in_request watching (small, 0, new_hub)
          ≡ handled whole (server false) up up none watching (small, 0, new_hub)))
    ⊎ ((env_bool variables "FINGUARD_AUTH_DISABLED" ≡ false)
        × ¬ (variables "FINGUARD_OIDC_ISSUER" ≡ "")
        × (((text : String) × (api whole
                  (server false)
                  up
                  up
                  90
                  signed_in_request
                  watching
                  (small, 0, new_hub)
                ≡ (denied 401 text, (small, 0, new_hub))))
            ⊎ ((s : SessionData) × HasSession codec 90 signed_in_request s
                × (api whole (server false) up up 90 signed_in_request watching (small, 0, new_hub)
                    ≡ handled whole (server false) up up (some s) watching (small, 0, new_hub)))))
unfolding new_manager load env_or env_bool env_slice
api_configured_example =
    api_configured whole (server false) up up variables (λ v. []) (λ issuer. true) manager 90
      signed_in_request watching (small, 0, new_hub) refl refl
