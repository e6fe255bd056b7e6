-- ===== src/Tests/Auth.antt =====
-- A sign-in with a provider that vouches for one code, and the checks of roles.
use fin_guard.Prelude.{
  String, Option, none, some, List, [], ◌∷◌, ◌≡◌, ◌≢◌, ◌↔◌, ◌⊎◌, refl, Bool, true, false, ok, any,
  first, nat_eq, ◌&&◌, eq_iff, arith, ◌==◌, ap, if◌then◌else◌,
}
use fin_guard.Models.{User}
use fin_guard.Store.Projects.{create_project}
use fin_guard.Store.Users.{create_user, get_user_by_oidc_subject, get_user_by_email, scan_user}
use fin_guard.Store.Call.{run, start, next, creating_project}
use fin_guard.Auth.Session.{SessionData, serve, deny}
use fin_guard.Auth.Web.{Request, Claims, Oidc, Codec, redirect}
use fin_guard.Auth.Provision.{ProvisionEnvs, provision_user}
use fin_guard.Auth.Provision.Again.{provision_user_again}
use fin_guard.Auth.Manager.{middleware, session_cookie, encode_session}
use fin_guard.Auth.Callback.{handle_callback, session_of, after_drop}
use fin_guard.Auth.Callback.Sessions.{
  IsLossless, Passed, Vouched, authenticate, handle_callback-authenticate,
  middleware-handle_callback,
}
use fin_guard.Auth.Rbac.{is_platform_admin, has_sufficient_role, require_project_role}
use fin_guard.Auth.Rbac.Admin.{role_store, is_platform_admin_needs_global}
use fin_guard.Auth.Rbac.Grants.{Sufficient, has_sufficient_role-Sufficient}
use fin_guard.Auth.Rbac.Middleware.{MayPass, require_project_role_verdict}
use fin_guard.Tests.Fixtures.{up, json, ann, small, nothing, beta}

abbrev claims : Claims
claims = record { email = "ann@x"; name = "Ann"; groups = []; subject = "sub1" }

-- Tokens are texts, and `code1` is the code that was handed out.
abbrev oidc : Oidc String String
oidc = record {
  auth_code_url = λ state. state;
  exchange = λ code. if code == "code1" then some "token" else none;
  id_token = λ token. some "raw";
  verify = λ raw. some "id";
  claims = λ token. some claims;
}

abbrev envs : ProvisionEnvs
envs = record {
  by_subject = up;
  by_email = up;
  creating = up;
  syncing = λ n. record { looking = up; creating = up; adding = up };
}

abbrev session : SessionData
session = session_of (scan_user ann) claims 1000

-- A codec that writes the session of `ann` and no other.
is_empty : List String → Bool
is_empty [] = true
is_empty (g ∷ gs) = false

is_ann : SessionData → Bool
is_ann s =
    (s.user_id == "u1" && s.email == "ann@x")
    && (s.display_name == "Ann" && is_empty s.groups)
    && nat_eq s.expires_at 86400000001000

abbrev codec : Codec
unfolding is_ann is_empty
codec = record {
  encode = λ name text. some text;
  decode = λ name value. some value;
  marshal = λ s. if is_ann s then some "ann" else none;
  unmarshal = λ text. some session;
}

is_empty_lem : (gs : List String) → is_empty gs ≡ true → gs ≡ []
unfolding is_empty
is_empty_lem [] h = refl
is_empty_lem (g ∷ gs) h = absurd (ground arith)

is_ann_lem : (s : SessionData) → is_ann s ≡ true → session ≡ s
unfolding is_ann
is_ann_lem s h = ground (
  arith,
  eq_iff s.user_id "u1",
  eq_iff s.email "ann@x",
  eq_iff s.display_name "Ann",
  is_empty_lem s.groups,
)

codec-IsLossless : IsLossless codec
unfolding codec
codec-IsLossless = record {
  cookie = λ name text v h. ground (arith, h);
  json = λ s text h. ground (arith, h, is_ann_lem s);
}

-- The browser comes back with the state that it was sent with, and later with the session cookie.
abbrev returning : Request
returning = record {
  cookie = λ name. if name == "finguard_oauth_state" then some "st" else none;
  query = λ name. if name == "state" then "st" else if name == "code" then "code1" else "";
}

abbrev visiting : Request
visiting = record {
  cookie = λ name. if name == "finguard_session" then some "ann" else none;
  query = λ name. "";
}

signed_in :
    (handle_callback oidc codec envs 1000 false returning small).0
    ≡ after_drop (session_cookie "ann" ∷ []) (redirect "/")
unfolding handle_callback provision_user get_user_by_oidc_subject first encode_session codec is_ann
    is_empty
signed_in = refl

handle_callback-authenticate_example :
    Passed returning (some "st")
    × Vouched oidc codec envs 1000 small
        (handle_callback oidc codec envs 1000 false returning small).0
        (authenticate oidc "code1")
unfolding any
handle_callback-authenticate_example =
    handle_callback-authenticate oidc codec envs 1000 returning small (rw signed_in refl)

middleware-handle_callback_example :
    (c : Claims) × (user : User) × (authenticate oidc "code1" ≡ some c)
    × ((provision_user envs c.subject c.email c.name c.groups small).0 ≡ ok user)
    × (middleware false codec 2000 visiting ≡ serve (some (session_of user c 1000)))
middleware-handle_callback_example =
    middleware-handle_callback oidc codec envs 1000 returning visiting 2000 "ann" small
      codec-IsLossless signed_in refl

given_subject : ◌≢◌ {A = String} "sub2" ""
given_subject e = absurd (ground (arith, ap (λ s. s == "sub2") e))

provision_user_again_example :
    (provision_user envs "sub2" "bob@x" ""
      ("devs" ∷ "ops" ∷ [])
      (provision_user envs "sub2" "bob@x" "" ("devs" ∷ "ops" ∷ []) small).1).0
    ≡ ok (record {
      id = "new";
      email = "bob@x";
      display_name = "bob@x";
      oidc_subject = "sub2";
      created_at = 7;
    })
unfolding provision_user get_user_by_oidc_subject get_user_by_email create_user first any
provision_user_again_example =
    provision_user_again envs envs "sub2" "bob@x" "" ("devs" ∷ "ops" ∷ [])
      (record {
        id = "new";
        email = "bob@x";
        display_name = "bob@x";
        oidc_subject = "sub2";
        created_at = 7;
      })
      small given_subject refl refl refl

has_sufficient_role-Sufficient_example :
    (has_sufficient_role (role_store up small) session "p1" "viewer" ≡ true)
    ↔ Sufficient (role_store up small) session "p1" "viewer"
has_sufficient_role-Sufficient_example =
    has_sufficient_role-Sufficient (role_store up small) session "p1" "viewer"

require_project_role_verdict_example :
    ((require_project_role (role_store up small) false "editor" "p1" none ≡ serve none)
      ↔ MayPass (role_store up small) false "editor" "p1" none)
    × ((require_project_role (role_store up small) false "editor" "p1" none ≡ serve none)
        ⊎ ((require_project_role (role_store up small) false "editor" "p1" none
              ≡ deny 401 "authentication required")
            × (◌≡◌ {A = Option SessionData} none none))
        ⊎ ((require_project_role (role_store up small) false "editor" "p1" none
              ≡ deny 403 "insufficient permissions")
            × (◌≢◌ {A = Option SessionData} none none)))
require_project_role_verdict_example =
    require_project_role_verdict (role_store up small) false "editor" "p1" none

is_platform_admin_needs_global_example :
    is_platform_admin (role_store up (run json (creating_project up beta) nothing).1) session
    ≡ false
unfolding run create_project any
is_platform_admin_needs_global_example =
    is_platform_admin_needs_global json up (run json (creating_project up beta) nothing).1 session
      (next start (creating_project up beta)) refl
