-- ===== src/Auth/Manager.antt =====
-- `Manager` of internal/auth/auth.go: the login, the logout and the middleware that checks sessions.
use fin_guard.Prelude.{
  ℕ, ◌*◌, String, Option, none, some, [], ◌∷◌, Bool, true, false, if◌then◌else◌, ltb,
}
use fin_guard.Models.{Time}
use fin_guard.Auth.Session.{SessionData, Verdict, serve, deny}
use fin_guard.Auth.Web.{
  Request, expired, seconds, SetCookie, Response, plain, Oidc, Codec, error_json, status_json,
  session_json, redirect,
}

abbrev pub session_cookie_name : String
session_cookie_name = "finguard_session"

abbrev pub state_cookie_name : String
state_cookie_name = "finguard_oauth_state"

-- In seconds, and in the nanoseconds of a time.
abbrev pub session_max_age : ℕ
session_max_age = 86400

abbrev pub session_lifetime : Time
session_lifetime = session_max_age * 1000000000

-- An error of json or of securecookie is `none`.
unfoldable pub encode_session : Codec → SessionData → Option String
encode_session codec session = elim (codec.marshal session) [
  | none ↦ none
  | some text ↦ codec.encode session_cookie_name text
]

unfoldable pub decode_session : Codec → String → Option SessionData
decode_session codec encoded = elim (codec.decode session_cookie_name encoded) [
  | none ↦ none
  | some text ↦ codec.unmarshal text
]

abbrev pub state_cookie : String → SetCookie
state_cookie state = record {
  name = state_cookie_name;
  value = state;
  path = "/";
  max_age = seconds 300;
  http_only = true;
  same_site_lax = true;
}

-- A cookie that tells the browser to drop the one of this name.
abbrev pub dropped : String → SetCookie
dropped name = record {
  name = name;
  value = "";
  path = "/";
  max_age = expired;
  http_only = false;
  same_site_lax = false;
}

abbrev pub session_cookie : String → SetCookie
session_cookie encoded = record {
  name = session_cookie_name;
  value = encoded;
  path = "/";
  max_age = seconds session_max_age;
  http_only = true;
  same_site_lax = true;
}

-- `generateState` gives `none` where rand.Read fails.
unfoldable pub handle_login : {T I : Type 0} → Bool → Oidc T I → Option String → Response
handle_login true oidc state = plain (status_json 200 "auth disabled")
handle_login false oidc none = plain (error_json 500 "failed to generate state")
handle_login false oidc (some state) = record {
  cookies = state_cookie state ∷ [];
  outcome = redirect (oidc.auth_code_url state);
}

unfoldable pub handle_logout : Response
handle_logout = record { cookies = dropped session_cookie_name ∷ []; outcome = redirect "/" }

-- The argument is `UserFromContext`.
unfoldable pub handle_user_info : Option SessionData → Response
handle_user_info none = plain (error_json 401 "not authenticated")
handle_user_info (some session) = plain (session_json 200 session)

-- The rest of the middleware, from the decoded session.
abbrev pub admit : Time → Option SessionData → Verdict
admit now none = deny 401 "invalid session"
admit now (some session) =
    if ltb session.expires_at now then deny 401 "session expired" else serve (some session)

-- From the value of the cookie.
abbrev pub check_cookie : Codec → Time → Option String → Verdict
check_cookie codec now none = deny 401 "authentication required"
check_cookie codec now (some encoded) = admit now (decode_session codec encoded)

unfoldable pub middleware : Bool → Codec → Time → Request → Verdict
middleware true codec now r = serve none
middleware false codec now r = check_cookie codec now (r.cookie session_cookie_name)
