-- ===== src/Auth/Callback.antt =====
-- `HandleCallback` of internal/auth/auth.go: the return from the identity provider.
pub mod Sessions
use fin_guard.Prelude.{
  ℕ, ◌+◌, String, Option, none, some, List, [], ◌∷◌, Bool, true, false, not, ◌==◌, if◌then◌else◌,
  Result, ok, err,
}
use fin_guard.Models.{Time, User}
use fin_guard.Store.Db.{Db, Env}
use fin_guard.Auth.Session.{SessionData}
use fin_guard.Auth.Web.{
  Request, Response, SetCookie, Claims, Oidc, Codec, Outcome, plain, error_json, redirect,
}
use fin_guard.Auth.Provision.{ProvisionEnvs, provision_user}
use fin_guard.Auth.Manager.{
  state_cookie_name, session_lifetime, encode_session, dropped, session_cookie,
}

-- `return` after the state cookie was dropped.
abbrev pub after_drop : List SetCookie → Outcome → Response
after_drop more o = record { cookies = dropped state_cookie_name ∷ more; outcome = o }

abbrev pub session_of : User → Claims → Time → SessionData
session_of user claims now = record {
  user_id = user.id;
  email = user.email;
  display_name = user.display_name;
  groups = claims.groups;
  expires_at = now + session_lifetime;
}

-- From the encoded session.
abbrev pub redirected : Option String → Response
redirected none = after_drop [] (error_json 500 "failed to create session")
redirected (some encoded) = after_drop (session_cookie encoded ∷ []) (redirect "/")

module _ {R T I : Type 0} (oidc : Oidc T I) (codec : Codec) (es : ProvisionEnvs) (now : Time) where
  -- From the user.
  abbrev pub signed_in : Claims → Result User × Db R → Response × Db R
  signed_in claims (err f, db) = (after_drop [] (error_json 500 "failed to provision user"), db)
  signed_in claims (ok user, db) =
      (redirected (encode_session codec (session_of user claims now)), db)

  -- From the claims.
  abbrev pub claimed : Option Claims → Db R → Response × Db R
  claimed none db = (after_drop [] (error_json 500 "failed to parse claims"), db)
  claimed (some c) db = signed_in c (provision_user es c.subject c.email c.name c.groups db)

  -- From the verified token.
  abbrev pub verified : Option I → Db R → Response × Db R
  verified none db = (after_drop [] (error_json 401 "invalid id token"), db)
  verified (some token) db = claimed (oidc.claims token) db

  -- From the raw token.
  abbrev pub presented : Option String → Db R → Response × Db R
  presented none db = (after_drop [] (error_json 500 "no id_token in response"), db)
  presented (some raw) db = verified (oidc.verify raw) db

  -- From the token of the exchange.
  abbrev pub exchanged : Option T → Db R → Response × Db R
  exchanged none db = (after_drop [] (error_json 500 "token exchange failed"), db)
  exchanged (some token) db = presented (oidc.id_token token) db

  -- From the state cookie.
  abbrev pub returned : Request → Option String → Db R → Response × Db R
  returned r none db = (plain (error_json 400 "missing state cookie"), db)
  returned r (some state) db =
      if state == ""
      then (plain (error_json 400 "missing state cookie"), db)
      else if not (r.query "state" == state)
      then (plain (error_json 400 "state mismatch"), db)
      else if r.query "code" == ""
      then (after_drop [] (error_json 400 "missing authorization code"), db)
      else exchanged (oidc.exchange (r.query "code")) db

  unfoldable pub handle_callback : Bool → Request → Db R → Response × Db R
  handle_callback true r db = (plain (redirect "/"), db)
  handle_callback false r db = returned r (r.cookie state_cookie_name) db
