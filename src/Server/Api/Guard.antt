-- ===== src/Server/Api/Guard.antt =====
-- Whom the middleware lets through to the handlers of internal/server/server.go.
use fin_guard.Prelude.{
  String, Option, none, some, ◌≡◌, refl, ◌⊎◌, inl, inr, Bool, true, false, Bool-cases, ltb,
}
use fin_guard.Float64.{Float64}
use fin_guard.Models.{Time}
use fin_guard.Store.Db.{Db, Env}
use fin_guard.Auth.Session.{SessionData, Verdict, serve, deny}
use fin_guard.Auth.Web
use fin_guard.Auth.Web.{Codec, plain, error_json}
use fin_guard.Auth.Manager.{session_cookie_name, decode_session, admit, check_cookie, middleware}
use fin_guard.Stream.{Hub}
use fin_guard.Server.Api.{Asked, denied, Parts, authenticated, handled, api}

-- The request's session cookie decodes to this session, which has not ended.
abbrev pub HasSession : Codec → Time → Web.Request → SessionData → Type 0
HasSession codec now r session =
    (encoded : String) × (r.cookie session_cookie_name ≡ some encoded)
    × (decode_session codec encoded ≡ some session)
    × (ltb session.expires_at now ≡ false)

-- The verdict is a refusal with 401, or hands on the session that the cookie holds.
abbrev Decides : Codec → Time → Web.Request → Verdict → Type 0
Decides codec now r v =
    ((text : String) × (v ≡ deny 401 text))
    ⊎ ((session : SessionData) × HasSession codec now r session × (v ≡ serve (some session)))

admit-Decides :
    (codec : Codec) (now : Time) (r : Web.Request) (encoded : String) (decoded : Option SessionData)
    → r.cookie session_cookie_name ≡ some encoded
    → decode_session codec encoded ≡ decoded
    → Decides codec now r (admit now decoded)
admit-Decides codec now r encoded none h e = inl ("invalid session", refl)
admit-Decides codec now r encoded (some session) h e =
    elim (Bool-cases (ltb session.expires_at now)) [
      | inl over ↦ inl ("session expired", rw over refl)
      | inr lasts ↦ inr (session, (encoded, h, e, lasts), rw lasts refl)
    ]

check_cookie-Decides :
    (codec : Codec) (now : Time) (r : Web.Request) (cookie : Option String)
    → r.cookie session_cookie_name ≡ cookie
    → Decides codec now r (check_cookie codec now cookie)
check_cookie-Decides codec now r none h = inl ("authentication required", refl)
check_cookie-Decides codec now r (some encoded) h =
    admit-Decides codec now r encoded (decode_session codec encoded) h refl

authenticated-Decides :
    (auth : Option Bool) (codec : Codec) (now : Time) (r : Web.Request)
    → auth ≡ some false
    → Decides codec now r (authenticated auth codec now r)
unfolding authenticated middleware
authenticated-Decides auth codec now r h =
    rw (h, authenticated) (check_cookie-Decides codec now r (r.cookie session_cookie_name) refl)

module _ (F : Float64) {W : Type 0} (parts : Parts F.Carrier W) (reading e : Env) where
  open F use {Carrier}

  -- Where the authentication is enabled, a request to a route below /api/v1, that of the event stream
  -- included, is either answered with 401, and leaves the tables, the plugins' state and the hub as they
  -- were, or it carries a session cookie whose session is in force, and its handler runs with that
  -- session.
  pub api_guarded :
      (now : Time) (r : Web.Request) (asked : Asked) (state : Db Carrier × W × Hub)
      → parts.auth ≡ some false
      → ((text : String) × (api F parts reading e now r asked state ≡ (denied 401 text, state)))
        ⊎ ((session : SessionData) × HasSession parts.codec now r session
            × (api F parts reading e now r asked state
                ≡ handled F parts reading e (some session) asked state))
  unfolding api
  api_guarded now r asked state h = elim (authenticated-Decides parts.auth parts.codec now r h) [
    | inl (text, v) ↦ inl (text, rw v refl)
    | inr (session, holds, v) ↦ inr (session, holds, rw v refl)
  ]

  -- A disabled authentication hands every request on.
  pub api_open :
      (now : Time) (r : Web.Request) (asked : Asked) (state : Db Carrier × W × Hub)
      → parts.auth ≡ some true
      → api F parts reading e now r asked state ≡ handled F parts reading e none asked state
  unfolding api authenticated
  api_open now r asked state h = rw (h, authenticated) refl
