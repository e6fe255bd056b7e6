-- ===== src/Auth/Callback/Sessions.antt =====
-- Who gets a session from `HandleCallback`, and what the middleware makes of it later.
use fin_guard.Prelude.{
  ◌+◌, String, Option, none, some, List, [], ◌∷◌, ◌≡◌, ◌≢◌, refl, sym, ◌∙◌, ap, subst, true, false,
  ◌==◌, if◌then◌else◌, ltb, any, Result, ok, err, arith, eq_iff, Option-cases, inl, inr,
}
use fin_guard.Models.{Time, User}
use fin_guard.Store.Db.{Db}
use fin_guard.Auth.Session.{SessionData, serve, deny}
use fin_guard.Auth.Web.{SetCookie, Request, Response, Claims, Oidc, Codec, redirect}
use fin_guard.Auth.Provision.{ProvisionEnvs, provision_user}
use fin_guard.Auth.Manager.{
  state_cookie_name, session_cookie_name, session_lifetime, encode_session, decode_session,
  session_cookie, middleware,
}
use fin_guard.Auth.Callback.{
  session_of, after_drop, redirected, signed_in, claimed, verified, presented, exchanged, returned,
  handle_callback,
}

abbrev and_then : {A B : Type 0} → Option A → (A → Option B) → Option B
and_then none f = none
and_then (some a) f = f a

-- The claims to which the identity provider vouches for a code.
pub authenticate : {T I : Type 0} → Oidc T I → String → Option Claims
authenticate oidc code =
    and_then (and_then (and_then (oidc.exchange code) oidc.id_token) oidc.verify) oidc.claims

-- The response sets a session cookie.
abbrev pub HasSession : Response → Type 0
HasSession response = any (λ c. c.name == session_cookie_name) response.cookies ≡ true

-- Decoding gives back what was encoded, as the documentation of securecookie and of encoding/json says.
pub record IsLossless (codec : Codec) : Type 0 where
  pub cookie :
      (name text v : String) → codec.encode name text ≡ some v → codec.decode name v ≡ some text
  pub json :
      (s : SessionData) (text : String)
      → codec.marshal s ≡ some text
      → codec.unmarshal text ≡ some s

-- The guards of the handler, passed.
abbrev pub Passed : Request → Option String → Type 0
Passed r state = (state ≡ some (r.query "state")) × (r.query "state" ≢ "") × (r.query "code" ≢ "")

decode_session-encode_session :
    (codec : Codec) (s : SessionData) (v : String)
    → IsLossless codec
    → encode_session codec s ≡ some v
    → decode_session codec v ≡ some s
unfolding encode_session decode_session
decode_session-encode_session codec s v laws h = elim (Option-cases (codec.marshal s)) [
  | inl e ↦ absurd (ground arith)
  | inr (text, e) ↦ ground (arith, laws.cookie session_cookie_name text v, laws.json s text e)
]

-- The value of the second cookie, which is the session's.
abbrev second : List SetCookie → String
second [] = ""
second (_ ∷ []) = ""
second (_ ∷ (c ∷ _)) = c.value

redirected_lem :
    (encoded : Option String)
    → HasSession (redirected encoded)
    → (v : String) × (encoded ≡ some v)
      × (redirected encoded ≡ after_drop (session_cookie v ∷ []) (redirect "/"))
unfolding any
redirected_lem none h = absurd (ground arith)
redirected_lem (some v) h = (v, refl, refl)

module _ {R T I : Type 0} (oidc : Oidc T I) (codec : Codec) (es : ProvisionEnvs) (now : Time) where
  -- A session for the user whom the claims `c` provisioned.
  abbrev pub IsFor : Db R → Response → Claims → User → String → Type 0
  IsFor db response c user v =
      ((provision_user es c.subject c.email c.name c.groups db).0 ≡ ok user)
      × (encode_session codec (session_of user c now) ≡ some v)
      × (response ≡ after_drop (session_cookie v ∷ []) (redirect "/"))

  abbrev pub Vouched : Db R → Response → Option Claims → Type 0
  Vouched db response claims =
      (c : Claims) × (user : User) × (v : String) × (claims ≡ some c) × IsFor db response c user v

  signed_in_lem :
      (c : Claims) (p : Result User × Db R)
      → HasSession (signed_in oidc codec es now c p).0
      → (user : User) × (v : String) × (p.0 ≡ ok user)
        × (encode_session codec (session_of user c now) ≡ some v)
        × ((signed_in oidc codec es now c p).0 ≡ after_drop (session_cookie v ∷ []) (redirect "/"))
  unfolding any
  signed_in_lem c (err f, db) h = absurd (ground arith)
  signed_in_lem c (ok user, db) h =
      let (v, e, answer) = redirected_lem (encode_session codec (session_of user c now)) h in
      (user, v, refl, e, answer)

  claimed_lem :
      (claims : Option Claims) (db : Db R)
      → HasSession (claimed oidc codec es now claims db).0
      → Vouched db (claimed oidc codec es now claims db).0 claims
  unfolding any
  claimed_lem none db h = absurd (ground arith)
  claimed_lem (some c) db h =
      let (user, v, made, encoded, answer) =
        signed_in_lem c (provision_user es c.subject c.email c.name c.groups db) h in
      (c, user, v, refl, (made, encoded, answer))

  verified_lem :
      (token : Option I) (db : Db R)
      → HasSession (verified oidc codec es now token db).0
      → Vouched db (verified oidc codec es now token db).0 (and_then token oidc.claims)
  unfolding any
  verified_lem none db h = absurd (ground arith)
  verified_lem (some token) db h = claimed_lem (oidc.claims token) db h

  presented_lem :
      (raw : Option String) (db : Db R)
      → HasSession (presented oidc codec es now raw db).0
      → Vouched db
          (presented oidc codec es now raw db).0
          (and_then (and_then raw oidc.verify) oidc.claims)
  unfolding any
  presented_lem none db h = absurd (ground arith)
  presented_lem (some raw) db h = verified_lem (oidc.verify raw) db h

  exchanged_lem :
      (token : Option T) (db : Db R)
      → HasSession (exchanged oidc codec es now token db).0
      → Vouched db
          (exchanged oidc codec es now token db).0
          (and_then (and_then (and_then token oidc.id_token) oidc.verify) oidc.claims)
  unfolding any
  exchanged_lem none db h = absurd (ground arith)
  exchanged_lem (some token) db h = presented_lem (oidc.id_token token) db h

  returned-Passed :
      (r : Request) (state : Option String) (db : Db R)
      → HasSession (returned oidc codec es now r state db).0
      → Passed r state
        × (returned oidc codec es now r state db
            ≡ exchanged oidc codec es now (oidc.exchange (r.query "code")) db)
  unfolding any
  returned-Passed r none db h = absurd (ground arith)
  returned-Passed r (some state) db h = (
    (
      ground (arith, eq_iff (r.query "state") state),
      ground (arith, eq_iff state "", eq_iff (r.query "state") state),
      ground (arith, eq_iff (r.query "code") ""),
    ),
    ground arith,
  )

  -- `HandleCallback`, with the authentication enabled, sets a session cookie only for a request whose
  -- state parameter is that of its state cookie and not empty, which has a code, and for whose code
  -- the identity provider gave verified claims; the session is that of the user whom these claims
  -- provisioned, and it ends 24 hours after the sign-in.
  pub handle_callback-authenticate :
      (r : Request) (db : Db R)
      → HasSession (handle_callback oidc codec es now false r db).0
      → Passed r (r.cookie state_cookie_name)
        × Vouched db
            (handle_callback oidc codec es now false r db).0
            (authenticate oidc (r.query "code"))
  unfolding handle_callback authenticate
  handle_callback-authenticate r db h =
      let (guards, e) = returned-Passed r (r.cookie state_cookie_name) db h in
      (
        guards,
        rw e (exchanged_lem (oidc.exchange (r.query "code")) db (subst (λ x. HasSession x.0) e h)),
      )

  -- A request that carries the session cookie of a sign-in is served with a session of 24 hours from
  -- the sign-in, for the user of verified claims, until that time has passed, and refused with 401
  -- after it.
  pub middleware-handle_callback :
      (r later : Request) (t : Time) (v : String) (db : Db R)
      → IsLossless codec
      → (handle_callback oidc codec es now false r db).0
        ≡ after_drop (session_cookie v ∷ []) (redirect "/")
      → later.cookie session_cookie_name ≡ some v
      → (c : Claims) × (user : User) × (authenticate oidc (r.query "code") ≡ some c)
        × ((provision_user es c.subject c.email c.name c.groups db).0 ≡ ok user)
        × (middleware false codec t later ≡ (
            if ltb (now + session_lifetime) t
            then deny 401 "session expired"
            else serve (some (session_of user c now))))
  unfolding middleware any
  middleware-handle_callback r later t v db laws answer carries =
      let (_, vouched) = handle_callback-authenticate r db (rw answer refl) in
      let (c, user, w, claims, (made, encoded, response)) = vouched in
      let same : w ≡ v = ap (λ x. second x.cookies) (sym response ∙ answer) in
      (
        c,
        user,
        claims,
        made,
        rw (carries, decode_session-encode_session codec _ v laws (encoded ∙ ap some same)) refl,
      )
