-- ===== src/Auth/Web.antt =====
-- What the handlers of internal/auth/auth.go read of a request and write to a response, and the
-- packages that they call: oauth2 and oidc, securecookie, encoding/json and crypto/rand.
use fin_guard.Prelude.{ℕ, String, List, [], Option, Bool}
use fin_guard.Auth.Session.{SessionData}

pub record Request : Type 0 where
  -- `r.Cookie(name)`, `none` where the request has no such cookie
  pub cookie : String → Option String
  -- `r.URL.Query().Get(name)`, empty where it is absent
  pub query : String → String

pub data MaxAge : Type 0 where
  -- MaxAge: -1
  expired : MaxAge
  seconds : ℕ → MaxAge

pub record SetCookie : Type 0 where
  pub name : String
  pub value : String
  pub path : String
  pub max_age : MaxAge
  pub http_only : Bool
  -- SameSite: http.SameSiteLaxMode
  pub same_site_lax : Bool

pub data Outcome : Type 0 where
  -- writeJSON(w, code, map[string]string{"error": text})
  error_json : ℕ → String → Outcome
  -- writeJSON(w, code, map[string]string{"status": text})
  status_json : ℕ → String → Outcome
  session_json : ℕ → SessionData → Outcome
  -- http.Redirect(w, r, url, http.StatusFound)
  redirect : String → Outcome

pub record Response : Type 0 where
  pub cookies : List SetCookie
  pub outcome : Outcome

abbrev pub plain : Outcome → Response
plain o = record { cookies = []; outcome = o }

-- The claims that `HandleCallback` reads of an ID token.
pub record Claims : Type 0 where
  pub email : String
  pub name : String
  pub groups : List String
  pub subject : String

-- `none` is an error of the call.
pub record Oidc (Token IdToken : Type 0) : Type 0 where
  -- `oauth2Config.AuthCodeURL(state)`
  pub auth_code_url : String → String
  -- `oauth2Config.Exchange(ctx, code)`
  pub exchange : String → Option Token
  -- `token.Extra("id_token").(string)`
  pub id_token : Token → Option String
  -- `verifier.Verify(ctx, rawIDToken)`
  pub verify : String → Option IdToken
  -- `idToken.Claims(&claims)`
  pub claims : IdToken → Option Claims

-- securecookie at the name of a cookie, and encoding/json at `SessionData`.
pub record Codec : Type 0 where
  pub encode : String → String → Option String
  pub decode : String → String → Option String
  pub marshal : SessionData → Option String
  pub unmarshal : String → Option SessionData
