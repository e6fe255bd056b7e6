-- ===== src/Plugins/Manager/Handler.antt =====
-- `makePluginHandler` of internal/plugin/manager.go.
use fin_guard.Prelude.{
  ℕ, String, List, [], ◌∷◌, ◌≡◌, refl, Bool, true, false, not, ◌==◌, if◌then◌else◌, nat_eq,
  Bool-cases, inl, inr,
}
use fin_guard.Plugins.Manager.{Instances, Executed, responded, refused}

pub data PluginBody : Type 0 where
  -- {"error": text}
  error_text : String → PluginBody
  raw : String → PluginBody

pub record PluginReply : Type 0 where
  pub status : ℕ
  pub content_type : String
  pub body : PluginBody

-- The first value of each key of the query.
unfoldable pub params_of : List (String × List String) → List (String × String)
params_of [] = []
params_of ((k, []) ∷ rest) = params_of rest
params_of ((k, v ∷ vs) ∷ rest) = (k, v) ∷ params_of rest

abbrev pub code_or : ℕ → ℕ → ℕ
code_or default code = if nat_eq code 0 then default else code

unfoldable pub plugin_reply : Executed → PluginReply
plugin_reply (refused text) = record {
  status = 500;
  content_type = "application/json";
  body = error_text text;
}
plugin_reply (responded r) =
    if not (r.error == "")
    then record {
      status = code_or 500 r.status_code;
      content_type = "application/json";
      body = error_text r.error;
    }
    else record {
      status = code_or 200 r.status_code;
      content_type = if r.content_type == "" then "application/json" else r.content_type;
      body = raw r.body;
    }

abbrev pub make_plugin_handler :
    {W : Type 0} → Instances W → ℕ → String → List (String × List String) → W → PluginReply × W
make_plugin_handler is p action query w =
    let done = is.execute p (record { action = action; params = params_of query }) w in
    (plugin_reply done.0, done.1)

abbrev pub is_error : PluginBody → Bool
is_error (error_text t) = true
is_error (raw t) = false

-- An error of `Execute`, or a response that tells of one.
abbrev pub fails : Executed → Bool
fails (refused text) = true
fails (responded r) = not (r.error == "")

code_or_not_zero :
    (default code : ℕ) → nat_eq default 0 ≡ false → nat_eq (code_or default code) 0 ≡ false
code_or_not_zero default code h = elim (Bool-cases (nat_eq code 0)) [
  | inl e ↦ rw e h
  | inr e ↦ rw e e
]

type_or_json_not_empty :
    (ct : String) → ((if ct == "" then "application/json" else ct) == "") ≡ false
type_or_json_not_empty ct = elim (Bool-cases (ct == "")) [ inl e ↦ rw e refl | inr e ↦ rw e e ]

plugin_reply_lem :
    (done : Executed)
    → (nat_eq (plugin_reply done).status 0 ≡ false)
      × (((plugin_reply done).content_type == "") ≡ false)
      × (is_error (plugin_reply done).body ≡ fails done)
unfolding plugin_reply
plugin_reply_lem (refused text) = (refl, refl, refl)
plugin_reply_lem (responded r) = elim (Bool-cases (r.error == "")) [
  | inl e ↦
      rw (e, plugin_reply)
        (code_or_not_zero 200 r.status_code refl, type_or_json_not_empty r.content_type, refl)
  | inr e ↦ rw (e, plugin_reply) (code_or_not_zero 500 r.status_code refl, refl, refl)
]

-- Whatever a plugin makes of a request, the handler answers with a status other than 0 and names a
-- content type, and its body is an error exactly where the plugin failed or its response tells of an
-- error.
pub make_plugin_handler-answers :
    {W : Type 0} (is : Instances W) (p : ℕ) (action : String) (query : List (String × List String))
    (w : W)
    → (nat_eq (make_plugin_handler is p action query w).0.status 0 ≡ false)
      × (((make_plugin_handler is p action query w).0.content_type == "") ≡ false)
      × (is_error (make_plugin_handler is p action query w).0.body
          ≡ fails (is.execute p (record { action = action; params = params_of query }) w).0)
make_plugin_handler-answers is p action query w =
    plugin_reply_lem (is.execute p (record { action = action; params = params_of query }) w).0
