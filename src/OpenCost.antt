-- ===== src/OpenCost.antt =====
-- internal/opencostproxy/proxy.go: a request that is passed on to OpenCost, and the health check. What
-- net/url and net/http make of their arguments are parameters.
pub mod Mock
pub mod Routes
use Prim.Native.String
use fin_guard.Prelude.{
  ℕ, String, Option, none, some, List, [], ◌∷◌, ◌++◌, map, Bool, true, false, not, ◌==◌,
  if◌then◌else◌, nat_eq, select,
}

abbrev pub Header : Type 0
Header = List (String × String)

pub record Upstream : Type 0 where
  pub status : ℕ
  pub header : Header
  pub body : String

-- What comes of an exchange: the text of the error, or the response.
pub data Exchange : Type 0 where
  unreachable : String → Exchange
  answered : Upstream → Exchange

pub record Incoming : Type 0 where
  pub method : String
  pub raw_query : String
  pub header : Header
  pub body : String

pub data ProxyBody : Type 0 where
  -- {"error": text}
  error_text : String → ProxyBody
  copied : String → ProxyBody

pub record ProxyReply : Type 0 where
  pub status : ℕ
  pub header : Header
  pub body : ProxyBody

abbrev pub write_error : ℕ → String → ProxyReply
write_error code message = record {
  status = code;
  header = ("Content-Type", "application/json") ∷ [];
  body = error_text message;
}

-- `w.Header().Set(key, value)`
abbrev pub set_header : String → String → Header → Header
set_header key value header = select (λ x. not (x.0 == key)) header ++ (key, value) ∷ []

-- url.Parse, with the query put in; http.NewRequest; and `Do`.
pub record Http : Type 0 where
  pub parse : String → String → Option String
  pub accepts : String → String → Bool
  pub exchange : String → String → Header → String → Exchange

abbrev pub relayed : Exchange → ProxyReply
relayed (unreachable e) = write_error 502 (String.◌++◌ "opencost unreachable: " e)
relayed (answered up) = record {
  status = up.status;
  header = set_header "X-Proxied-By" "finguard" up.header;
  body = copied up.body;
}

module _ (http : Http) (base_url : String) where
  abbrev pub requested : Incoming → Option String → ProxyReply
  requested r none = write_error 500 "invalid upstream URL"
  requested r (some target) =
      if http.accepts r.method target
      then relayed (http.exchange r.method target r.header r.body)
      else write_error 500 "failed to create proxy request"

  unfoldable pub proxy_request : Incoming → String → ProxyReply
  proxy_request r path = requested r (http.parse (String.◌++◌ base_url path) r.raw_query)

  abbrev pub is_well : Exchange → Bool
  is_well (unreachable e) = false
  is_well (answered up) = nat_eq up.status 200

  -- `checkHealth`
  unfoldable pub check_health : Bool
  check_health =
      if http.accepts "GET" (String.◌++◌ base_url "/healthz")
      then is_well (http.exchange "GET" (String.◌++◌ base_url "/healthz") [] "")
      else false
