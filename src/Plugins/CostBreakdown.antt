-- ===== src/Plugins/CostBreakdown.antt =====
-- plugins/costbreakdown/plugin.go: the recommendations for the namespaces that use little of what they
-- request. OpenCost and encoding/json are parameters.
pub mod Recommendations
pub mod Handlers
use Prim.Native.String
use fin_guard.Prelude.{
  ℕ, String, Option, none, some, List, [], ◌∷◌, ◌++◌, Bool, ◌&&◌, ◌==◌, if◌then◌else◌, length,
  first,
}
use fin_guard.Float64.{Float64}
use fin_guard.Plugins.{Metadata, InitRequest, ExecuteRequest, ExecuteResponse, PluginEvent}
use fin_guard.Plugins.Channel.{Channel, new_channel, try_send, close}

pub record Recommendation (R : Type 0) : Type 0 where
  pub namespace : String
  pub pod : String
  pub container : String
  pub resource_type : String
  pub requested : R
  pub used : R
  pub savings : R
  pub severity : String

pub record Plugin (R : Type 0) : Type 0 where
  pub open_cost_url : String
  pub events : Channel PluginEvent
  -- nil is the empty list, as which the answer shows it
  pub recommendations : List (Recommendation R)

-- `make(chan *pluginpkg.Event, 100)`
abbrev pub event_capacity : ℕ
event_capacity = 100

-- A value of a map[string]any.
pub data Any (R : Type 0) : Type 0 where
  number : R → Any R
  text : String → Any R
  other : Any R

abbrev pub Allocation : Type 0 → Type 0
Allocation R = List (String × Any R)

-- The text of a number of recommendations and of themselves, in an event and in an answer alike; `none`
-- is an error.
abbrev pub MarshalRecommendations : Type 0 → Type 0
MarshalRecommendations R = ℕ → List (Recommendation R) → Option String

-- What comes of a GET: the error of http.NewRequest, of the exchange or of the body, or a status with
-- the body.
pub data Answer : Type 0 where
  bad_request : String → Answer
  unreachable : String → Answer
  unread : String → Answer
  answered : ℕ → String → Answer

abbrev pub metadata : Metadata
metadata = record {
  name = "costbreakdown";
  version = "0.1.0";
  description = "Enriched cost breakdown with idle resource detection and savings recommendations";
  type = "cost";
  topics = "cost.idle.detected" ∷ [];
  routes =
      record {
        method = "GET";
        path = "/recommendations";
        description = "List idle resource recommendations";
      }
      ∷ record { method = "GET"; path = "/summary"; description = "Cost breakdown summary" }
      ∷ [];
}

abbrev pub new : {R : Type 0} → Plugin R
new = record { open_cost_url = ""; events = new_channel; recommendations = [] }

abbrev pub initialize : {R : Type 0} → InitRequest → Plugin R → Plugin R
initialize req p = record p { open_cost_url = req.open_cost_url }

-- The windows of a decoded answer: the allocation of each namespace.
unfoldable pub allocations_of :
    {R : Type 0} → List (List (String × Allocation R)) → List (Allocation R)
allocations_of [] = []
allocations_of ([] ∷ ws) = allocations_of ws
allocations_of ((x ∷ xs) ∷ ws) = x.1 ∷ allocations_of (xs ∷ ws)

module _ (F : Float64) where
  open F use {Carrier, zero, one, sub, mul, div, lt, of_int}

  abbrev pub number_of : Option (String × Any Carrier) → Carrier
  number_of (some (k, number x)) = x
  number_of (some (k, text t)) = zero
  number_of (some (k, other)) = zero
  number_of none = zero

  abbrev pub text_of : Option (String × Any Carrier) → String
  text_of (some (k, text t)) = t
  text_of (some (k, number x)) = ""
  text_of (some (k, other)) = ""
  text_of none = ""

  -- `x, _ := alloc[key].(float64)`
  unfoldable pub number_at : String → Allocation Carrier → Carrier
  number_at key alloc = number_of (first (λ x. x.0 == key) alloc)

  -- `x, _ := alloc[key].(string)`
  unfoldable pub text_at : String → Allocation Carrier → String
  text_at key alloc = text_of (first (λ x. x.0 == key) alloc)

  -- `req > 0 && used > 0 && used/req < 0.2`
  abbrev pub is_idle : Carrier → Carrier → Bool
  is_idle requested used =
      lt zero requested && (lt zero used && lt (div used requested) (div one (of_int 5)))

  abbrev pub severity_of : Carrier → String
  severity_of savings =
      if lt (of_int 50) savings then "high" else if lt (of_int 10) savings then "medium" else "low"

  abbrev pub recommendation :
      String → Carrier → Allocation Carrier → Carrier → Carrier → Recommendation Carrier
  recommendation resource_type share alloc requested used =
      let savings = mul (mul (number_at "totalCost" alloc) (sub one (div used requested))) share in
      record {
        namespace = text_at "name" alloc;
        pod = "";
        container = "";
        resource_type = resource_type;
        requested = requested;
        used = used;
        savings = savings;
        severity = severity_of savings;
      }

  -- What the loop appends for one resource.
  unfoldable pub recommended :
      String → Carrier → Allocation Carrier → Carrier → Carrier → List (Recommendation Carrier)
  recommended resource_type share alloc requested used =
      if is_idle requested used
      then recommendation resource_type share alloc requested used ∷ []
      else []

  -- One run of the loop of `detectIdle`.
  unfoldable pub recommended_for : Allocation Carrier → List (Recommendation Carrier)
  unfolding recommended number_at
  recommended_for alloc =
      recommended "cpu" (div (of_int 4) (of_int 5)) alloc (number_at "cpuCoreRequestAverage" alloc)
        (number_at "cpuCoreUsageAverage" alloc)
      ++ recommended "memory" (div one (of_int 5)) alloc (number_at "ramByteRequestAverage" alloc)
          (number_at "ramByteUsageAverage" alloc)

  unfoldable pub recommendations_of : List (Allocation Carrier) → List (Recommendation Carrier)
  unfolding recommended_for
  recommendations_of [] = []
  recommendations_of (a ∷ rest) = recommended_for a ++ recommendations_of rest

-- A payload that json refuses is nil.
abbrev pub payload_of : Option String → String
payload_of none = ""
payload_of (some p) = p

abbrev pub idle_event : Option String → PluginEvent
idle_event payload = record {
  type = "idle_detected";
  topic = "cost.idle.detected";
  source = "costbreakdown";
  payload = payload_of payload;
}

module _ (F : Float64) (marshal : MarshalRecommendations F.Carrier) where
  open F use {Carrier}

  abbrev pub with_events : Plugin Carrier → Option (Channel PluginEvent) → Option (Plugin Carrier)
  with_events p none = none
  with_events p (some ch) = some (record p { events = ch })

  -- After the loop: the event tells of the recommendations, if there are any; `none` is a panic.
  abbrev pub announced : Plugin Carrier → List (Recommendation Carrier) → Option (Plugin Carrier)
  announced p [] = some p
  announced p (r ∷ rs) =
      with_events p
        (try_send event_capacity (idle_event (marshal (length (r ∷ rs)) (r ∷ rs))) p.events)

  -- `detectIdle`; a fetch that fails is logged.
  unfoldable pub detect_idle :
      Option (List (List (String × Allocation Carrier))) → Plugin Carrier → Option (Plugin Carrier)
  detect_idle none p = some p
  detect_idle (some windows) p =
      let recs = recommendations_of F (allocations_of windows) in
      announced (record p { recommendations = recs }) recs

  abbrev pub shutdown : Plugin Carrier → Option (Plugin Carrier)
  shutdown p = with_events p (close p.events)
