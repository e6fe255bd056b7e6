-- ===== src/Plugins/Budgets.antt =====
-- plugins/budgets/plugin.go: the budget of each namespace, checked against what OpenCost says it costs.
-- A map of costs is an association list; a nil slice of statuses is the empty one, as which the answer
-- shows it. OpenCost and encoding/json are parameters.
pub mod Calendar
pub mod Alerts
pub mod Handlers
use Prim.Native.String
use fin_guard.Prelude.{
  ℕ, String, Option, none, some, List, [], ◌∷◌, ◌++◌, Bool, true, false, not, ◌||◌, ◌==◌,
  if◌then◌else◌, length, any, first, update,
}
use fin_guard.Float64.{Float64}
use fin_guard.Plugins.{Metadata, InitRequest, ExecuteRequest, ExecuteResponse, PluginEvent}
use fin_guard.Plugins.Channel.{Channel, new_channel, try_send, close}

pub record Budget (R : Type 0) : Type 0 where
  pub namespace : String
  pub monthly_budget : R
  pub warning_percent : R

pub record BudgetStatus (R : Type 0) : Type 0 where
  pub namespace : String
  pub monthly_budget : R
  pub current_spend : R
  pub utilization : R
  pub status : String
  pub projected_end : R

pub record Plugin (R : Type 0) : Type 0 where
  pub open_cost_url : String
  pub events : Channel PluginEvent
  pub budgets : List (Budget R)
  pub statuses : List (BudgetStatus R)

-- `make(chan *pluginpkg.Event, 100)`
abbrev pub event_capacity : ℕ
event_capacity = 100

-- encoding/json at the values of this plugin; `none` is an error.
pub record BudgetsJson (R : Type 0) : Type 0 where
  pub marshal_statuses : List (BudgetStatus R) → ℕ → Option String
  pub marshal_budgets : List (Budget R) → Option String
  pub marshal_alert : BudgetStatus R → Option String
  pub unmarshal_config : String → Option (List (Budget R))

-- The data of an allocation answer: the namespaces of each window, with the `totalCost` of those where
-- it is a number.
abbrev pub Windows : Type 0 → Type 0
Windows R = List (List (String × Option R))

abbrev pub metadata : Metadata
metadata = record {
  name = "budgets";
  version = "0.1.0";
  description = "Budget tracking and enforcement per namespace with streaming alerts";
  type = "policy";
  topics = "budget.warning" ∷ "budget.exceeded" ∷ [];
  routes =
      record { method = "GET"; path = "/status"; description = "Budget status per namespace" }
      ∷ record { method = "GET"; path = "/config"; description = "Current budget configuration" }
      ∷ [];
}

module _ (F : Float64) where
  open F use {Carrier, zero, one, add, div, lt, le, of_int}

  abbrev pub default_budgets : List (Budget Carrier)
  default_budgets =
      record {
        namespace = "default";
        monthly_budget = of_int 100;
        warning_percent = div (of_int 4) (of_int 5);
      }
      ∷ record {
        namespace = "kube-system";
        monthly_budget = of_int 200;
        warning_percent = div (of_int 4) (of_int 5);
      }
      ∷ []

  -- `none` is nil.
  abbrev pub given_budgets : Option (List (Budget Carrier)) → List (Budget Carrier)
  given_budgets none = default_budgets
  given_budgets (some bs) = bs

  abbrev pub new : Option (List (Budget Carrier)) → Plugin Carrier
  new bs = record {
    open_cost_url = "";
    events = new_channel;
    budgets = given_budgets bs;
    statuses = [];
  }

  -- `costs[ns] += total`
  unfoldable pub add_cost : String → Carrier → List (String × Carrier) → List (String × Carrier)
  add_cost ns total costs =
      if any (λ x. x.0 == ns) costs
      then update (λ x. x.0 == ns) (λ x. (x.0, add x.1 total)) costs
      else costs ++ (ns, add zero total) ∷ []

  abbrev pub add_total : String × Option Carrier → List (String × Carrier) → List (String × Carrier)
  add_total (ns, none) costs = costs
  add_total (ns, some total) costs = add_cost ns total costs

  unfoldable pub add_window :
      List (String × Option Carrier) → List (String × Carrier) → List (String × Carrier)
  add_window [] costs = costs
  add_window (x ∷ xs) costs = add_window xs (add_total x costs)

  -- The end of `fetchNamespaceCosts`.
  unfoldable pub namespace_costs :
      Windows Carrier → List (String × Carrier) → List (String × Carrier)
  unfolding add_window
  namespace_costs [] costs = costs
  namespace_costs (w ∷ ws) costs = namespace_costs ws (add_window w costs)

  abbrev pub value_of : Option (String × Carrier) → Option Carrier
  value_of none = none
  value_of (some x) = some x.1

  unfoldable pub spend_of : List (String × Carrier) → Budget Carrier → Option Carrier
  spend_of costs b = value_of (first (λ x. x.0 == b.namespace) costs)

  unfoldable pub status_text : Carrier → Carrier → String
  status_text utilization warning_percent =
      if le one utilization
      then "exceeded"
      else if le warning_percent utilization
      then "warning"
      else "ok"

  abbrev pub utilization_of : Budget Carrier → Carrier → Carrier
  utilization_of b spend = if lt zero b.monthly_budget then div spend b.monthly_budget else zero

  abbrev pub projected_of : Carrier → Carrier → Carrier
  projected_of progress spend = if lt zero progress then div spend progress else zero

  unfoldable pub status_of : Carrier → Budget Carrier → Carrier → BudgetStatus Carrier
  status_of progress b spend =
      let utilization = utilization_of b spend in
      record {
        namespace = b.namespace;
        monthly_budget = b.monthly_budget;
        current_spend = spend;
        utilization = utilization;
        status = status_text utilization b.warning_percent;
        projected_end = projected_of progress spend;
      }

-- `status == "warning" || status == "exceeded"`
abbrev pub is_due : {R : Type 0} → BudgetStatus R → Bool
is_due s = s.status == "warning" || s.status == "exceeded"

-- A payload that json refuses is nil.
abbrev pub payload_of : Option String → String
payload_of none = ""
payload_of (some p) = p

abbrev pub alert_of : {R : Type 0} → BudgetsJson R → BudgetStatus R → PluginEvent
alert_of json s = record {
  type = s.status;
  topic = if s.status == "exceeded" then "budget.exceeded" else "budget.warning";
  source = "budgets";
  payload = payload_of (json.marshal_alert s);
}

module _ (F : Float64) (json : BudgetsJson F.Carrier) where
  open F use {Carrier, div, of_int}

  -- What the loop does once the status is known.
  unfoldable pub alert : BudgetStatus Carrier → Channel PluginEvent → Option (Channel PluginEvent)
  alert s ch = if is_due s then try_send event_capacity (alert_of json s) ch else some ch

  abbrev pub with_status :
      BudgetStatus Carrier
      → Option (List (BudgetStatus Carrier) × Channel PluginEvent)
      → Option (List (BudgetStatus Carrier) × Channel PluginEvent)
  with_status s none = none
  with_status s (some (rest, ch)) = some (s ∷ rest, ch)

  -- The loop of `checkBudgets`; `none` is a panic.
  unfoldable pub check_each :
      List (String × Carrier)
      → Carrier
      → List (Budget Carrier)
      → Channel PluginEvent
      → Option (List (BudgetStatus Carrier) × Channel PluginEvent)
  check_each costs progress [] ch = some ([], ch)
  check_each costs progress (b ∷ bs) ch = elim (spend_of F costs b) [
    | none ↦ check_each costs progress bs ch
    | some spend ↦ elim (alert (status_of F progress b spend) ch) [
      | none ↦ none
      | some ch' ↦ with_status (status_of F progress b spend) (check_each costs progress bs ch')
    ]
  ]

  abbrev pub checked :
      Plugin Carrier
      → Option (List (BudgetStatus Carrier) × Channel PluginEvent)
      → Option (Plugin Carrier)
  checked p none = none
  checked p (some (statuses, ch)) = some (record p { events = ch; statuses = statuses })

  -- `checkBudgets` on day `day` of a month of `days`; a fetch that fails is logged.
  unfoldable pub check_budgets :
      ℕ → ℕ → Option (Windows Carrier) → Plugin Carrier → Option (Plugin Carrier)
  check_budgets day days none p = some p
  check_budgets day days (some windows) p = checked p (
      check_each (namespace_costs F windows []) (div (of_int day) (of_int days)) p.budgets p.events)

  abbrev pub configured : Option (List (Budget Carrier)) → Plugin Carrier → Plugin Carrier
  configured none p = p
  configured (some []) p = p
  configured (some (b ∷ bs)) p = record p { budgets = b ∷ bs }

  -- `Initialize` up to the start of the poll loop.
  unfoldable pub initialize : InitRequest → Plugin Carrier → Plugin Carrier
  initialize req p =
      let q = record p { open_cost_url = req.open_cost_url } in
      if req.config == "" then q else configured (json.unmarshal_config req.config) q

  unfoldable pub shutdown : Plugin Carrier → Option (Plugin Carrier)
  shutdown p = elim (close p.events) [ some ch ↦ some (record p { events = ch }) | none ↦ none ]
