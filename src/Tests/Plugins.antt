-- ===== src/Tests/Plugins.antt =====
-- The plugins with whole numbers: a namespace over its budget, an idle namespace, and a bridge to a hub.
use mathlib.Core.List.{reverse, reverse_perm}
use mathlib.Core.List.Perm
use fin_guard.Prelude.{
  Bool, ◌+◌, ◌-◌, ◌*◌, ◌/◌, ltb, leb, List, String, Perm, ℕ, ◌≤◌, none, some, [], ◌∷◌, ◌++◌, ◌≡◌,
  refl, true, false, ◌==◌, if◌then◌else◌, any, first, take, Unique, arith,
}
use fin_guard.Float64.{Float64, whole}
use fin_guard.Stream.{Hub, Payload, new_hub, send_capacity, is_client, subscribed_to}
use fin_guard.Stream.Safety.{starts, steps, registers}
use fin_guard.Stream
use fin_guard.Plugins.Channel
use fin_guard.Plugins.{PluginEvent}
use fin_guard.Plugins.Channel.{Channel, new_channel}
use fin_guard.Plugins.Budgets
use fin_guard.Plugins.CostBreakdown
use fin_guard.Plugins.CostBreakdown.Recommendations.{count, called_for, told, detect_idle_tells}
use fin_guard.Plugins.Budgets.Calendar.{
  days_in_current_month, month_length, days_in_current_month_bounds,
}
use fin_guard.Plugins.Budgets.Alerts
use fin_guard.Plugins.Budgets.Handlers
use fin_guard.Plugins.Budgets.Alerts.{check_budgets_open, check_budgets_shutdown, statuses_of}
use fin_guard.Plugins.Manager.{
  Instances, Manager, new_manager, register, list_plugins, initialize_all, shutdown_all, channel,
  emitted, done, bridge_events,
}
use fin_guard.Plugins.Manager.Names
use fin_guard.Plugins.Manager.Names.{Registered, created, same_name, list_plugins-register}
use fin_guard.Plugins.Manager.Contexts.{shutdown_all-initialize_all}
use fin_guard.Plugins.Manager.Bridges.{addressed, bridge_delivers}
use fin_guard.Plugins.Routes.{executed}

days_in_current_month_bounds_example :
    (1 ≤ 29)
    × (29 ≤ days_in_current_month 2024 2)
    × (28 ≤ days_in_current_month 2024 2)
    × (days_in_current_month 2024 2 ≤ 31)
unfolding month_length
days_in_current_month_bounds_example = days_in_current_month_bounds 2024 2 29 (record {
  month_low = omega arith;
  month_high = omega arith;
  day_low = omega arith;
  day_high = omega arith;
})

abbrev budgets_json : Budgets.BudgetsJson ℕ
budgets_json = record {
  marshal_statuses = λ statuses n. some "statuses";
  marshal_budgets = λ budgets. some "budgets";
  marshal_alert = λ s. some s.namespace;
  unmarshal_config = λ config. none;
}

abbrev budgets : Budgets.Plugin ℕ
budgets =
    Budgets.new whole
      (some (record { namespace = "web"; monthly_budget = 2; warning_percent = 1 } ∷ []))

abbrev costs : Budgets.Windows ℕ
costs = (("web", some 5) ∷ ("db", none) ∷ []) ∷ []

check_budgets_open_example :
    Budgets.check_budgets whole budgets_json 1 1 (some costs) budgets
    ≡ some (record budgets {
      events = record {
        buffer = take Budgets.event_capacity (
            Alerts.alerts whole budgets_json
              (Alerts.checked_statuses whole budgets_json 1 1 costs budgets));
        closed = false;
      };
      statuses = Alerts.checked_statuses whole budgets_json 1 1 costs budgets;
    })
check_budgets_open_example =
    check_budgets_open whole budgets_json 1 1 costs budgets refl (omega arith)

abbrev shut_budgets : Budgets.Plugin ℕ
shut_budgets = record budgets { events = record { buffer = []; closed = true } }

check_budgets_shutdown_example :
    Budgets.check_budgets whole budgets_json 1 1 (some costs) shut_budgets ≡ (
      if any Budgets.is_due (Alerts.checked_statuses whole budgets_json 1 1 costs budgets)
      then none
      else some (record shut_budgets {
        statuses = Alerts.checked_statuses whole budgets_json 1 1 costs budgets;
      }))
unfolding Budgets.shutdown Channel.close
check_budgets_shutdown_example =
    check_budgets_shutdown whole budgets_json 1 1 costs budgets shut_budgets refl

-- The costs are over the budget: the send of the check panics.
due : any Budgets.is_due (Alerts.checked_statuses whole budgets_json 1 1 costs budgets) ≡ true
unfolding any Alerts.statuses_of Budgets.spend_of first Budgets.namespace_costs Budgets.add_cost
    Budgets.status_of Budgets.status_text
due = refl

-- Numbers with two decimals.
abbrev hundredths : Float64
hundredths = record {
  Carrier = ℕ;
  zero = 0;
  one = 100;
  add = λ a b. a + b;
  sub = λ a b. a - b;
  mul = λ a b. a * b / 100;
  div = λ a b. a * 100 / b;
  lt = ltb;
  le = leb;
  of_int = λ n. n * 100;
}

-- Of 9 processors one is used, at a cost of 30.
abbrev windows : List (List (String × CostBreakdown.Allocation ℕ))
windows =
    ((
      "web",
      ("name", CostBreakdown.text "web")
          ∷ ("cpuCoreRequestAverage", CostBreakdown.number 900)
          ∷ ("cpuCoreUsageAverage", CostBreakdown.number 100)
          ∷ ("totalCost", CostBreakdown.number 3000)
          ∷ [],
    )
      ∷ [])
    ∷ []
    ∷ []

abbrev is_medium : CostBreakdown.Recommendation ℕ → Bool
is_medium r = r.severity == "medium"

detect_idle_tells_example :
    (q : CostBreakdown.Plugin ℕ) × (CostBreakdown.detect_idle hundredths
        (λ n recs. some "recs")
        (some windows)
        CostBreakdown.new
      ≡ some q)
    × (count is_medium q.recommendations
        ≡ called_for hundredths is_medium (CostBreakdown.allocations_of windows))
    × (q.events.buffer ≡ told hundredths (λ n recs. some "recs") q.recommendations [])
detect_idle_tells_example =
    detect_idle_tells hundredths (λ n recs. some "recs") windows CostBreakdown.new is_medium refl

medium : called_for hundredths is_medium (CostBreakdown.allocations_of windows) ≡ 1
unfolding called_for CostBreakdown.allocations_of CostBreakdown.number_at first
medium = refl

-- A manager of the budget plugin, which is the number 0 and keeps its state.
abbrev instances : Instances (Budgets.Plugin ℕ)
instances = record {
  get_metadata = λ p w. some Budgets.metadata;
  initialize = λ p req w. (false, Budgets.initialize whole budgets_json req w);
  execute = λ p req w. (executed "json" (Handlers.execute whole budgets_json req w), w);
  shutdown = λ p w. w;
}

abbrev managed : Manager
managed = (register instances 0 budgets new_manager).1

managed-Registered : Registered instances managed
managed-Registered = Names.registers new_manager 0 budgets created

list_plugins-register_example :
    Unique same_name (list_plugins reverse managed)
    × ((register instances 1 budgets managed).0 ≡ (
        if any (λ x. x.name == "budgets") (list_plugins reverse managed)
        then some "already registered"
        else none))
    × Perm (list_plugins (λ ps. ps) (register instances 1 budgets managed).1) (
        if any (λ x. x.name == "budgets") (list_plugins reverse managed)
        then list_plugins reverse managed
        else list_plugins reverse managed ++ Budgets.metadata ∷ [])
list_plugins-register_example =
    list_plugins-register instances reverse (λ ps. ps) 1 budgets managed Budgets.metadata
      (λ ps. reverse_perm ps) (λ ps. Perm.refl ps) managed-Registered refl

shutdown_all-initialize_all_example :
    (shutdown_all instances budgets
      (initialize_all instances "http://o" budgets managed).0).0.bridges
    ≡ []
shutdown_all-initialize_all_example =
    shutdown_all-initialize_all instances "http://o" managed budgets budgets managed-Registered

abbrev listening : Hub
unfolding Stream.register
listening = Stream.register new_hub

abbrev exceeded : PluginEvent
exceeded = record {
  type = "exceeded";
  topic = "budget.exceeded";
  source = "budgets";
  payload = "web";
}

bridge_delivers_example :
    (h' : Hub) × (bridge_events
        (λ e. some e.payload)
        channel
        (emitted exceeded ∷ done ∷ emitted exceeded ∷ [])
        listening
      ≡ some h')
    × (h'.clients ≡ listening.clients)
    × ((h'.cell 0).send ≡ "web" ∷ [])
unfolding listening addressed subscribed_to any
bridge_delivers_example =
    bridge_delivers (λ e. some e.payload) (emitted exceeded ∷ done ∷ emitted exceeded ∷ []) 0
      listening (steps new_hub listening starts (registers new_hub)) refl
