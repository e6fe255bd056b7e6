-- ===== src/Collector/Scheduler.antt =====
-- internal/collector/scheduler.go: one round of a collection. A round returns the tables and the events
-- that it publishes, in order; internal/stream/hub.go delivers them.
pub mod Windows
pub mod Complete
pub mod Skips
pub mod Start
use fin_guard.Prelude.{
  ℕ, ◌+◌, ◌-◌, String, Option, none, some, List, [], ◌∷◌, ◌++◌, Bool, true, false, ◌&&◌, ◌==◌,
  if◌then◌else◌, length, any, Result, ok, err,
}
use fin_guard.Models.{
  Time, Project, CostSource, CostRecord, cost_source_aws, cost_source_azure, cost_source_gcp,
  cost_source_kubernetes,
}
use fin_guard.Store.Db.{Db, Env}
use fin_guard.Store.Projects.{list_projects}
use fin_guard.Store.Sources.{list_cost_sources, update_cost_source_collected_at}
use fin_guard.Store.Costs.{LabelsJson, insert_cost_records}
use fin_guard.Collector.Registry.{TimeWindow, Collected, records, failed, Collector, Registry, get}

-- pkg/event/event.go, without the time; the payload is the map of texts.
pub record Event : Type 0 where
  pub type : String
  pub topic : String
  pub source : String
  pub payload : List (String × String)

-- What one `collectSource` meets: the three readings of the clock, and the calls of the store.
pub record Round : Type 0 where
  pub starting : Time
  pub ending : Time
  pub stamp : Time
  pub begin : Env
  pub prepare : Env
  pub inserting : ℕ → Env
  pub commit : Env
  pub marking : Env

abbrev pub day : Time
day = 86400000000000

abbrev pub start_of : Time → Option Time → Time
start_of now none = now - day
start_of now (some t) = t

abbrev pub window_of : Round → CostSource → TimeWindow
window_of r source = record { start = start_of r.starting source.last_collected_at; end = r.ending }

-- `publishEvent`; without a hub it does nothing.
abbrev pub publish_event : Bool → String → String → List (String × String) → List Event
publish_event hub type source payload =
    if hub
    then record { type = type; topic = "cost.collection"; source = source; payload = payload } ∷ []
    else []

-- The rows of `InsertCostRecords`, each with what its statement meets, from the `n`-th on.
abbrev pub numbered : {R : Type 0} → (ℕ → Env) → ℕ → List (CostRecord R) → List (Env × CostRecord R)
numbered at n [] = []
numbered at n (x ∷ xs) = (at n, x) ∷ numbered at (n + 1) xs

-- The scheduler's fields that do not change, with json and strconv.
pub record Scheduler (R : Type 0) : Type 0 where
  pub registry : Registry R
  pub has_hub : Bool
  pub json : LabelsJson
  pub itoa : ℕ → String

-- `!source.Enabled || !typeSet[source.Type]` is `continue`.
abbrev pub has_type : List String → CostSource → Bool
has_type types source = source.enabled && any (λ t. t == source.type) types

module _ {R : Type 0} (s : Scheduler R) where
  -- The end of `collectSource`: an error of the update is logged.
  unfoldable pub complete : Round → CostSource → ℕ → Db R → Db R × List Event
  complete r source count db = (
    (update_cost_source_collected_at r.marking source.id r.stamp db).1,
    publish_event s.has_hub "collection.complete" source.name
        (("sourceId", source.id) ∷ ("records", s.itoa count) ∷ []),
  )

  -- After `InsertCostRecords`.
  abbrev pub inserted : Round → CostSource → ℕ → Result (Unit {0}) × Db R → Db R × List Event
  inserted r source count (err f, db) = (db, [])
  inserted r source count (ok _, db) = complete r source count db

  -- After `Collect`.
  abbrev pub collected : Round → CostSource → Collected R → Db R → Db R × List Event
  collected r source (failed text) db = (
    db,
    publish_event s.has_hub "collection.failed" source.name
        (("sourceId", source.id) ∷ ("error", text) ∷ []),
  )
  collected r source (records []) db = complete r source 0 db
  collected r source (records (x ∷ xs)) db =
      inserted r source (length (x ∷ xs))
        (insert_cost_records s.json r.begin r.prepare (numbered r.inserting 0 (x ∷ xs)) r.commit db)

  -- After the look-up of the collector.
  abbrev pub with_collector : Round → CostSource → Option (Collector R) → Db R → Db R × List Event
  with_collector r source none db = (db, [])
  with_collector r source (some c) db =
      collected r source (c.collect source (window_of r source)) db

  unfoldable pub collect_source : Round → CostSource → Db R → Db R × List Event
  unfolding complete
  collect_source r source db = with_collector r source (get source.type s.registry) db

  -- The loop over the sources of a project, which skips those that `wanted` refuses.
  unfoldable pub collect_sources :
      (CostSource → Bool) → (ℕ → Round) → ℕ → List CostSource → Db R → Db R × List Event
  collect_sources wanted rounds n [] db = (db, [])
  collect_sources wanted rounds n (source ∷ sources) db =
      let here = if wanted source then collect_source (rounds n) source db else (db, []) in
      let rest = collect_sources wanted rounds (n + 1) sources here.0 in (rest.0, here.1 ++ rest.1)

  -- After `ListCostSources`; an error is logged, and the loop goes on.
  abbrev pub with_sources :
      (CostSource → Bool) → (ℕ → Round) → Result (List CostSource) → Db R → Db R × List Event
  with_sources wanted rounds (err f) db = (db, [])
  with_sources wanted rounds (ok sources) db = collect_sources wanted rounds 0 sources db

  unfoldable pub collect_for_project :
      (CostSource → Bool) → Env → (ℕ → Round) → String → Db R → Db R × List Event
  unfolding collect_sources
  collect_for_project wanted e rounds id db =
      with_sources wanted rounds (list_cost_sources e id db) db

  -- The loop over the projects.
  unfoldable pub collect_projects :
      (CostSource → Bool)
      → (ℕ → Env)
      → (ℕ → ℕ → Round)
      → ℕ
      → List Project
      → Db R
      → Db R × List Event
  collect_projects wanted listing rounds n [] db = (db, [])
  collect_projects wanted listing rounds n (p ∷ ps) db =
      let here = collect_for_project wanted (listing n) (rounds n) p.id db in
      let rest = collect_projects wanted listing rounds (n + 1) ps here.0 in
      (rest.0, here.1 ++ rest.1)

  -- After `ListProjects`.
  abbrev pub with_projects :
      (CostSource → Bool)
      → (ℕ → Env)
      → (ℕ → ℕ → Round)
      → Result (List Project)
      → Db R
      → Db R × List Event
  with_projects wanted listing rounds (err f) db = (db, [])
  with_projects wanted listing rounds (ok ps) db = collect_projects wanted listing rounds 0 ps db

  unfoldable pub collect_all : Env → (ℕ → Env) → (ℕ → ℕ → Round) → Db R → Db R × List Event
  unfolding collect_projects
  collect_all e listing rounds db =
      with_projects (λ source. source.enabled) listing rounds (list_projects e db) db

  unfoldable pub collect_by_types :
      List String → Env → (ℕ → Env) → (ℕ → ℕ → Round) → Db R → Db R × List Event
  unfolding collect_projects
  collect_by_types types e listing rounds db =
      with_projects (has_type types) listing rounds (list_projects e db) db

-- The source types of the two tickers.
abbrev pub csp_types : List String
csp_types = cost_source_aws ∷ cost_source_azure ∷ cost_source_gcp ∷ []

abbrev pub kubernetes_types : List String
kubernetes_types = cost_source_kubernetes ∷ []
