-- ===== src/Collector/Scheduler/Start.antt =====
-- `Start` of internal/collector/scheduler.go: the collections that it launches, each as a goroutine, over
-- what its `select` meets in turn.
use fin_guard.Prelude.{
  ℕ, ◌+◌, String, List, [], ◌∷◌, ◌++◌, ◌≡◌, refl, Bool, true, false, ◌∙◌, ◌==◌, All, first, arith,
}
use fin_guard.Store.Db.{Db, Env}
use fin_guard.Store.Projects.{list_projects}
use fin_guard.Store.Sources.{get_cost_source}
use fin_guard.Collector.Scheduler.{
  Round, Scheduler, Event, collect_all, collect_by_types, has_type, csp_types, kubernetes_types,
}
use fin_guard.Collector.Scheduler.Skips.{Skipped, with_projects-Kept, found_again}

pub data Tick : Type 0 where
  stopped : Tick
  csp_tick : Tick
  kubernetes_tick : Tick

pub data Job : Type 0 where
  everything : Job
  of_types : List String → Job

-- The loop.
unfoldable pub ticked : List Tick → List Job
ticked [] = []
ticked (stopped ∷ rest) = []
ticked (csp_tick ∷ rest) = of_types csp_types ∷ ticked rest
ticked (kubernetes_tick ∷ rest) = of_types kubernetes_types ∷ ticked rest

-- The flag `running`, and what is launched.
unfoldable pub start : Bool → List Tick → List Job × Bool
start true ticks = ([], true)
start false ticks = (everything ∷ ticked ticks, true)

-- What one launched collection meets.
pub record Meets : Type 0 where
  pub first_listing : Env
  pub listing : ℕ → Env
  pub rounds : ℕ → ℕ → Round

module _ {R : Type 0} (s : Scheduler R) where
  abbrev pub run_job : Meets → Job → Db R → Db R × List Event
  run_job m everything db = collect_all s m.first_listing m.listing m.rounds db
  run_job m (of_types types) db = collect_by_types s types m.first_listing m.listing m.rounds db

  -- The launched collections, one after the other.
  unfoldable pub run_jobs : (ℕ → Meets) → ℕ → List Job → Db R → Db R × List Event
  run_jobs meets n [] db = (db, [])
  run_jobs meets n (j ∷ js) db =
      let here = run_job (meets n) j db in
      let rest = run_jobs meets (n + 1) js here.0 in (rest.0, here.1 ++ rest.1)

  -- What is kept of a source that is not enabled.
  abbrev KeptOff : String → Db R → Db R → Type 0
  KeptOff k db after =
      (first (λ x. x.id == k) after.cost_sources ≡ first (λ x. x.id == k) db.cost_sources)
      × All (Skipped (λ source. source.enabled) k) after.cost_sources

  run_job-KeptOff :
      (k : String) (m : Meets) (j : Job) (db : Db R)
      → All (Skipped (λ source. source.enabled) k) db.cost_sources
      → KeptOff k db (run_job m j db).0
  unfolding collect_all collect_by_types
  run_job-KeptOff k m everything db h =
      with_projects-Kept s (λ source. source.enabled) (λ source. source.enabled) (λ x w. w)
        (λ x t n. refl) k m.listing m.rounds (list_projects m.first_listing db) db h
  run_job-KeptOff k m (of_types types) db h =
      with_projects-Kept s (has_type types) (λ source. source.enabled) (λ x w. ground (arith, w))
        (λ x t n. refl) k m.listing m.rounds (list_projects m.first_listing db) db h

  run_jobs-KeptOff :
      (k : String) (meets : ℕ → Meets) (n : ℕ) (js : List Job) (db : Db R)
      → All (Skipped (λ source. source.enabled) k) db.cost_sources
      → KeptOff k db (run_jobs meets n js db).0
  unfolding run_jobs
  run_jobs-KeptOff k meets n [] db h = (refl, h)
  run_jobs-KeptOff k meets n (j ∷ js) db h =
      let (found, kept) = run_job-KeptOff k (meets n) j db h in
      let (found', kept') = run_jobs-KeptOff k meets (n + 1) js _ kept in (found' ∙ found, kept')

  -- However long the scheduler runs, the collections that `Start` launches, one after the other, leave
  -- the row of a source that is not enabled as it was.
  pub start_skips :
      (meets : ℕ → Meets) (running : Bool) (ticks : List Tick) (k : String) (later : Env)
      (db : Db R)
      → All (Skipped (λ source. source.enabled) k) db.cost_sources
      → get_cost_source later k (run_jobs meets 0 (start running ticks).0 db).0
        ≡ get_cost_source later k db
  start_skips meets running ticks k later db h =
      let (found, _) = run_jobs-KeptOff k meets 0 (start running ticks).0 db h in
      found_again later k db _ found
