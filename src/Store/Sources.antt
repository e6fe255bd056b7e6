-- ===== src/Store/Sources.antt =====
-- The cost sources of internal/store/sql.go.
use fin_guard.Prelude.{String, Option, some, none, List, ◌∷◌, [], ◌++◌, ◌==◌, if◌then◌else◌}
use fin_guard.Prelude.{
  ok, unique_violation, foreign_key_violation, any, first, select, delete, update, sort,
}
use fin_guard.Models.{Time, CostSource}
use fin_guard.Store.Db.{Db, Env, Exec, Query, fail, write, read, given_id, has_project}
use fin_guard.Store.Projects.{unlink}

-- `configJSON`: the column holds an empty object where no configuration was given.
abbrev pub config_json : String → String
config_json config = if config == "" then "{}" else config

abbrev pub stamp_source : Env → CostSource → CostSource
stamp_source e s = record s { id = given_id e s.id; created_at = e.now; updated_at = e.now }

module _ {R : Type 0} where
  -- The statement names no `last_collected_at`, so the column is NULL.
  unfoldable pub create_cost_source : Env → CostSource → Exec R CostSource
  create_cost_source e s = write e λ db.
      let cs = stamp_source e s in
      let row = record cs { config = config_json cs.config; last_collected_at = none } in
      if any (λ t. t.id == row.id) db.cost_sources
      then fail unique_violation db
      else if has_project row.project_id db
      then (ok cs, record db { cost_sources = db.cost_sources ++ row ∷ [] })
      else fail foreign_key_violation db

  unfoldable pub get_cost_source : Env → String → Query R (Option CostSource)
  get_cost_source e id = read e λ db. ok (first (λ s. s.id == id) db.cost_sources)

  unfoldable pub list_cost_sources : Env → String → Query R (List CostSource)
  list_cost_sources e project_id = read e λ db. ok (
      sort (λ s t. e.collate s.name t.name)
        (select (λ s. s.project_id == project_id) db.cost_sources))

  unfoldable pub update_cost_source : Env → CostSource → Exec R CostSource
  update_cost_source e s = write e λ db.
      let cs = record s { updated_at = e.now } in
      (
        ok cs,
        record db {
          cost_sources =
              update (λ t. t.id == cs.id)
                (λ t. record t {
                  name = cs.name;
                  config = config_json cs.config;
                  enabled = cs.enabled;
                  updated_at = cs.updated_at;
                })
                db.cost_sources;
        },
      )

  -- The ON DELETE actions of a deleted cost source.
  unfoldable pub cascade_source : String → Db R → Db R
  unfolding unlink
  cascade_source id db = record db {
    cost_sources = delete (λ s. s.id == id) db.cost_sources;
    budgets = unlink (λ c. c == id) db.budgets;
    cost_records = delete (λ r. r.cost_source_id == id) db.cost_records;
  }

  unfoldable pub delete_cost_source : Env → String → Exec R (Unit {0})
  unfolding cascade_source
  delete_cost_source e id = write e λ db. (ok tt, cascade_source id db)

  unfoldable pub update_cost_source_collected_at : Env → String → Time → Exec R (Unit {0})
  update_cost_source_collected_at e id t = write e λ db. (
    ok tt,
    record db {
      cost_sources =
          update (λ s. s.id == id)
            (λ s. record s { last_collected_at = some t; updated_at = e.now }) db.cost_sources;
    },
  )
