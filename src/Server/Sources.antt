-- ===== src/Server/Sources.antt =====
-- The handlers of /projects/{projectID}/sources in internal/server/projects.go, and that of
-- /projects/{projectID}/costs.
use fin_guard.Prelude.{
  String, Option, none, some, List, Bool, true, ◌||◌, ◌==◌, if◌then◌else◌, Result, ok, err,
}
use fin_guard.Models.{CostSource}
use fin_guard.Float64.{Float64}
use fin_guard.Store.Db.{Db, Env}
use fin_guard.Store.Sources.{
  create_cost_source, get_cost_source, list_cost_sources, delete_cost_source,
}
use fin_guard.Store.CostQuery.{query_of}
use fin_guard.Store.Costs.{CostSummary, aggregate_costs}
use fin_guard.Server.Reply.{
  Reply, reply, Handler, error_body, source_body, sources_body, summary_body,
}
use fin_guard.Server.Projects.{deleted}

-- The body of `handleCreateCostSource`; the config is the raw text.
pub record CreateSource : Type 0 where
  pub type : String
  pub name : String
  pub config : String
  pub enabled : Option Bool

abbrev pub or_enabled : Option Bool → Bool
or_enabled none = true
or_enabled (some b) = b

abbrev pub source_of_request : String → CreateSource → CostSource
source_of_request project_id req = record {
  id = "";
  project_id = project_id;
  type = req.type;
  name = req.name;
  config = req.config;
  enabled = or_enabled req.enabled;
  last_collected_at = none;
  created_at = 0;
  updated_at = 0;
}

module _ {R : Type 0} where
  abbrev pub created : Result CostSource × Db R → Reply R × Db R
  created (ok s, db) = (reply 201 (source_body s), db)
  created (err e, db) = (reply 500 (error_body "failed to create cost source"), db)

  unfoldable pub handle_create_cost_source : Env → String → Option CreateSource → Handler R
  handle_create_cost_source e project_id none db =
      (reply 400 (error_body "invalid request body"), db)
  handle_create_cost_source e project_id (some req) db =
      if req.name == "" || req.type == ""
      then (reply 400 (error_body "name and type are required"), db)
      else created (create_cost_source e (source_of_request project_id req) db)

  abbrev pub listed : Result (List CostSource) → Reply R
  listed (err e) = reply 500 (error_body "failed to list cost sources")
  listed (ok ss) = reply 200 (sources_body ss)

  unfoldable pub handle_list_cost_sources : Env → String → Handler R
  handle_list_cost_sources e project_id db = (listed (list_cost_sources e project_id db), db)

  abbrev pub found : Result (Option CostSource) → Reply R
  found (err e) = reply 500 (error_body "failed to get cost source")
  found (ok none) = reply 404 (error_body "cost source not found")
  found (ok (some s)) = reply 200 (source_body s)

  -- The project of the path is not read.
  unfoldable pub handle_get_cost_source : Env → String → String → Handler R
  handle_get_cost_source e project_id id db = (found (get_cost_source e id db), db)

  unfoldable pub handle_delete_cost_source : Env → String → String → Handler R
  handle_delete_cost_source e project_id id db =
      deleted "failed to delete cost source" (delete_cost_source e id db)

  abbrev pub summarised : Result (CostSummary R) → Reply R
  summarised (err e) = reply 500 (error_body "failed to get costs")
  summarised (ok s) = reply 200 (summary_body s)

module _ (F : Float64) where
  open F use {Carrier}

  unfoldable pub handle_get_project_costs : Env → String → Handler Carrier
  handle_get_project_costs e project_id db =
      (summarised (aggregate_costs F e (query_of project_id) db), db)
