-- ===== src/Plugins/Budgets/Handlers.antt =====
-- The handlers of plugins/budgets/plugin.go.
use Prim.Native.String
use fin_guard.Prelude.{String, Option, none, some, ◌==◌, if◌then◌else◌, length}
use fin_guard.Float64.{Float64}
use fin_guard.Plugins.{ExecuteRequest, ExecuteResponse}
use fin_guard.Plugins.Budgets.{BudgetsJson, Plugin}

module _ (F : Float64) (json : BudgetsJson F.Carrier) where
  open F use {Carrier}

  abbrev pub found_data : Option String → Option ExecuteResponse
  found_data none = none
  found_data (some body) =
      some
        (record { body = body; content_type = "application/json"; status_code = 200; error = "" })

  unfoldable pub handle_status : Plugin Carrier → Option ExecuteResponse
  handle_status p = found_data (json.marshal_statuses p.statuses (length p.statuses))

  unfoldable pub handle_config : Plugin Carrier → Option ExecuteResponse
  handle_config p = found_data (json.marshal_budgets p.budgets)

  -- `none` is an error of json.
  unfoldable pub execute : ExecuteRequest → Plugin Carrier → Option ExecuteResponse
  unfolding handle_status handle_config
  execute req p =
      if req.action == "/status"
      then handle_status p
      else if req.action == "/config"
      then handle_config p
      else some (record {
        body = "";
        content_type = "";
        status_code = 404;
        error = String.◌++◌ "unknown action: " req.action;
      })
