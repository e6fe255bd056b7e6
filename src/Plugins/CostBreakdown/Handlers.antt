-- ===== src/Plugins/CostBreakdown/Handlers.antt =====
-- The handlers of plugins/costbreakdown/plugin.go.
use Prim.Native.String
use fin_guard.Prelude.{ℕ, String, Option, none, some, ◌==◌, if◌then◌else◌, length}
use fin_guard.Float64.{Float64}
use fin_guard.Plugins.{ExecuteRequest, ExecuteResponse}
use fin_guard.Plugins.CostBreakdown.{
  MarshalRecommendations, Plugin, Answer, bad_request, unreachable, unread, answered,
}

module _ (F : Float64) (marshal : MarshalRecommendations F.Carrier) where
  open F use {Carrier}

  abbrev pub found : Option String → Option ExecuteResponse
  found none = none
  found (some body) =
      some
        (record { body = body; content_type = "application/json"; status_code = 200; error = "" })

  unfoldable pub handle_recommendations : Plugin Carrier → Option ExecuteResponse
  handle_recommendations p = found (marshal (length p.recommendations) p.recommendations)

  abbrev pub failing : ℕ → String → ExecuteResponse
  failing status error = record {
    body = "";
    content_type = "";
    status_code = status;
    error = error;
  }

  abbrev pub summarised : Answer → ExecuteResponse
  summarised (bad_request e) = failing 500 e
  summarised (unreachable e) = failing 502 e
  summarised (unread e) = failing 500 e
  summarised (answered status body) = record {
    body = body;
    content_type = "application/json";
    status_code = status;
    error = "";
  }

  unfoldable pub handle_summary : (String → Answer) → Plugin Carrier → ExecuteResponse
  handle_summary fetch p = summarised (
      fetch
        (String.◌++◌ p.open_cost_url "/allocation?window=24h&aggregate=namespace&accumulate=true"))

  -- `none` is an error of json.
  unfoldable pub execute :
      (String → Answer) → ExecuteRequest → Plugin Carrier → Option ExecuteResponse
  unfolding handle_recommendations handle_summary
  execute fetch req p =
      if req.action == "/recommendations"
      then handle_recommendations p
      else if req.action == "/summary"
      then some (handle_summary fetch p)
      else some (failing 404 (String.◌++◌ "unknown action: " req.action))
