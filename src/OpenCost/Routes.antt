-- ===== src/OpenCost/Routes.antt =====
-- The routes of internal/opencostproxy/proxy.go: the mock where there is one, and OpenCost otherwise.
use fin_guard.Prelude.{ℕ, String, Option, none, some}
use fin_guard.Float64.{Float64}
use fin_guard.Models.{Time}
use fin_guard.OpenCost.{Http, Incoming, ProxyReply, proxy_request}
use fin_guard.OpenCost.Mock.{
  MockBody, handle_allocation, handle_assets, handle_cloud_cost, handle_custom_cost,
}

-- What the mock draws and reads.
pub record Chance (R : Type 0) : Type 0 where
  pub pow10 : ℕ → R
  pub round : R → R
  pub draw : ℕ → R
  pub rfc3339 : Time → String
  pub date_key : Time → String
  pub now : Time

pub data Served (R : Type 0) : Type 0 where
  -- status 200
  mocked : MockBody R → Served R
  passed_on : ProxyReply → Served R

module _ (F : Float64) (http : Http) (base_url : String) where
  open F use {Carrier}

  unfoldable pub proxy_allocation : Option (Chance Carrier) → Incoming → Served Carrier
  proxy_allocation (some c) r = mocked (handle_allocation F c.pow10 c.round c.draw c.rfc3339 c.now)
  proxy_allocation none r = passed_on (proxy_request http base_url r "/allocation")

  unfoldable pub proxy_assets : Option (Chance Carrier) → Incoming → Served Carrier
  proxy_assets (some c) r = mocked (handle_assets F c.pow10 c.round c.draw c.rfc3339 c.now)
  proxy_assets none r = passed_on (proxy_request http base_url r "/assets")

  unfoldable pub proxy_cloud_cost : Option (Chance Carrier) → Incoming → Served Carrier
  proxy_cloud_cost (some c) r =
      mocked (handle_cloud_cost F c.pow10 c.round c.draw c.rfc3339 c.now c.date_key)
  proxy_cloud_cost none r = passed_on (proxy_request http base_url r "/cloudCost")

  unfoldable pub proxy_custom_cost : Option (Chance Carrier) → Incoming → Served Carrier
  proxy_custom_cost (some c) r =
      mocked (handle_custom_cost F c.pow10 c.round c.draw c.rfc3339 c.now)
  proxy_custom_cost none r = passed_on (proxy_request http base_url r "/customCost/total")
