-- ===== src/Server/Api.antt =====
-- The routes below /api/v1 that `routes` of internal/server/server.go mounts: the middleware of
-- internal/auth/auth.go in front, then the handler.
pub mod Guard
pub mod Settings
use fin_guard.Prelude.{ℕ, String, Option, none, some, List, [], Bool, true, false}
use fin_guard.Float64.{Float64}
use fin_guard.Models.{Time}
use fin_guard.Store.Db.{Db, Env}
use fin_guard.Auth.Session.{SessionData, Verdict, serve, deny}
use fin_guard.Auth.Web.{Response, Codec, plain, status_json}
use fin_guard.Auth.Manager.{handle_user_info, middleware}
use fin_guard.Auth.Web
use fin_guard.Server.Reply.{Reply}
use fin_guard.Server.Request
use fin_guard.Server.Status
use fin_guard.Server.Status.{
  Cache, handle_cluster_summary, handle_namespaces, handle_nodes, handle_detailed_health,
}
use fin_guard.OpenCost.{Http, Incoming}
use fin_guard.OpenCost.Routes.{
  Chance, Served, proxy_allocation, proxy_assets, proxy_cloud_cost, proxy_custom_cost,
}
use fin_guard.Plugins.{Metadata}
use fin_guard.Stream.{Payload, Hub}
use fin_guard.Server.Connection.{Moment, Pumped, hub_of, handle_stream}
use fin_guard.Plugins.Manager.{Instances, Manager, RegisteredPlugin, list_plugins}
use fin_guard.Plugins.Manager.Handler.{PluginReply, make_plugin_handler}

-- The route that matched, with what its handler reads of the request.
pub data Asked : Type 0 where
  me : Asked
  allocation : Incoming → Asked
  assets : Incoming → Asked
  cloud_cost : Incoming → Asked
  custom_cost : Incoming → Asked
  cluster : Asked
  namespaces : Asked
  nodes : Asked
  health : Asked
  projects : Request.Request → Asked
  plugins : Asked
  -- the plugin and the path of a mounted route, with the query
  plugin_route : ℕ → String → List (String × List String) → Asked
  -- whether the websocket is accepted, the welcome, and what the connection meets
  stream : Bool → Option Payload → List Moment → Asked

pub data Answer (R : Type 0) : Type 0 where
  -- the middleware's error
  denied : ℕ → String → Answer R
  user : Response → Answer R
  status : Status.Answer → Answer R
  open_cost : Served R → Answer R
  project : Reply R → Answer R
  -- {"plugins": …}
  plugin_metadata : List Metadata → Answer R
  plugin : PluginReply → Answer R
  streamed : Pumped → Answer R

-- What the routes read besides the tables: `s.auth` and its flag `disabled`, the proxy's health, the
-- cache and the plugin manager, each `none` where the pointer is nil.
pub record Parts (R W : Type 0) : Type 0 where
  pub auth : Option Bool
  pub codec : Codec
  pub healthy : Option Bool
  -- the proxy, with its mock
  pub http : Http
  pub base_url : String
  pub mock : Option (Chance R)
  pub cache : Option Cache
  pub manager : Option Manager
  pub instances : Instances W
  -- the order in which the loop of the list of plugins meets the map
  pub visit : List (String × RegisteredPlugin) → List (String × RegisteredPlugin)

unfoldable pub handle_me : Option Bool → Option SessionData → Response
handle_me none session = plain (status_json 200 "auth disabled")
handle_me (some disabled) session = handle_user_info session

-- A nil manager lists no plugins.
abbrev pub handle_list_plugins :
    (List (String × RegisteredPlugin) → List (String × RegisteredPlugin))
    → Option Manager
    → List Metadata
handle_list_plugins visit none = []
handle_list_plugins visit (some m) = list_plugins visit m

-- `r.Use(s.auth.Middleware)`, where the authentication is enabled.
unfoldable pub authenticated : Option Bool → Codec → Time → Web.Request → Verdict
authenticated none codec now r = serve none
authenticated (some true) codec now r = serve none
authenticated (some false) codec now r = middleware false codec now r

module _ (F : Float64) {W : Type 0} (parts : Parts F.Carrier W) (reading e : Env) where
  open F use {Carrier}

  -- The handler of the route.
  unfoldable pub handled :
      Option SessionData → Asked → Db Carrier × W × Hub → Answer Carrier × (Db Carrier × W × Hub)
  handled session me (db, w, h) = (user (handle_me parts.auth session), (db, w, h))
  handled session (allocation r) (db, w, h) =
      (open_cost (proxy_allocation F parts.http parts.base_url parts.mock r), (db, w, h))
  handled session (assets r) (db, w, h) =
      (open_cost (proxy_assets F parts.http parts.base_url parts.mock r), (db, w, h))
  handled session (cloud_cost r) (db, w, h) =
      (open_cost (proxy_cloud_cost F parts.http parts.base_url parts.mock r), (db, w, h))
  handled session (custom_cost r) (db, w, h) =
      (open_cost (proxy_custom_cost F parts.http parts.base_url parts.mock r), (db, w, h))
  handled session cluster (db, w, h) = (status (handle_cluster_summary parts.cache), (db, w, h))
  handled session namespaces (db, w, h) = (status (handle_namespaces parts.cache), (db, w, h))
  handled session nodes (db, w, h) = (status (handle_nodes parts.cache), (db, w, h))
  handled session health (db, w, h) =
      (status (handle_detailed_health parts.healthy parts.cache), (db, w, h))
  handled session (projects req) (db, w, h) =
      let done = Request.serve F reading e req db in (project done.0, (done.1, w, h))
  handled session plugins (db, w, h) =
      (plugin_metadata (handle_list_plugins parts.visit parts.manager), (db, w, h))
  handled session (plugin_route p action query) (db, w, h) =
      let done = make_plugin_handler parts.instances p action query w in
      (plugin done.0, (db, done.1, h))
  handled session (stream accepted welcome moments) (db, w, h) =
      let done = handle_stream accepted welcome moments h in (streamed done, (db, w, hub_of done))

  -- The handler behind the middleware.
  abbrev pub admitted :
      Verdict → Asked → Db Carrier × W × Hub → Answer Carrier × (Db Carrier × W × Hub)
  admitted (deny code text) asked state = (denied code text, state)
  admitted (serve session) asked state = handled session asked state

  unfoldable pub api :
      Time → Web.Request → Asked → Db Carrier × W × Hub → Answer Carrier × (Db Carrier × W × Hub)
  api now r asked state = admitted (authenticated parts.auth parts.codec now r) asked state
