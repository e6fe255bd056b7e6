-- ===== src/Lib.antt =====
-- FinGuard collects the costs of cloud accounts and clusters into a database, serves them to the users
-- of projects over HTTP, and streams events to websocket clients. This library models the Go code in
-- functions that run, and states what holds of it.
--
-- Parts, and how they interact:
--   models      internal/models/models.go: Models. A time is a number of nanoseconds, a float64 a value
--               of a parameter (Float64).
--   store       internal/store/sql.go, store.go, rebind.go and migrations/000001_init.up.sql: Store.
--               The tables are lists of rows (Store.Db). A method `CreateProject` is `create_project`,
--               which maps an `Env` (the driver, the clock, the next identifier, whether the engine
--               fails) and the tables to a result and the tables after it. A statement checks the
--               constraints of the schema and runs whole or not at all; a deletion runs the ON DELETE
--               actions. Store.Call has the writing calls as data, and the tables that they reach.
--               Store.CostQuery is the builder of WHERE texts with the meaning of its conditions,
--               Store.Costs the cost records, Store.Rebind the rewriting of placeholders on bytes.
--   sign-in     internal/auth/auth.go: Auth.Web (requests, responses and the packages that the code
--               calls), Auth.Setup, Auth.Manager, Auth.Provision and Auth.Callback. Early returns are
--               one function for each stage, named for what has been passed.
--   roles       internal/auth/rbac.go: Auth.Rbac, over the record RoleStore of the store's methods;
--               Auth.Rbac.Admin fills it with the relational store.
--   hub         internal/stream/hub.go: Stream. The pointers to clients are numbers into a heap, and a
--               send on a closed channel is `none`. Stream.Safety.Members has the critical sections as a step
--               relation; Unregister is two steps, since it closes the channel outside the lock.
--   collection  internal/collector/collector.go and scheduler.go: Collector.Registry, Collector.Scheduler.
--               A collector is a function of the source and the window; a round returns the tables and
--               the events that it publishes.
--   handlers    internal/server/projects.go: Server. A handler maps the decoded body and the tables to
--               a reply and the tables; Server.Request has the requests as data.
--   status      internal/server/server.go, the handlers of health and of the cluster: Server.Status, over
--               what the methods of the cluster cache and of the proxy return.
--   migrations  internal/store/migrate.go: Store.Migrate. A script is a function on the state. Store.Open is
--               the opening of the database.
--   routes      the routes below /api/v1 of internal/server/server.go: Server.Api, the middleware of
--               internal/auth/auth.go in front of the handlers, over the tables, the plugins' state and the
--               hub. Server.Connection is a client of the event stream, from the registration to the
--               deferred Unregister; what its goroutines meet is a list of moments, at whose end the write
--               pump waits unless it has returned. Each call of the hub is one step there, also that of
--               Subscribe, which takes no lock in the code.
--   collectors  internal/collector/aws, azure, gcp and kubernetes: Collector.Cloud, with the registry that
--               cmd/finguard/main.go fills (Wiring). What a decoder returns is a value of Parsed.
--   plugins     pkg/plugin/plugin.go: Plugins. internal/plugin/manager.go is Plugins.Manager, over the
--               record Instances of a plugin's methods; its bridges pass events on to Stream. The order
--               in which ListPlugins meets the map is a parameter; the other loops follow its list.
--               plugins/budgets is Plugins.Budgets, plugins/costbreakdown is Plugins.CostBreakdown; their
--               channels are Plugins.Channel, where a send on a closed one is `none`.
--   OpenCost    internal/opencostproxy/proxy.go and mock.go: OpenCost, the passing on of a request and the
--               answers of the mock.
--   cache       internal/clustercache/cache.go: ClusterCache. The store of an informer is the list of the
--               objects that it has listed; Server.Status sees the cache by `view`.
--   settings    internal/config/config.go: Config.
--   Prelude has the shared types and lemmas, and Tests runs the model at concrete inputs.
--
-- Bounds: the only recursion on fuel is the decimal numeral of a placeholder (Store.Rebind.itoa), whose
-- fuel is above the number while each digit divides it by ten. Every other loop is over a list.
--
-- Parameters: float64 (Float64), encoding/json (LabelsJson, Codec, Parsed, BudgetsJson and the functions
-- that render events), securecookie (Codec), oauth2 and oidc (Oidc), strconv in events, the collation of
-- ORDER BY, the clock and the identifiers (Env, Round), the names of migration files (FileNames),
-- net/http and net/url (Http, Fetched), the draws of math/rand (Chance), the environment (Config), what
-- database/sql makes of the opening (Driver), the plugins of a manager (Instances) and the order in
-- which a loop meets its map.
--
-- Not modelled: the mounting of routes by chi and the static files, the tickers, whose loops repeat the
-- operations that are modelled, the informers of client-go, the construction of the parts in
-- cmd/finguard/main.go, the generated docs/swagger and the web frontend.
pub mod Prelude
pub mod Float64
pub mod Models
pub mod Store
pub mod Tests
pub mod Auth
pub mod Collector
pub mod ClusterCache
pub mod Config
pub mod OpenCost
pub mod Plugins
pub mod Server
pub mod Stream
