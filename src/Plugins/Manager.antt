-- ===== src/Plugins/Manager.antt =====
-- internal/plugin/manager.go. A plugin is a number, and what the plugins keep is a state `W` that their
-- methods change. A context that `InitializeAll` makes is a number too, and its bridge runs until the
-- context is cancelled.
pub mod Bridges
pub mod Names
pub mod Contexts
pub mod Handler
use Prim.Native.String
use fin_guard.Prelude.{
  ℕ, ◌+◌, String, Option, none, some, List, [], ◌∷◌, ◌++◌, map, Bool, ◌||◌, ◌==◌, if◌then◌else◌,
  nat_eq, any, delete,
}
use fin_guard.Stream.{Hub, Payload, publish}
use fin_guard.Plugins.{Metadata, Route, InitRequest, ExecuteRequest, ExecuteResponse, PluginEvent}

-- The response of `Execute`, or the text of its error.
pub data Executed : Type 0 where
  responded : ExecuteResponse → Executed
  refused : String → Executed

-- The interface `Plugin`; an error that is only logged is `none`, or true.
pub record Instances (W : Type 0) : Type 0 where
  pub get_metadata : ℕ → W → Option Metadata
  -- whether it fails
  pub initialize : ℕ → InitRequest → W → Bool × W
  pub execute : ℕ → ExecuteRequest → W → Executed × W
  pub shutdown : ℕ → W → W

pub record RegisteredPlugin : Type 0 where
  pub instance_id : ℕ
  pub meta : Metadata
  -- the context that `cancel` cancels
  pub cancel : Option ℕ

pub record Manager : Type 0 where
  -- the map, as a list of its entries
  pub plugins : List (String × RegisteredPlugin)
  -- the contexts whose bridge runs
  pub bridges : List ℕ

abbrev pub new_manager : Manager
new_manager = record { plugins = []; bridges = [] }

abbrev pub is_registered : String → Manager → Bool
is_registered name m = any (λ x. x.0 == name) m.plugins

-- The message of the error, or `none`.
abbrev pub with_metadata : ℕ → Manager → Option Metadata → Option String × Manager
with_metadata p m none = (some "failed to get plugin metadata", m)
with_metadata p m (some meta) =
    if is_registered meta.name m then (some "already registered", m) else (
      none,
      record m {
        plugins =
            m.plugins ++ (meta.name, record { instance_id = p; meta = meta; cancel = none }) ∷ [];
      },
    )

-- `ListPlugins`; `visit` is the order in which the loop over the map meets its entries, which Go leaves
-- open and which may differ from call to call.
unfoldable pub list_plugins :
    (List (String × RegisteredPlugin) → List (String × RegisteredPlugin)) → Manager → List Metadata
list_plugins visit m = map (λ x. x.1.meta) (visit m.plugins)

-- A run of the loop of `InitializeAll`; the `n`-th plugin gets the context `n`.
abbrev pub initialized : ℕ → RegisteredPlugin → Bool → RegisteredPlugin
initialized n rp failed = if failed then rp else record rp { cancel = some n }

abbrev pub cancelled : Option ℕ → List ℕ → List ℕ
cancelled none bridges = bridges
cancelled (some n) bridges = delete (λ b. nat_eq b n) bridges

module _ {W : Type 0} (is : Instances W) where
  unfoldable pub register : ℕ → W → Manager → Option String × Manager
  register p w m = with_metadata p m (is.get_metadata p w)

  unfoldable pub initialize_each :
      InitRequest
      → ℕ
      → List (String × RegisteredPlugin)
      → W
      → List (String × RegisteredPlugin) × List ℕ × W
  initialize_each req n [] w = ([], [], w)
  initialize_each req n ((name, rp) ∷ ps) w =
      let done = is.initialize rp.instance_id req w in
      let rest = initialize_each req (n + 1) ps done.1 in
      ((name, initialized n rp done.0) ∷ rest.0, (if done.0 then rest.1 else n ∷ rest.1), rest.2)

  unfoldable pub initialize_all : String → W → Manager → Manager × W
  initialize_all open_cost_url w m =
      let all =
        initialize_each (record { config = ""; open_cost_url = open_cost_url }) 0 m.plugins w in
      (record m { plugins = all.0; bridges = m.bridges ++ all.1 }, all.2)

  -- The loop of `ShutdownAll`; an error of a plugin is logged.
  unfoldable pub shutdown_each : List (String × RegisteredPlugin) → List ℕ → W → List ℕ × W
  shutdown_each [] bridges w = (bridges, w)
  shutdown_each ((name, rp) ∷ ps) bridges w =
      shutdown_each ps (cancelled rp.cancel bridges) (is.shutdown rp.instance_id w)

  unfoldable pub shutdown_all : W → Manager → Manager × W
  unfolding shutdown_each
  shutdown_all w m =
      let all = shutdown_each m.plugins m.bridges w in (record m { bridges = all.0 }, all.1)

-- What the `select` of a bridge meets.
pub data Happening : Type 0 where
  -- the context is cancelled
  done : Happening
  -- the channel is closed and empty
  closed : Happening
  emitted : PluginEvent → Happening

-- What `StreamEvents` returns.
pub data EventStream : Type 0 where
  stream_error : EventStream
  nil_channel : EventStream
  channel : EventStream

module _ (render : PluginEvent → Option Payload) where
  -- The loop of `bridgeEvents`, over what its `select` meets in turn; `none` is a panic.
  unfoldable pub bridge : List Happening → Hub → Option Hub
  bridge [] h = some h
  bridge (done ∷ rest) h = some h
  bridge (closed ∷ rest) h = some h
  bridge (emitted e ∷ rest) h = elim (publish e.topic (render e) h) [
    | none ↦ none
    | some h' ↦ bridge rest h'
  ]

  abbrev pub bridge_events : EventStream → List Happening → Hub → Option Hub
  bridge_events stream_error happenings h = some h
  bridge_events nil_channel happenings h = some h
  bridge_events channel happenings h = bridge happenings h

-- A route that `MountRoutes` mounts, below `/plugins/` and the plugin's name.
pub record Mount : Type 0 where
  pub prefix : String
  pub method : String
  pub path : String
  pub instance_id : ℕ

unfoldable pub mount_plugin : String → ℕ → List Route → List Mount
mount_plugin name p [] = []
mount_plugin name p (r ∷ rs) =
    let rest = mount_plugin name p rs in
    if r.method == "GET" || r.method == "POST"
    then record {
      prefix = String.◌++◌ "/plugins/" name;
      method = r.method;
      path = r.path;
      instance_id = p;
    }
      ∷ rest
    else rest

unfoldable pub mount_each : List (String × RegisteredPlugin) → List Mount
unfolding mount_plugin
mount_each [] = []
mount_each ((name, rp) ∷ ps) = mount_plugin name rp.instance_id rp.meta.routes ++ mount_each ps

abbrev pub mount_routes : Manager → List Mount
mount_routes m = mount_each m.plugins
