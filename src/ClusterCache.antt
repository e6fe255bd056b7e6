-- ===== src/ClusterCache.antt =====
-- internal/clustercache/cache.go. What an informer of client-go has put into its store is a list of
-- objects, which only grows or changes in steps of the informer; a nil store is `none`.
pub mod Ready
use fin_guard.Prelude.{
  ℕ, String, Option, none, some, List, [], ◌∷◌, Bool, true, false, ◌==◌, if◌then◌else◌, length,
  first,
}
use fin_guard.Server.Status.{Namespace, Node}
use fin_guard.Server.Status

-- A runtime.Object; its key is the name where it has no namespace.
pub data Object : Type 0 where
  namespace_object : Namespace → Object
  node_object : Node → Object
  pod_object : String → Object

pub record Cache : Type 0 where
  pub namespaces : Option (List Object)
  pub nodes : Option (List Object)
  pub pods : Option (List Object)
  pub ready : Bool
  -- whether `stopCh` is closed
  pub stopped : Bool

abbrev pub new_with_clientset : Cache
new_with_clientset = record {
  namespaces = none;
  nodes = none;
  pods = none;
  ready = false;
  stopped = false;
}

-- `Start`: the store of a new informer is empty, and the informer fills it from a goroutine.
unfoldable pub start : Cache → Cache
start c = record c { namespaces = some []; nodes = some []; pods = some []; ready = true }

-- `close(c.stopCh)`, which panics the second time.
unfoldable pub stop : Cache → Option Cache
stop c = if c.stopped then none else some (record c { stopped = true })

abbrev pub namespaces_in : List Object → List Namespace
namespaces_in [] = []
namespaces_in (namespace_object ns ∷ items) = ns ∷ namespaces_in items
namespaces_in (node_object n ∷ items) = namespaces_in items
namespaces_in (pod_object name ∷ items) = namespaces_in items

abbrev pub nodes_in : List Object → List Node
nodes_in [] = []
nodes_in (node_object n ∷ items) = n ∷ nodes_in items
nodes_in (namespace_object ns ∷ items) = nodes_in items
nodes_in (pod_object name ∷ items) = nodes_in items

abbrev pub pods_in : List Object → List String
pods_in [] = []
pods_in (pod_object name ∷ items) = name ∷ pods_in items
pods_in (namespace_object ns ∷ items) = pods_in items
pods_in (node_object n ∷ items) = pods_in items

unfoldable pub get_namespaces : Option (List Object) → List Namespace
get_namespaces none = []
get_namespaces (some items) = namespaces_in items

unfoldable pub get_nodes : Option (List Object) → List Node
get_nodes none = []
get_nodes (some items) = nodes_in items

unfoldable pub get_pods : Option (List Object) → List String
get_pods none = []
get_pods (some items) = pods_in items

abbrev pub key_of : Object → String
key_of (namespace_object ns) = ns.name
key_of (node_object n) = n.name
key_of (pod_object name) = name

abbrev pub as_namespace : Option Object → Option Namespace
as_namespace (some (namespace_object ns)) = some ns
as_namespace (some (node_object n)) = none
as_namespace (some (pod_object name)) = none
as_namespace none = none

unfoldable pub get_namespace : String → Option (List Object) → Option Namespace
get_namespace name none = none
get_namespace name (some items) = as_namespace (first (λ o. key_of o == name) items)

-- What the handlers of internal/server/server.go get of it.
abbrev pub view : Cache → Status.Cache
view c = record {
  is_ready = c.ready;
  namespaces = get_namespaces c.namespaces;
  nodes = get_nodes c.nodes;
  pods = length (get_pods c.pods);
}
