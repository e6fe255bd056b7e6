-- ===== src/Server/Status.antt =====
-- The handlers of internal/server/server.go for health, readiness and the cluster, with the bodies of
-- pkg/api/types.go. The cluster cache and the proxy are what their methods return; `none` is a nil
-- pointer. The nodes and namespaces are those of client-go, in the parts that are read.
pub mod Agree
use fin_guard.Prelude.{
  ℕ, String, Option, none, some, List, [], ◌∷◌, ◌++◌, map, Bool, true, false, ◌==◌, if◌then◌else◌,
  length, first,
}
use fin_guard.Models.{Labels}

pub record Namespace : Type 0 where
  pub name : String
  pub labels : Option Labels
  pub annotations : Option Labels

pub record Node : Type 0 where
  pub name : String
  pub labels : Option Labels
  -- the quantities of the status, as `String` renders them
  pub capacity_cpu : String
  pub capacity_memory : String
  pub allocatable_cpu : String
  pub allocatable_memory : String

-- What the methods of the cache return.
pub record Cache : Type 0 where
  pub is_ready : Bool
  pub namespaces : List Namespace
  pub nodes : List Node
  pub pods : ℕ

pub record NamespaceInfo : Type 0 where
  pub name : String
  pub labels : Option Labels
  pub annotations : Option Labels
  pub cost_center : String
  pub team : String

pub record NodeInfo : Type 0 where
  pub name : String
  pub labels : Option Labels
  pub instance_type : String
  pub region : String
  pub zone : String
  pub capacity_cpu : String
  pub capacity_memory : String
  pub allocatable_cpu : String
  pub allocatable_memory : String

pub record ClusterSummary : Type 0 where
  pub node_count : ℕ
  pub pod_count : ℕ
  pub namespace_count : ℕ
  pub namespaces : List NamespaceInfo
  pub nodes : List NodeInfo

pub data StatusBody : Type 0 where
  status_text : String → StatusBody
  error_text : String → StatusBody
  -- the status and the services
  health : String → List (String × String) → StatusBody
  summary : ClusterSummary → StatusBody
  namespace_list : List NamespaceInfo → StatusBody
  node_list : List NodeInfo → StatusBody

-- A map gives the empty text for a key that it has not.
abbrev pub text_of : Option (String × String) → String
text_of none = ""
text_of (some x) = x.1

unfoldable pub label_value : Option Labels → String → String
label_value none key = ""
label_value (some labels) key = text_of (first (λ x. x.0 == key) labels)

unfoldable pub build_namespace_info : Namespace → NamespaceInfo
unfolding label_value
build_namespace_info ns = record {
  name = ns.name;
  labels = ns.labels;
  annotations = ns.annotations;
  cost_center = label_value ns.labels "cost-center";
  team = label_value ns.labels "team";
}

unfoldable pub build_node_info : Node → NodeInfo
unfolding label_value
build_node_info n = record {
  name = n.name;
  labels = n.labels;
  instance_type = label_value n.labels "node.kubernetes.io/instance-type";
  region = label_value n.labels "topology.kubernetes.io/region";
  zone = label_value n.labels "topology.kubernetes.io/zone";
  capacity_cpu = n.capacity_cpu;
  capacity_memory = n.capacity_memory;
  allocatable_cpu = n.allocatable_cpu;
  allocatable_memory = n.allocatable_memory;
}

abbrev pub Answer : Type 0
Answer = ℕ × StatusBody

abbrev pub handle_healthz : Answer
handle_healthz = (200, status_text "ok")

-- Not ready only where there is a cache that is not.
unfoldable pub handle_readyz : Option Cache → Answer
handle_readyz none = (200, status_text "ready")
handle_readyz (some cache) =
    if cache.is_ready then (200, status_text "ready") else (503, status_text "not ready")

-- The argument is `IsHealthy`.
abbrev pub proxy_service : Option Bool → List (String × String)
proxy_service none = []
proxy_service (some healthy) = ("opencost", if healthy then "healthy" else "unreachable") ∷ []

abbrev pub cache_service : Option Cache → List (String × String)
cache_service none = []
cache_service (some cache) =
    ("cluster_cache", if cache.is_ready then "ready" else "initializing") ∷ []

unfoldable pub handle_detailed_health : Option Bool → Option Cache → Answer
handle_detailed_health proxy cache = (200, health "ok" (proxy_service proxy ++ cache_service cache))

unfoldable pub handle_cluster_summary : Option Cache → Answer
handle_cluster_summary none = (503, error_text "cluster cache not available")
handle_cluster_summary (some cache) = (
  200,
  summary (record {
    node_count = length cache.nodes;
    pod_count = cache.pods;
    namespace_count = length cache.namespaces;
    namespaces = map build_namespace_info cache.namespaces;
    nodes = map build_node_info cache.nodes;
  }),
)

unfoldable pub handle_namespaces : Option Cache → Answer
handle_namespaces none = (503, error_text "cluster cache not available")
handle_namespaces (some cache) = (200, namespace_list (map build_namespace_info cache.namespaces))

unfoldable pub handle_nodes : Option Cache → Answer
handle_nodes none = (503, error_text "cluster cache not available")
handle_nodes (some cache) = (200, node_list (map build_node_info cache.nodes))
