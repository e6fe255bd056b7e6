-- ===== src/Server/Status/Agree.antt =====
-- The lists of the cluster beside its summary, and the readiness beside the health.
use fin_guard.Prelude.{
  String, Option, none, some, List, [], ◌∷◌, map, ◌≡◌, refl, ◌↔◌, Bool, true, false, ◌==◌, ◌&&◌,
  length, any, arith, not, Bool-cases, inl, inr,
}
use fin_guard.Server.Status.{
  Cache, ClusterSummary, Answer, health, summary, namespace_list, node_list, handle_readyz,
  handle_detailed_health, handle_cluster_summary, handle_namespaces, handle_nodes,
  build_namespace_info, build_node_info,
}

length-map : {A B : Type 0} (f : A → B) (xs : List A) → length (map f xs) ≡ length xs
length-map f [] = refl
length-map f (x ∷ xs) = omega (arith, length-map f xs)

-- A summary of the cluster that is answered agrees with the two lists: they are answered with the very
-- namespaces and nodes of the summary, and its counts are their lengths.
pub handle_cluster_summary-agrees :
    (cache : Option Cache) (s : ClusterSummary)
    → handle_cluster_summary cache ≡ (200, summary s)
    → (handle_namespaces cache ≡ (200, namespace_list s.namespaces))
      × (handle_nodes cache ≡ (200, node_list s.nodes))
      × (s.namespace_count ≡ length s.namespaces)
      × (s.node_count ≡ length s.nodes)
unfolding handle_cluster_summary handle_namespaces handle_nodes
handle_cluster_summary-agrees none s h = absurd (ground arith)
handle_cluster_summary-agrees (some cache) s h = (
  ground arith,
  ground arith,
  ground (arith, length-map build_namespace_info cache.namespaces),
  ground (arith, length-map build_node_info cache.nodes),
)

-- Is some service in this state?
abbrev pub has_service : String → String → Answer → Bool
has_service name state (_, health _ services) = any (λ x. x.0 == name && x.1 == state) services
has_service name state _ = false

reported :
    (proxy : Option Bool) (c : Cache)
    → has_service "cluster_cache" "initializing" (handle_detailed_health proxy (some c))
      ≡ not c.is_ready
unfolding handle_detailed_health any
reported none c = elim (Bool-cases c.is_ready) [ inl e ↦ rw e refl | inr e ↦ rw e refl ]
reported (some b) c = elim (Bool-cases c.is_ready) [ inl e ↦ rw e refl | inr e ↦ rw e refl ]

-- The readiness probe fails exactly where the detailed health reports the cluster cache as
-- initializing, whatever the state of the proxy.
pub handle_readyz-handle_detailed_health :
    (proxy : Option Bool) (cache : Option Cache)
    → ((handle_readyz cache).0 ≡ 503)
      ↔ (has_service "cluster_cache" "initializing" (handle_detailed_health proxy cache) ≡ true)
unfolding handle_readyz handle_detailed_health any
handle_readyz-handle_detailed_health none none = (λ h. ground arith, λ h. ground arith)
handle_readyz-handle_detailed_health none (some c) =
    (λ h. ground (arith, reported none c), λ h. ground (arith, reported none c))
handle_readyz-handle_detailed_health (some b) none = (λ h. ground arith, λ h. ground arith)
handle_readyz-handle_detailed_health (some b) (some c) =
    (λ h. ground (arith, reported (some b) c), λ h. ground (arith, reported (some b) c))
