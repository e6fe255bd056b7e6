-- ===== src/ClusterCache/Ready.antt =====
-- When internal/clustercache/cache.go says that it is ready.
use mathlib.Core.Option.{some-injective}
use fin_guard.Prelude.{
  none, some, List, [], ◌≡◌, refl, subst, ◌⊎◌, inl, inr, true, false, Bool-cases, arith,
}
use fin_guard.ClusterCache.{
  Object, Cache, new_with_clientset, start, stop, get_namespaces, get_nodes, view,
}
use fin_guard.Server.Status.{
  handle_readyz, handle_namespaces, handle_nodes, status_text, namespace_list, node_list,
}

-- A method, or an informer that has put objects into the stores that it was given.
pub data Step : Cache → Cache → Type 0 where
  starts : (c : Cache) → Step c (start c)
  stops : (c c' : Cache) → stop c ≡ some c' → Step c c'
  fills :
      (c : Cache) (ns nodes pods : List Object)
      → c.ready ≡ true
      → Step c (record c { namespaces = some ns; nodes = some nodes; pods = some pods })

pub data Reachable : Cache → Type 0 where
  created : Reachable new_with_clientset
  steps : (c c' : Cache) → Reachable c → Step c c' → Reachable c'

-- The stores are nil exactly while the cache is not ready.
abbrev pub HasStores : Cache → Type 0
HasStores c =
    ((c.ready ≡ false) × (c.namespaces ≡ none) × (c.nodes ≡ none) × (c.pods ≡ none))
    ⊎ ((c.ready ≡ true)
        × ((ns : List Object) × (c.namespaces ≡ some ns))
        × ((ns : List Object) × (c.nodes ≡ some ns))
        × ((ps : List Object) × (c.pods ≡ some ps)))

Step-HasStores : (c c' : Cache) → Step c c' → HasStores c → HasStores c'
unfolding start stop
Step-HasStores _ _ (starts c) h = inr (refl, ([], refl), ([], refl), ([], refl))
Step-HasStores _ _ (stops c c' e) h = elim (Bool-cases c.stopped) [
  | inl twice ↦ absurd (ground (arith, e, twice))
  | inr once ↦ subst HasStores (some-injective (record c { stopped = true }) c' (rw once at e)) h
]
Step-HasStores _ _ (fills c ns nodes pods r) h = inr (r, (ns, refl), (nodes, refl), (pods, refl))

-- In whatever state the methods and the informers have brought the cache, its stores are there exactly
-- where it says that it is ready.
pub Reachable-HasStores : (c : Cache) → Reachable c → HasStores c
Reachable-HasStores _ created = inl (refl, refl, refl, refl)
Reachable-HasStores _ (steps c c' r s) = Step-HasStores c c' s (Reachable-HasStores c r)

-- As soon as the cache is started, and before an informer has listed anything, the readiness probe
-- succeeds, and the lists of namespaces and of nodes are answered with status 200 and are empty.
pub handle_readyz-start :
    (c : Cache)
    → (handle_readyz (some (view (start c))) ≡ (200, status_text "ready"))
      × (handle_namespaces (some (view (start c))) ≡ (200, namespace_list []))
      × (handle_nodes (some (view (start c))) ≡ (200, node_list []))
unfolding start handle_readyz handle_namespaces handle_nodes get_namespaces get_nodes
handle_readyz-start c = (refl, refl, refl)
