-- ===== src/Collector/Cloud/Stores.antt =====
-- The records of a collection, as the store takes them.
use fin_guard.Prelude.{
  String, some, List, [], ◌∷◌, ◌≡◌, refl, subst, Bool, ◌==◌, any, first, All, All-append,
  All-update, Bool-cases, inl, inr, arith,
}
use fin_guard.Float64.{Float64}
use fin_guard.Models.{CostSource, CostRecord}
use fin_guard.Collector.Registry.{
  TimeWindow, records, failed, Collector, Registry, register, get, value_of,
}
use fin_guard.Collector.Cloud.Rows.{Parsed, parsed, unparsed}
use fin_guard.Collector.Cloud.Aws
use fin_guard.Collector.Cloud.Azure
use fin_guard.Collector.Cloud.Gcp
use fin_guard.Collector.Cloud.Kubernetes
use fin_guard.Collector.Cloud.Aws.{AwsConfig, aws_collector}
use fin_guard.Collector.Cloud.Azure.{AzureConfig, azure_collector}
use fin_guard.Collector.Cloud.Gcp.{GcpConfig, gcp_collector}
use fin_guard.Collector.Cloud.Kubernetes.{
  KubernetesConfig, Fetched, bad_request, unreachable, refused, answered, DataSets,
  data_set_records, all_records, received,
}
use fin_guard.Collector.Cloud.Wiring.{Clouds, collector_registry}

-- The record is of the source, and has no identifier yet.
abbrev pub IsOf : {R : Type 0} → CostSource → CostRecord R → Type 0
IsOf source r = (r.id ≡ "") × (r.project_id ≡ source.project_id) × (r.cost_source_id ≡ source.id)

module _ {R : Type 0} where
  -- Whatever the collector returns is of the source that it was asked for.
  abbrev pub Obeys : Collector R → Type 0
  Obeys c =
      (source : CostSource) (w : TimeWindow) (rs : List (CostRecord R))
      → c.collect source w ≡ records rs
      → All (IsOf source) rs

  records_injective : (rs ss : List (CostRecord R)) → records rs ≡ records ss → rs ≡ ss
  records_injective rs ss h = ground (arith, h)

  register-Obeys :
      (t : String) (c : Collector R) (r : Registry R)
      → Obeys c
      → All (λ x. Obeys x.1) r.collectors
      → All (λ x. Obeys x.1) (register t c r).collectors
  unfolding register
  register-Obeys t c r o a = elim (Bool-cases (any (λ x. x.0 == t) r.collectors)) [
    | inl e ↦ rw e (
        All-update (λ x. Obeys x.1) (λ x. Obeys x.1) (λ x. x.0 == t) (λ x. (x.0, c)) (λ x q h. o)
          (λ x q h. h) r.collectors a)
    | inr e ↦ rw e (o, a)
  ]

  first-All :
      (p : String × Collector R → Bool) (xs : List (String × Collector R)) (c : Collector R)
      → All (λ x. Obeys x.1) xs
      → value_of (first p xs) ≡ some c
      → Obeys c
  unfolding first
  first-All p [] c a h = absurd (ground arith)
  first-All p (x ∷ xs) c (o, a) h = elim (Bool-cases (p x)) [
    | inl e ↦ let found : x.1 ≡ c = ground arith in subst Obeys found o
    | inr e ↦ first-All p xs c a (ground arith)
  ]

  none_collected :
      (source : CostSource) (rs : List (CostRecord R))
      → records [] ≡ records rs
      → All (IsOf source) rs
  none_collected source rs h = subst (All (IsOf source)) (records_injective [] rs h) tt

  failed_collected :
      (source : CostSource) (text : String) (rs : List (CostRecord R))
      → failed text ≡ records rs
      → All (IsOf source) rs
  failed_collected source text rs h = absurd (ground (arith, h))

  aws_collected :
      (parse : String → Parsed AwsConfig) (source : CostSource) (cfg : Parsed AwsConfig)
      (rs : List (CostRecord R))
      → Aws.collected parse cfg ≡ records rs
      → All (IsOf source) rs
  aws_collected parse source (unparsed e) rs h = failed_collected source _ rs h
  aws_collected parse source (parsed cfg) rs h = none_collected source rs h

  azure_collected :
      (parse : String → Parsed AzureConfig) (source : CostSource) (cfg : Parsed AzureConfig)
      (rs : List (CostRecord R))
      → Azure.collected parse cfg ≡ records rs
      → All (IsOf source) rs
  azure_collected parse source (unparsed e) rs h = failed_collected source _ rs h
  azure_collected parse source (parsed cfg) rs h = none_collected source rs h

  gcp_collected :
      (parse : String → Parsed GcpConfig) (source : CostSource) (cfg : Parsed GcpConfig)
      (rs : List (CostRecord R))
      → Gcp.collected parse cfg ≡ records rs
      → All (IsOf source) rs
  gcp_collected parse source (unparsed e) rs h = failed_collected source _ rs h
  gcp_collected parse source (parsed cfg) rs h = none_collected source rs h

module _ (F : Float64) where
  open F use {Carrier}

  data_set_records-IsOf :
      (source : CostSource) (cfg : KubernetesConfig) (w : TimeWindow) (d : List (String × Carrier))
      → All (IsOf source) (data_set_records F source cfg w d)
  unfolding data_set_records
  data_set_records-IsOf source cfg w [] = tt
  data_set_records-IsOf source cfg w (x ∷ xs) =
      ((refl, refl, refl), data_set_records-IsOf source cfg w xs)

  all_records-IsOf :
      (source : CostSource) (cfg : KubernetesConfig) (w : TimeWindow) (ds : DataSets Carrier)
      → All (IsOf source) (all_records F source cfg w ds)
  unfolding all_records
  all_records-IsOf source cfg w [] = tt
  all_records-IsOf source cfg w (d ∷ ds) =
      All-append (IsOf source) (data_set_records F source cfg w d) (all_records F source cfg w ds)
        (data_set_records-IsOf source cfg w d) (all_records-IsOf source cfg w ds)

  received-IsOf :
      (source : CostSource) (cfg : KubernetesConfig) (w : TimeWindow) (f : Fetched Carrier)
      (rs : List (CostRecord Carrier))
      → received F source cfg w f ≡ records rs
      → All (IsOf source) rs
  received-IsOf source cfg w (bad_request e) rs h = failed_collected source _ rs h
  received-IsOf source cfg w (unreachable e) rs h = failed_collected source _ rs h
  received-IsOf source cfg w (refused status body) rs h = failed_collected source _ rs h
  received-IsOf source cfg w (answered (unparsed e)) rs h = failed_collected source _ rs h
  received-IsOf source cfg w (answered (parsed sets)) rs h =
      subst (All (IsOf source)) (records_injective _ rs h) (all_records-IsOf source cfg w sets)

  kubernetes_collected :
      (c : Clouds Carrier) (source : CostSource) (w : TimeWindow) (cfg : Parsed KubernetesConfig)
      (rs : List (CostRecord Carrier))
      → Kubernetes.collected F c.kubernetes c.rfc3339 c.fetch source w cfg ≡ records rs
      → All (IsOf source) rs
  kubernetes_collected c source w (unparsed e) rs h = failed_collected source _ rs h
  kubernetes_collected c source w (parsed cfg) rs h = received-IsOf source cfg w _ rs h

  collector_registry-Obeys :
      (c : Clouds Carrier) → All (λ x. Obeys x.1) (collector_registry F c).collectors
  unfolding collector_registry
  collector_registry-Obeys c =
      register-Obeys _ _ _
        (λ source w rs. kubernetes_collected c source w (c.kubernetes source.config) rs)
        (register-Obeys _ _ _ (λ source w rs. gcp_collected c.gcp source (c.gcp source.config) rs)
          (register-Obeys _ _ _
            (λ source w rs. azure_collected c.azure source (c.azure source.config) rs)
            (register-Obeys _ _ _
              (λ source w rs. aws_collected c.aws source (c.aws source.config) rs) tt)))

  -- What a registered collector returns for a source names that source and its project, and has no
  -- identifier yet.
  pub collect-IsOf :
      (c : Clouds Carrier) (t : String) (it : Collector Carrier) (source : CostSource)
      (w : TimeWindow) (rs : List (CostRecord Carrier))
      → get t (collector_registry F c) ≡ some it
      → it.collect source w ≡ records rs
      → All (IsOf source) rs
  unfolding get
  collect-IsOf c t it source w rs h e =
      first-All (λ x. x.0 == t) (collector_registry F c).collectors it (collector_registry-Obeys c)
        h source w rs e
