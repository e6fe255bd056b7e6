-- ===== src/Collector/Cloud/Kubernetes.antt =====
-- internal/collector/kubernetes/kubernetes.go. OpenCost is what it answers to a URL; the order of the
-- namespaces in a data set is that in which the loop over the map meets them.
use Prim.Native.String
use fin_guard.Prelude.{String, Option, none, some, List, [], ◌∷◌, ◌++◌, ◌==◌, if◌then◌else◌}
use fin_guard.Float64.{Float64}
use fin_guard.Models.{Time, CostSource, CostRecord}
use fin_guard.Collector.Registry.{TimeWindow, Collected, records, failed, Collector}
use fin_guard.Collector.Cloud.Rows.{Parsed, parsed, unparsed, blank, join_texts}

pub record KubernetesConfig : Type 0 where
  pub cluster_name : String
  pub open_cost_url : String
  pub kubeconfig_ref : String

-- The data sets of a decoded answer: each namespace with its `totalCost`, the one field that is read.
abbrev pub DataSets : Type 0 → Type 0
DataSets R = List (List (String × R))

-- What comes of a GET.
pub data Fetched (R : Type 0) : Type 0 where
  -- http.NewRequest refuses the URL
  bad_request : String → Fetched R
  unreachable : String → Fetched R
  -- a status other than 200, and the text of the body
  refused : String → String → Fetched R
  -- status 200, and what json makes of the body
  answered : Parsed (DataSets R) → Fetched R

module _ (unmarshal : String → Parsed KubernetesConfig) where
  abbrev pub check : Parsed KubernetesConfig → Option String
  check (unparsed e) = some (String.◌++◌ "invalid Kubernetes config: " e)
  check (parsed cfg) =
      if cfg.cluster_name == ""
      then some "clusterName is required"
      else if cfg.open_cost_url == ""
      then some "opencostUrl is required"
      else none

  -- `none` is no error.
  unfoldable pub validate : String → Option String
  validate config = check (unmarshal config)

module _ (F : Float64) where
  open F use {Carrier, one}

  abbrev pub allocation_record :
      CostSource → KubernetesConfig → TimeWindow → String × Carrier → CostRecord Carrier
  allocation_record source cfg window (namespace, total) = record (blank F source) {
    provider = "kubernetes";
    provider_id = join_texts (cfg.cluster_name ∷ "/" ∷ namespace ∷ []);
    account_id = cfg.cluster_name;
    account_name = cfg.cluster_name;
    service = String.◌++◌ "Kubernetes/" namespace;
    category = "Compute";
    start_time = window.start;
    end_time = window.end;
    list_cost = total;
    net_cost = total;
    amortized_cost = total;
    currency = "USD";
    labels = some (("namespace", namespace) ∷ ("cluster", cfg.cluster_name) ∷ []);
    kubernetes_percent = one;
  }

  -- The inner loop, and the outer one.
  unfoldable pub data_set_records :
      CostSource
      → KubernetesConfig
      → TimeWindow
      → List (String × Carrier)
      → List (CostRecord Carrier)
  data_set_records source cfg window [] = []
  data_set_records source cfg window (x ∷ xs) =
      allocation_record source cfg window x ∷ data_set_records source cfg window xs

  unfoldable pub all_records :
      CostSource → KubernetesConfig → TimeWindow → DataSets Carrier → List (CostRecord Carrier)
  unfolding data_set_records
  all_records source cfg window [] = []
  all_records source cfg window (d ∷ ds) =
      data_set_records source cfg window d ++ all_records source cfg window ds

  abbrev pub received :
      CostSource → KubernetesConfig → TimeWindow → Fetched Carrier → Collected Carrier
  received source cfg window (bad_request e) = failed (String.◌++◌ "create request: " e)
  received source cfg window (unreachable e) =
      failed (String.◌++◌ "opencost allocation request: " e)
  received source cfg window (refused status body) =
      failed (join_texts ("opencost returned " ∷ status ∷ ": " ∷ body ∷ []))
  received source cfg window (answered (unparsed e)) =
      failed (String.◌++◌ "decode allocation response: " e)
  received source cfg window (answered (parsed sets)) = records (all_records source cfg window sets)

  module _ (unmarshal : String → Parsed KubernetesConfig) (rfc3339 : Time → String)
      (fetch : String → Fetched Carrier) where
    abbrev pub allocation_url : KubernetesConfig → TimeWindow → String
    allocation_url cfg window = join_texts (
        cfg.open_cost_url
        ∷ "/allocation?window="
        ∷ rfc3339 window.start
        ∷ ","
        ∷ rfc3339 window.end
        ∷ "&aggregate=namespace&accumulate=true"
        ∷ [])

    abbrev pub collected : CostSource → TimeWindow → Parsed KubernetesConfig → Collected Carrier
    collected source window (unparsed e) = failed (String.◌++◌ "parse Kubernetes config: " e)
    collected source window (parsed cfg) =
        received source cfg window (fetch (allocation_url cfg window))

    abbrev pub kubernetes_collector : Collector Carrier
    kubernetes_collector = record {
      type = "kubernetes";
      collect = λ source window. collected source window (unmarshal source.config);
    }
