-- ===== src/Tests/Cloud.antt =====
-- A round of a Kubernetes source whose OpenCost answers with two namespaces.
use fin_guard.Prelude.{ℕ, ◌≡◌, refl, List, [], ◌∷◌, ◌++◌, true, if◌then◌else◌, nat_eq, any, first}
use fin_guard.Models.{CostSource, CostRecord, cost_source_kubernetes}
use fin_guard.Float64.{whole}
use fin_guard.Collector.Registry.{get, register}
use fin_guard.Collector.Scheduler.{Scheduler, Round, collect_source, numbered}
use fin_guard.Collector.Scheduler.Complete.{is_complete}
use fin_guard.Collector.Cloud.Rows.{unparsed, parsed}
use fin_guard.Collector.Cloud.Kubernetes.{
  answered, all_records, data_set_records, kubernetes_collector,
}
use fin_guard.Collector.Cloud.Wiring.{Clouds, collector_registry}
use fin_guard.Collector.Cloud.Accepted.{collect_source-stores, stored_rows}
use fin_guard.Store.Costs.{cost_row}
use fin_guard.Tests.Fixtures.{up, json, aws, small}

abbrev clouds : Clouds ℕ
clouds = record {
  aws = λ config. unparsed "";
  azure = λ config. unparsed "";
  gcp = λ config. unparsed "";
  kubernetes = λ config.
      parsed (record { cluster_name = "k"; open_cost_url = "http://o"; kubeconfig_ref = "" });
  rfc3339 = λ t. "t";
  fetch = λ url. answered (parsed ((("web", 3) ∷ ("db", 4) ∷ []) ∷ []));
}

abbrev kubernetes_source : CostSource
kubernetes_source = record aws { type = cost_source_kubernetes }

abbrev round : Round
round = record {
  starting = 100;
  ending = 101;
  stamp = 110;
  begin = up;
  prepare = up;
  inserting = λ n. record up { fresh = if nat_eq n 0 then "n0" else "n1" };
  commit = up;
  marking = up;
}

abbrev scheduler : Scheduler ℕ
scheduler = record {
  registry = collector_registry whole clouds;
  has_hub = true;
  json = json;
  itoa = λ n. "2";
}

abbrev collected_records : List (CostRecord ℕ)
collected_records =
    all_records whole kubernetes_source
      (record { cluster_name = "k"; open_cost_url = "http://o"; kubeconfig_ref = "" })
      (record { start = 0; end = 101 }) ((("web", 3) ∷ ("db", 4) ∷ []) ∷ [])

collect_source-stores_example :
    ((collect_source scheduler round kubernetes_source small).0.cost_records
      ≡ small.cost_records ++ stored_rows json (numbered round.inserting 0 collected_records))
    × (is_complete (collect_source scheduler round kubernetes_source small).1 ≡ true)
unfolding get register any first collector_registry all_records data_set_records cost_row
collect_source-stores_example =
    collect_source-stores whole clouds json (λ n. "2") round kubernetes_source
      (kubernetes_collector whole clouds.kubernetes clouds.rfc3339 clouds.fetch) collected_records
      small refl refl refl refl (refl, refl, (refl, refl, tt)) refl refl refl
