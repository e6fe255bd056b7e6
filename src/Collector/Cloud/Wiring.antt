-- ===== src/Collector/Cloud/Wiring.antt =====
-- The registry that `main` of cmd/finguard/main.go makes.
use fin_guard.Prelude.{String}
use fin_guard.Float64.{Float64}
use fin_guard.Models.{
  Time, cost_source_aws, cost_source_azure, cost_source_gcp, cost_source_kubernetes,
}
use fin_guard.Collector.Registry.{Registry, new_registry, register}
use fin_guard.Collector.Cloud.Rows.{Parsed}
use fin_guard.Collector.Cloud.Aws.{AwsConfig, aws_collector}
use fin_guard.Collector.Cloud.Azure.{AzureConfig, azure_collector}
use fin_guard.Collector.Cloud.Gcp.{GcpConfig, gcp_collector}
use fin_guard.Collector.Cloud.Kubernetes.{KubernetesConfig, Fetched, kubernetes_collector}

-- The packages behind the collectors.
pub record Clouds (R : Type 0) : Type 0 where
  pub aws : String → Parsed AwsConfig
  pub azure : String → Parsed AzureConfig
  pub gcp : String → Parsed GcpConfig
  pub kubernetes : String → Parsed KubernetesConfig
  pub rfc3339 : Time → String
  pub fetch : String → Fetched R

unfoldable pub collector_registry : (F : Float64) → Clouds F.Carrier → Registry F.Carrier
collector_registry F c =
    register cost_source_kubernetes (kubernetes_collector F c.kubernetes c.rfc3339 c.fetch) (
      register cost_source_gcp (gcp_collector c.gcp) (
        register cost_source_azure (azure_collector c.azure)
          (register cost_source_aws (aws_collector c.aws) new_registry)))
