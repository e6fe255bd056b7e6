-- ===== src/Collector/Cloud/Azure.antt =====
-- internal/collector/azure/azure.go. `Collect` reads no exports yet and returns no records.
use Prim.Native.String
use fin_guard.Prelude.{String, Option, none, some, [], ◌||◌, ◌+◌, ◌==◌, if◌then◌else◌}
use fin_guard.Float64.{Float64}
use fin_guard.Models.{Time, CostSource, CostRecord}
use fin_guard.Collector.Registry.{Collected, records, failed, Collector}
use fin_guard.Collector.Cloud.Rows.{Parsed, parsed, unparsed, one_day, blank}

pub record AzureConfig : Type 0 where
  pub subscription_id : String
  pub tenant_id : String
  pub client_id : String
  pub client_secret : String
  pub storage_account : String
  pub storage_access_key : String
  pub storage_container : String
  pub container_path : String
  pub azure_cloud : String

unfoldable pub categorize_azure_service : String → String
categorize_azure_service c =
    if c == "Virtual Machines"
      || c == "Container Instances"
      || c == "Azure Kubernetes Service"
      || c == "Functions"
    then "Compute"
    else if c == "Storage" || c == "Bandwidth"
    then "Storage"
    else if c == "Virtual Network"
        || c == "Load Balancer"
        || c == "Application Gateway"
        || c == "VPN Gateway"
    then "Network"
    else if c == "Azure Cosmos DB"
        || c == "SQL Database"
        || c == "Azure Database for PostgreSQL"
        || c == "Azure Cache for Redis"
    then "Database"
    else "Other"

module _ (unmarshal : String → Parsed AzureConfig) where
  abbrev pub check : Parsed AzureConfig → Option String
  check (unparsed e) = some (String.◌++◌ "invalid Azure config: " e)
  check (parsed cfg) =
      if cfg.subscription_id == ""
      then some "subscriptionId is required"
      else if cfg.storage_account == ""
      then some "storageAccount is required"
      else none

  -- `none` is no error.
  unfoldable pub validate : String → Option String
  validate config = check (unmarshal config)

  abbrev pub collected : {R : Type 0} → Parsed AzureConfig → Collected R
  collected (unparsed e) = failed (String.◌++◌ "parse Azure config: " e)
  collected (parsed cfg) = records []

  abbrev pub azure_collector : {R : Type 0} → Collector R
  azure_collector = record {
    type = "azure";
    collect = λ source window. collected (unmarshal source.config);
  }

unfoldable pub azure_row_to_record :
    (F : Float64)
    → CostSource
    → Time
    → String
    → String
    → String
    → String
    → F.Carrier
    → CostRecord F.Carrier
azure_row_to_record F source date meter_category subscription_id region instance_id cost =
    record (blank F source) {
      provider = "azure";
      provider_id = instance_id;
      account_id = subscription_id;
      service = meter_category;
      category = categorize_azure_service meter_category;
      region = region;
      start_time = date;
      end_time = date + one_day;
      list_cost = cost;
      net_cost = cost;
      currency = "USD";
    }
