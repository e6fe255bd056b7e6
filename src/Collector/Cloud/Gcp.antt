-- ===== src/Collector/Cloud/Gcp.antt =====
-- internal/collector/gcp/gcp.go. `Collect` has no query yet and returns no records.
use Prim.Native.String
use fin_guard.Prelude.{String, Option, none, some, [], ◌∷◌, ◌||◌, ◌+◌, ◌==◌, if◌then◌else◌}
use fin_guard.Float64.{Float64}
use fin_guard.Models.{Time, CostSource, CostRecord}
use fin_guard.Collector.Registry.{TimeWindow, Collected, records, failed, Collector}
use fin_guard.Collector.Cloud.Rows.{Parsed, parsed, unparsed, one_day, Row, cell, blank, join_texts}

pub record GcpConfig : Type 0 where
  pub project_id : String
  pub billing_account_id : String
  pub billing_data_dataset : String
  pub service_account_key : String

unfoldable pub categorize_gcp_service : String → String
categorize_gcp_service s =
    if s == "Compute Engine"
      || s == "Kubernetes Engine"
      || s == "Cloud Functions"
      || s == "Cloud Run"
      || s == "App Engine"
    then "Compute"
    else if s == "Cloud Storage" || s == "Persistent Disk" || s == "Filestore"
    then "Storage"
    else if s == "Cloud NAT"
        || s == "Cloud Load Balancing"
        || s == "Cloud CDN"
        || s == "Cloud Interconnect"
        || s == "Cloud VPN"
    then "Network"
    else if s == "Cloud SQL"
        || s == "Cloud Spanner"
        || s == "Bigtable"
        || s == "Firestore"
        || s == "Memorystore"
    then "Database"
    else "Other"

-- The dataset of `buildBigQuerySQL`.
abbrev pub dataset_of : GcpConfig → String
dataset_of cfg =
    if cfg.billing_data_dataset == "" then "billing_dataset" else cfg.billing_data_dataset

module _ (unmarshal : String → Parsed GcpConfig) where
  abbrev pub check : Parsed GcpConfig → Option String
  check (unparsed e) = some (String.◌++◌ "invalid GCP config: " e)
  check (parsed cfg) = if cfg.project_id == "" then some "projectId is required" else none

  -- `none` is no error.
  unfoldable pub validate : String → Option String
  validate config = check (unmarshal config)

  abbrev pub collected : {R : Type 0} → Parsed GcpConfig → Collected R
  collected (unparsed e) = failed (String.◌++◌ "parse GCP config: " e)
  collected (parsed cfg) = records []

  abbrev pub gcp_collector : {R : Type 0} → Collector R
  gcp_collector = record {
    type = "gcp";
    collect = λ source window. collected (unmarshal source.config);
  }

unfoldable pub bigquery_row_to_record :
    (F : Float64) → CostSource → Time → Row → F.Carrier → F.Carrier → CostRecord F.Carrier
bigquery_row_to_record F source date row cost list_cost = record (blank F source) {
  provider = "gcp";
  provider_id = cell row "resource_name";
  account_id = cell row "project_id";
  account_name = cell row "project_name";
  invoice_entity_id = cell row "billing_account_id";
  service = cell row "service";
  category = categorize_gcp_service (cell row "service");
  region = cell row "region";
  availability_zone = cell row "zone";
  start_time = date;
  end_time = date + one_day;
  list_cost = list_cost;
  net_cost = cost;
  amortized_cost = cost;
  currency = "USD";
}

-- `format` is the date of a time.
unfoldable pub build_big_query_sql : (Time → String) → GcpConfig → TimeWindow → String
build_big_query_sql format cfg window = join_texts (
    "SELECT\n"
    ∷ "\t\tDATE(usage_start_time) as usage_date,\n"
    ∷ "\t\tbilling_account_id,\n"
    ∷ "\t\tproject.id as project_id,\n"
    ∷ "\t\tproject.name as project_name,\n"
    ∷ "\t\tlocation.region,\n"
    ∷ "\t\tlocation.zone,\n"
    ∷ "\t\tservice.description as service,\n"
    ∷ "\t\tsku.description as sku,\n"
    ∷ "\t\tresource.name as resource_name,\n"
    ∷ "\t\tSUM(cost) as cost,\n"
    ∷ "\t\tSUM(IFNULL((SELECT SUM(amount) FROM UNNEST(credits)), 0)) as credits,\n"
    ∷ "\t\tSUM(cost_at_list) as list_cost\n"
    ∷ "\tFROM "
    ∷ cfg.project_id
    ∷ "."
    ∷ dataset_of cfg
    ∷ ".gcp_billing_export_resource_v1_*\n"
    ∷ "\tWHERE _PARTITIONTIME >= '"
    ∷ format window.start
    ∷ "'\n"
    ∷ "\t  AND _PARTITIONTIME < '"
    ∷ format window.end
    ∷ "'\n"
    ∷ "\t  AND cost != 0\n"
    ∷ "\tGROUP BY 1,2,3,4,5,6,7,8,9"
    ∷ [])
