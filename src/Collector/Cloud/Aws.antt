-- ===== src/Collector/Cloud/Aws.antt =====
-- internal/collector/aws/aws.go. `Collect` has no query yet and returns no records.
use Prim.Native.String
use fin_guard.Prelude.{String, Option, none, some, [], ◌∷◌, ◌||◌, ◌+◌, ◌==◌, if◌then◌else◌}
use fin_guard.Float64.{Float64}
use fin_guard.Models.{Time, CostSource, CostRecord}
use fin_guard.Collector.Registry.{TimeWindow, Collected, records, failed, Collector}
use fin_guard.Collector.Cloud.Rows.{Parsed, parsed, unparsed, one_day, Row, cell, blank, join_texts}

pub record AwsConfig : Type 0 where
  pub account_id : String
  pub role_arn : String
  pub external_id : String
  pub region : String
  pub athena_bucket : String
  pub athena_region : String
  pub athena_database : String
  pub athena_table : String
  pub athena_workgroup : String
  pub cur_version : String

unfoldable pub categorize_aws_service : String → String
categorize_aws_service product =
    if product == "AmazonEC2" || product == "AmazonEKS" || product == "AWSLambda"
    then "Compute"
    else if product == "AmazonS3" || product == "AmazonEBS" || product == "AmazonEFS"
    then "Storage"
    else if product == "AmazonVPC" || product == "AmazonCloudFront" || product == "AWSDataTransfer"
    then "Network"
    else if product == "AmazonRDS" || product == "AmazonDynamoDB" || product == "AmazonElastiCache"
    then "Database"
    else "Other"

-- The table of `buildAthenaQuery`.
abbrev pub athena_table_of : AwsConfig → String
athena_table_of cfg =
    let table = String.◌++◌ cfg.athena_database (String.◌++◌ "." cfg.athena_table) in
    if table == "." then "cur_database.cur_table" else table

module _ (unmarshal : String → Parsed AwsConfig) where
  abbrev pub check : Parsed AwsConfig → Option String
  check (unparsed e) = some (String.◌++◌ "invalid AWS config: " e)
  check (parsed cfg) =
      if cfg.account_id == ""
      then some "accountId is required"
      else if cfg.role_arn == ""
      then some "roleArn is required"
      else none

  -- `none` is no error.
  unfoldable pub validate : String → Option String
  validate config = check (unmarshal config)

  abbrev pub collected : {R : Type 0} → Parsed AwsConfig → Collected R
  collected (unparsed e) = failed (String.◌++◌ "parse AWS config: " e)
  collected (parsed cfg) = records []

  abbrev pub aws_collector : {R : Type 0} → Collector R
  aws_collector = record {
    type = "aws";
    collect = λ source window. collected (unmarshal source.config);
  }

-- The record has no cost.
unfoldable pub athena_row_to_record : (F : Float64) → CostSource → Row → Time → CostRecord F.Carrier
athena_row_to_record F source row usage_date = record (blank F source) {
  provider = "aws";
  provider_id = cell row "line_item_resource_id";
  account_id = cell row "line_item_usage_account_id";
  service = cell row "product_product_name";
  category = categorize_aws_service (cell row "product_product_name");
  region = cell row "product_region_code";
  availability_zone = cell row "product_availability_zone";
  start_time = usage_date;
  end_time = usage_date + one_day;
  currency = "USD";
}

-- `format` is the date of a time.
unfoldable pub build_athena_query : (Time → String) → AwsConfig → TimeWindow → String
build_athena_query format cfg window = join_texts (
    "SELECT\n"
    ∷ "\t\tDATE(line_item_usage_start_date) as usage_date,\n"
    ∷ "\t\tline_item_resource_id,\n"
    ∷ "\t\tline_item_usage_account_id,\n"
    ∷ "\t\tproduct_product_name,\n"
    ∷ "\t\tline_item_usage_type,\n"
    ∷ "\t\tproduct_region_code,\n"
    ∷ "\t\tproduct_availability_zone,\n"
    ∷ "\t\tSUM(line_item_unblended_cost) as list_cost,\n"
    ∷ "\t\tSUM(COALESCE(line_item_net_unblended_cost, line_item_unblended_cost)) as net_cost,\n"
    ∷ "\t\tSUM(COALESCE(reservation_effective_cost, 0) + COALESCE(savings_plan_savings_plan_effective_cost, 0) + line_item_unblended_cost) as amortized_cost\n"
    ∷ "\tFROM "
    ∷ athena_table_of cfg
    ∷ "\n"
    ∷ "\tWHERE line_item_usage_start_date >= '"
    ∷ format window.start
    ∷ "'\n"
    ∷ "\t  AND line_item_usage_start_date < '"
    ∷ format window.end
    ∷ "'\n"
    ∷ "\t  AND line_item_line_item_type != 'Credit'\n"
    ∷ "\tGROUP BY 1,2,3,4,5,6,7"
    ∷ [])
