-- ===== src/Models.antt =====
-- internal/models/models.go: the rows of the tables and the bodies of the API. A Go string type with
-- named constants (CostSourceType, Role, SubjectType) is a String, since any text can be stored. A
-- time.Time is the number of nanoseconds since its zero value, so 0 is the time that IsZero tells.
-- `R` is the type of float64 values. A nil pointer or nil map is `none`.
use fin_guard.Prelude.{ℕ, String, Option, List, Bool}

abbrev pub Time : Type 0
Time = ℕ

pub record Project : Type 0 where
  pub id : String
  pub name : String
  pub description : String
  pub created_at : Time
  pub updated_at : Time

abbrev pub cost_source_aws : String
cost_source_aws = "aws_account"

abbrev pub cost_source_azure : String
cost_source_azure = "azure_subscription"

abbrev pub cost_source_gcp : String
cost_source_gcp = "gcp_project"

abbrev pub cost_source_kubernetes : String
cost_source_kubernetes = "kubernetes"

pub record CostSource : Type 0 where
  pub id : String
  pub project_id : String
  pub type : String
  pub name : String
  pub config : String
  pub enabled : Bool
  pub last_collected_at : Option Time
  pub created_at : Time
  pub updated_at : Time

pub record User : Type 0 where
  pub id : String
  pub email : String
  pub display_name : String
  pub oidc_subject : String
  pub created_at : Time

pub record Group : Type 0 where
  pub id : String
  pub name : String
  pub oidc_claim : String
  pub created_at : Time

abbrev pub role_platform_admin : String
role_platform_admin = "platform-admin"

abbrev pub role_admin : String
role_admin = "admin"

abbrev pub role_editor : String
role_editor = "editor"

abbrev pub role_viewer : String
role_viewer = "viewer"

abbrev pub subject_user : String
subject_user = "user"

abbrev pub subject_group : String
subject_group = "group"

pub record ProjectRole : Type 0 where
  pub project_id : String
  pub subject_type : String
  pub subject_id : String
  pub role : String

pub record Budget (R : Type 0) : Type 0 where
  pub id : String
  pub project_id : String
  pub cost_source_id : Option String
  pub monthly_limit : R
  pub warn_threshold : R
  pub created_at : Time
  pub updated_at : Time

abbrev pub Labels : Type 0
Labels = List (String × String)

pub record CostRecord (R : Type 0) : Type 0 where
  pub id : String
  pub project_id : String
  pub cost_source_id : String
  pub provider : String
  pub provider_id : String
  pub account_id : String
  pub account_name : String
  pub invoice_entity_id : String
  pub service : String
  pub category : String
  pub region : String
  pub availability_zone : String
  pub start_time : Time
  pub end_time : Time
  pub list_cost : R
  pub net_cost : R
  pub amortized_cost : R
  pub amortized_net_cost : R
  pub currency : String
  pub labels : Option Labels
  pub labels_json : String
  pub kubernetes_percent : R
