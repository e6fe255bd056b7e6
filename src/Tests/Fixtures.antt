-- ===== src/Tests/Fixtures.antt =====
-- The data of the tests: a store with one project, its cost source, a user, a group and a role.
use fin_guard.Prelude.{ℕ, none, some, [], ◌∷◌, true, false}
use fin_guard.Models.{Project, CostSource, User, ProjectRole, CostRecord}
use fin_guard.Store.Db.{Db, Env, UserRow, GroupRow, empty}
use fin_guard.Store.Costs.{LabelsJson}

abbrev pub up : Env
up = record { driver = "sqlite"; now = 7; fresh = "new"; fault = false; collate = λ a b. true }

abbrev pub down : Env
down = record up { fault = true }

abbrev pub json : LabelsJson
json = record { marshal = λ l. "[]"; unmarshal = λ s. some [] }

abbrev pub alpha : Project
alpha = record { id = "p1"; name = "alpha"; description = "old"; created_at = 1; updated_at = 1 }

abbrev pub beta : Project
beta = record { id = ""; name = "beta"; description = ""; created_at = 0; updated_at = 0 }

abbrev pub aws : CostSource
aws = record {
  id = "s1";
  project_id = "p1";
  type = "aws_account";
  name = "main";
  config = "{}";
  enabled = true;
  last_collected_at = none;
  created_at = 2;
  updated_at = 2;
}

abbrev pub ann : UserRow
ann = record {
  id = "u1";
  email = "ann@x";
  display_name = "Ann";
  oidc_subject = some "sub1";
  created_at = 3;
}

abbrev pub bob : User
bob = record {
  id = "";
  email = "bob@x";
  display_name = "Bob";
  oidc_subject = "sub2";
  created_at = 0;
}

abbrev pub devs : GroupRow
devs = record { id = "g1"; name = "devs"; oidc_claim = some "devs"; created_at = 3 }

abbrev pub viewing : ProjectRole
viewing = record { project_id = "p1"; subject_type = "user"; subject_id = "u1"; role = "viewer" }

abbrev pub spent : CostRecord ℕ
spent = record {
  id = "";
  project_id = "p1";
  cost_source_id = "s1";
  provider = "AWS";
  provider_id = "";
  account_id = "";
  account_name = "";
  invoice_entity_id = "";
  service = "EC2";
  category = "Compute";
  region = "";
  availability_zone = "";
  start_time = 10;
  end_time = 20;
  list_cost = 5;
  net_cost = 4;
  amortized_cost = 4;
  amortized_net_cost = 4;
  currency = "USD";
  labels = none;
  labels_json = "";
  kubernetes_percent = 0;
}

abbrev pub stored : CostRecord ℕ
stored = record spent { id = "r1"; labels_json = "{}" }

abbrev pub nothing : Db ℕ
nothing = empty

abbrev pub small : Db ℕ
small = record {
  projects = alpha ∷ [];
  cost_sources = aws ∷ [];
  users = ann ∷ [];
  groups = devs ∷ [];
  group_members = [];
  project_roles = viewing ∷ [];
  budgets = [];
  cost_records = stored ∷ [];
}
