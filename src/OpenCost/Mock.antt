-- ===== src/OpenCost/Mock.antt =====
-- internal/opencostproxy/mock.go: the answers of the mock, which depend on the clock and on the draws of
-- math/rand. The `n`-th draw of a request is `draw n`; math.Pow and math.Round are parameters.
use Prim.Native.String
use fin_guard.Prelude.{ℕ, ◌+◌, ◌-◌, String, List, [], ◌∷◌, map, ◌==◌, if◌then◌else◌}
use fin_guard.Float64.{Float64}
use fin_guard.Models.{Time}

pub record MockAllocation (R : Type 0) : Type 0 where
  pub name : String
  pub start : String
  pub end : String
  pub cpu_cost : R
  pub ram_cost : R
  pub gpu_cost : R
  pub total_cost : R
  pub cpu_core_request_average : R
  pub ram_byte_request_average : R
  pub cpu_core_usage_average : R
  pub ram_byte_usage_average : R

pub record MockNode (R : Type 0) : Type 0 where
  pub type : String
  pub name : String
  pub start : String
  pub end : String
  pub node_type : String
  pub cpu_cost : R
  pub ram_cost : R
  pub total_cost : R
  pub provider : String
  pub provider_id : String

pub record MockService (R : Type 0) : Type 0 where
  pub provider : String
  pub service : String
  pub account : String
  pub cost : R

pub record MockCloudCost (R : Type 0) : Type 0 where
  pub provider : String
  pub account_id : String
  pub service : String
  pub category : String
  pub invoice_entity_id : String
  pub list_cost : R
  pub net_cost : R
  pub amortized_cost : R
  pub invoiced_cost : R

-- The body of a mock answer, whose status and `code` are 200.
pub data MockBody (R : Type 0) : Type 0 where
  allocations : List (String × MockAllocation R) → MockBody R
  assets : List (MockNode R) → MockBody R
  -- the date of the set, and the costs by their keys
  cloud_costs : String → List (String × MockCloudCost R) → MockBody R
  -- no sets
  custom_costs : MockBody R

module _ (F : Float64) (pow10 : ℕ → F.Carrier) (round : F.Carrier → F.Carrier) where
  open F use {Carrier, zero, one, add, mul, div, of_int}

  unfoldable pub round_to : Carrier → ℕ → Carrier
  round_to f places = div (round (mul f (pow10 places))) (pow10 places)

  -- `roundTo(rand.Float64()*scale + base, places)`
  abbrev pub drawn : Carrier → Carrier → Carrier → ℕ → Carrier
  drawn x scale base places = round_to (add (mul x scale) base) places

  abbrev pub twenty_four_hours : Time
  twenty_four_hours = 86400000000000

  module _ (draw : ℕ → Carrier) (rfc3339 : Time → String) (now : Time) where
    -- The parts of the total, from the draws on.
    abbrev pub mock_allocation : String → Carrier → Carrier → Carrier → ℕ → MockAllocation Carrier
    mock_allocation ns cpu ram gpu n = record {
      name = ns;
      start = rfc3339 (now - twenty_four_hours);
      end = rfc3339 now;
      cpu_cost = cpu;
      ram_cost = ram;
      gpu_cost = gpu;
      total_cost = round_to (add (add cpu ram) gpu) 2;
      cpu_core_request_average = drawn (draw n) (of_int 4) (div one (of_int 2)) 3;
      ram_byte_request_average = drawn (draw (n + 1)) (of_int 4000000000) (of_int 500000000) 0;
      cpu_core_usage_average = drawn (draw (n + 2)) (of_int 2) (div one (of_int 10)) 3;
      ram_byte_usage_average = drawn (draw (n + 3)) (of_int 2000000000) (of_int 100000000) 0;
    }

    -- The loop over the namespaces, from the `n`-th draw on.
    unfoldable pub mock_allocations : ℕ → List String → List (String × MockAllocation Carrier)
    mock_allocations n [] = []
    mock_allocations n (ns ∷ rest) =
        let cpu = drawn (draw n) (of_int 50) (of_int 5) 2 in
        let ram = drawn (draw (n + 1)) (of_int 30) (of_int 3) 2 in
        let with_gpu = mock_allocations (n + 7) rest in
        let without_gpu = mock_allocations (n + 6) rest in
        if ns == "production"
        then (ns, mock_allocation ns cpu ram (round_to (mul (draw (n + 2)) (of_int 100)) 2) (n + 3))
          ∷ with_gpu
        else (ns, mock_allocation ns cpu ram zero (n + 2)) ∷ without_gpu

    unfoldable pub handle_allocation : MockBody Carrier
    unfolding mock_allocations
    handle_allocation = allocations (
        mock_allocations 0
          ("default" ∷ "kube-system" ∷ "monitoring" ∷ "production" ∷ "staging" ∷ []))

    abbrev pub mock_node : String → String → String → Carrier → Carrier → Carrier → MockNode Carrier
    mock_node name node_type provider_id cpu ram total = record {
      type = "Node";
      name = name;
      start = rfc3339 (now - twenty_four_hours);
      end = rfc3339 now;
      node_type = node_type;
      cpu_cost = cpu;
      ram_cost = ram;
      total_cost = total;
      provider = "AWS";
      provider_id = provider_id;
    }

    unfoldable pub handle_assets : MockBody Carrier
    handle_assets = assets (
        mock_node "ip-10-0-1-101.ec2.internal" "m5.xlarge" "i-0abc123def456"
          (drawn (draw 0) (of_int 20) (of_int 10) 2) (drawn (draw 1) (of_int 10) (of_int 5) 2)
          (drawn (draw 2) (of_int 35) (of_int 15) 2)
        ∷ mock_node "ip-10-0-2-202.ec2.internal" "m5.2xlarge" "i-0def789abc012"
            (drawn (draw 3) (of_int 40) (of_int 20) 2) (drawn (draw 4) (of_int 20) (of_int 10) 2)
            (drawn (draw 5) (of_int 70) (of_int 30) 2)
        ∷ [])

    abbrev pub mock_service : String → String → String → ℕ → ℕ → ℕ → MockService Carrier
    mock_service provider service account n scale base = record {
      provider = provider;
      service = service;
      account = account;
      cost = drawn (draw n) (of_int scale) (of_int base) 2;
    }

    abbrev pub mock_services : List (MockService Carrier)
    mock_services =
        mock_service "AWS" "AmazonEC2" "123456789012" 0 500 100
        ∷ mock_service "AWS" "AmazonS3" "123456789012" 1 50 10
        ∷ mock_service "AWS" "AmazonRDS" "123456789012" 2 200 50
        ∷ mock_service "AWS" "AmazonEKS" "123456789012" 3 100 20
        ∷ mock_service "Azure" "Virtual Machines" "sub-abc-123" 4 300 80
        ∷ mock_service "Azure" "Storage" "sub-abc-123" 5 40 8
        ∷ mock_service "GCP" "Compute Engine" "my-gcp-project" 6 250 60
        ∷ mock_service "GCP" "Cloud Storage" "my-gcp-project" 7 30 5
        ∷ []

    -- `cost * percent/100`, rounded
    abbrev pub percent_of : ℕ → Carrier → Carrier
    percent_of percent cost = round_to (mul cost (div (of_int percent) (of_int 100))) 2

    abbrev pub mock_cloud_cost : MockService Carrier → String × MockCloudCost Carrier
    mock_cloud_cost s = (
      String.◌++◌ s.provider (String.◌++◌ "/" (String.◌++◌ s.account (String.◌++◌ "/" s.service))),
      record {
        provider = s.provider;
        account_id = s.account;
        service = s.service;
        category = "Compute";
        invoice_entity_id = s.account;
        list_cost = s.cost;
        net_cost = percent_of 90 s.cost;
        amortized_cost = percent_of 85 s.cost;
        invoiced_cost = percent_of 88 s.cost;
      },
    )

    unfoldable pub handle_cloud_cost : (Time → String) → MockBody Carrier
    handle_cloud_cost date_key =
        cloud_costs (date_key (now - twenty_four_hours)) (map mock_cloud_cost mock_services)

    abbrev pub handle_custom_cost : MockBody Carrier
    handle_custom_cost = custom_costs
