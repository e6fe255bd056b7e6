-- ===== src/Collector/Cloud/Rows.antt =====
-- What the collectors share: the zero value of a record, with the source's identifiers, and the look-up
-- in a row.
use Prim.Native.String
use fin_guard.Prelude.{String, Option, none, some, List, [], ◌∷◌, ◌==◌, first}
use fin_guard.Float64.{Float64}
use fin_guard.Models.{Time, CostSource, CostRecord}

-- What json.Unmarshal makes of a text, or the text of its error.
pub data Parsed (A : Type 0) : Type 0 where
  parsed : A → Parsed A
  unparsed : String → Parsed A

-- 24 hours in nanoseconds.
abbrev pub one_day : Time
one_day = 86400000000000

-- A map[string]string.
abbrev pub Row : Type 0
Row = List (String × String)

abbrev pub cell_of : Option (String × String) → String
cell_of none = ""
cell_of (some x) = x.1

unfoldable pub cell : Row → String → String
cell row key = cell_of (first (λ x. x.0 == key) row)

abbrev pub join_texts : List String → String
join_texts [] = ""
join_texts (s ∷ ss) = String.◌++◌ s (join_texts ss)

module _ (F : Float64) where
  open F use {Carrier, zero}

  -- A `&models.CostRecord{ProjectID: …, CostSourceID: …}`.
  abbrev pub blank : CostSource → CostRecord Carrier
  blank source = record {
    id = "";
    project_id = source.project_id;
    cost_source_id = source.id;
    provider = "";
    provider_id = "";
    account_id = "";
    account_name = "";
    invoice_entity_id = "";
    service = "";
    category = "";
    region = "";
    availability_zone = "";
    start_time = 0;
    end_time = 0;
    list_cost = zero;
    net_cost = zero;
    amortized_cost = zero;
    amortized_net_cost = zero;
    currency = "";
    labels = none;
    labels_json = "";
    kubernetes_percent = zero;
  }
