-- ===== src/Collector/Registry.antt =====
-- internal/collector/collector.go. A collector asks a cloud provider, so what it returns is a function
-- that the model takes.
use fin_guard.Prelude.{
  String, Option, none, some, List, [], ◌∷◌, map, ◌==◌, if◌then◌else◌, first, update, any,
}
use fin_guard.Models.{Time, CostSource, CostRecord}

pub record TimeWindow : Type 0 where
  pub start : Time
  pub end : Time

-- The records, or the text of the error.
pub data Collected (R : Type 0) : Type 0 where
  records : List (CostRecord R) → Collected R
  failed : String → Collected R

pub record Collector (R : Type 0) : Type 0 where
  pub type : String
  pub collect : CostSource → TimeWindow → Collected R

-- A map from source types, in the order in which a loop meets them.
pub record Registry (R : Type 0) : Type 0 where
  pub collectors : List (String × Collector R)

module _ {R : Type 0} where
  abbrev pub new_registry : Registry R
  new_registry = record { collectors = [] }

  unfoldable pub register : String → Collector R → Registry R → Registry R
  register source_type c r =
      if any (λ x. x.0 == source_type) r.collectors
      then record { collectors = update (λ x. x.0 == source_type) (λ x. (x.0, c)) r.collectors }
      else record { collectors = (source_type, c) ∷ r.collectors }

  abbrev pub value_of : Option (String × Collector R) → Option (Collector R)
  value_of none = none
  value_of (some x) = some x.1

  unfoldable pub get : String → Registry R → Option (Collector R)
  get source_type r = value_of (first (λ x. x.0 == source_type) r.collectors)

  abbrev pub types : Registry R → List String
  types r = map (λ x. x.0) r.collectors
