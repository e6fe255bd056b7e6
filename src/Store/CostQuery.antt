-- ===== src/Store/CostQuery.antt =====
-- `CostQuery` of internal/store/store.go and `buildCostWhere` of internal/store/sql.go. The limit and
-- the offset are used where they are positive, so a negative one is 0 here; `GroupBy` is never read.
pub mod Scope
pub mod Placeholders
use Prim.Native.String
use fin_guard.Prelude.{
  ℕ, String, List, [], ◌∷◌, ◌++◌, Bool, true, false, not, ◌&&◌, ◌||◌, ◌==◌, if◌then◌else◌, nat_eq,
  leb,
}
use fin_guard.Models.{Time, CostRecord}

pub record CostQuery : Type 0 where
  pub project_id : String
  pub cost_source_id : String
  pub provider : String
  pub service : String
  pub start_time : Time
  pub end_time : Time
  pub group_by : String
  pub limit : ℕ
  pub offset : ℕ

abbrev pub query_of : String → CostQuery
query_of project_id = record {
  project_id = project_id;
  cost_source_id = "";
  provider = "";
  service = "";
  start_time = 0;
  end_time = 0;
  group_by = "";
  limit = 0;
  offset = 0;
}

-- An argument of type `any`.
pub data Arg : Type 0 where
  string_arg : String → Arg
  time_arg : Time → Arg

-- The two slices of the loop-free builder, appended to together where the filter is given.
unfoldable pub condition : Bool → String → Arg → List String × List Arg → List String × List Arg
condition given cond arg (conditions, args) =
    if given then (conditions ++ cond ∷ [], args ++ arg ∷ []) else (conditions, args)

unfoldable pub conditions : CostQuery → List String × List Arg
conditions q = condition (not (nat_eq q.end_time 0)) "end_time <= ?" (time_arg q.end_time) (
    condition (not (nat_eq q.start_time 0)) "start_time >= ?" (time_arg q.start_time) (
      condition (not (q.service == "")) "service = ?" (string_arg q.service) (
        condition (not (q.provider == "")) "provider = ?" (string_arg q.provider) (
          condition (not (q.cost_source_id == "")) "cost_source_id = ?"
            (string_arg q.cost_source_id)
            (condition (not (q.project_id == "")) "project_id = ?" (string_arg q.project_id)
              ([], []))))))

-- `strings.Join`
unfoldable pub join : String → List String → String
join sep [] = ""
join sep (s ∷ []) = s
join sep (s ∷ t ∷ rest) = String.◌++◌ s (String.◌++◌ sep (join sep (t ∷ rest)))

where_of : List String × List Arg → String × List Arg
where_of ([], args) = ("", [])
where_of (c ∷ cs, args) = (String.◌++◌ " WHERE " (join " AND " (c ∷ cs)), args)

unfoldable pub build_cost_where : CostQuery → String × List Arg
unfolding where_of
build_cost_where q = where_of (conditions q)

module _ {R : Type 0} where
  -- What the engine makes of one condition and the argument that is bound to its placeholder.
  unfoldable pub holds : String → Arg → CostRecord R → Bool
  holds cond (string_arg t) r =
      (cond == "project_id = ?" && r.project_id == t)
      || (cond == "cost_source_id = ?" && r.cost_source_id == t)
      || (cond == "provider = ?" && r.provider == t)
      || (cond == "service = ?" && r.service == t)
  holds cond (time_arg t) r =
      (cond == "start_time >= ?" && leb t r.start_time)
      || (cond == "end_time <= ?" && leb r.end_time t)

  -- A conjunction, its placeholders bound in order.
  unfoldable pub where_holds : List String → List Arg → CostRecord R → Bool
  unfolding holds
  where_holds [] [] r = true
  where_holds (c ∷ cs) (a ∷ args) r = holds c a r && where_holds cs args r
  where_holds _ _ r = false
