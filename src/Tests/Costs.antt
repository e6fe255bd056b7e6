-- ===== src/Tests/Costs.antt =====
-- The cost records: queries, an aggregation and a batch.
use fin_guard.Prelude.{
  ℕ, ◌≤◌, [], ◌∷◌, length, ◌≡◌, ◌↔◌, ◌⊎◌, refl, true, false, All, select, sort, any, codes,
}
use fin_guard.Float64.{whole}
use fin_guard.Store.CostQuery.{query_of, conditions, where_holds, build_cost_where, condition}
use fin_guard.Store.CostQuery.Scope.{InScope, where_holds-InScope}
use fin_guard.Store.CostQuery.Placeholders.{build_cost_where-holes}
use fin_guard.Store.Rebind.Laws.{holes}
use fin_guard.Store.Costs.{
  cost_row, insert_row, insert_rows, insert_cost_records, query_cost_records, aggregate_costs,
  scan_record, scan_records, matching, window, total,
}
use fin_guard.Store.Costs.Batch.{insert_cost_records-batch}
use fin_guard.Store.Costs.Answers.{query_cost_records-InScope, aggregate_costs-count}
use fin_guard.Tests.Fixtures.{up, json, spent, stored, small}

where_holds-InScope_example :
    (where_holds (conditions (query_of "p1")).0 (conditions (query_of "p1")).1 stored ≡ true)
    ↔ InScope (query_of "p1") stored
where_holds-InScope_example = where_holds-InScope (query_of "p1") stored

build_cost_where-holes_example :
    holes false (codes (build_cost_where (record (query_of "p1") { provider = "AWS?" })).0)
    ≡ length (build_cost_where (record (query_of "p1") { provider = "AWS?" })).1
build_cost_where-holes_example =
    build_cost_where-holes (record (query_of "p1") { provider = "AWS?" })

query_cost_records-InScope_example :
    All (InScope (record (query_of "p1") { limit = 5 })) (stored ∷ [])
    × ((◌≡◌ {A = ℕ} 5 0) ⊎ (1 ≤ 5))
unfolding query_cost_records scan_records scan_record matching window where_holds conditions select
    condition sort
query_cost_records-InScope_example =
    query_cost_records-InScope json (record (query_of "p1") { limit = 5 }) up small (stored ∷ [])
      refl

aggregate_costs-count_example : ◌≡◌ {A = ℕ} 1 (length (stored ∷ []))
unfolding aggregate_costs query_cost_records scan_records scan_record matching window where_holds
    conditions total select condition sort
aggregate_costs-count_example =
    aggregate_costs-count whole json up up (query_of "p1") small
      (record {
        total_list_cost = 5;
        total_net_cost = 4;
        total_amortized = 4;
        total_amortized_net = 4;
        record_count = 1;
      })
      (stored ∷ []) refl refl refl refl

insert_cost_records-batch_example :
    (insert_cost_records json up up ((up, spent) ∷ []) up small).1
    ≡ record small { cost_records = stored ∷ record spent { id = "new"; labels_json = "{}" } ∷ [] }
unfolding insert_cost_records insert_rows insert_row cost_row any
insert_cost_records-batch_example =
    insert_cost_records-batch json up up ((up, spent) ∷ []) up small refl
