-- ===== src/Store/Costs.antt =====
-- The cost records of internal/store/sql.go: the transaction that inserts a batch, the query and the
-- aggregation. The labels go through encoding/json, a parameter.
pub mod Batch
pub mod Answers
use mathlib.Core.Option
use fin_guard.Prelude.{
  ℕ, String, Option, some, none, List, ◌∷◌, [], ◌++◌, Bool, not, ◌&&◌, ◌||◌, ◌==◌, if◌then◌else◌,
  leb, ltb, nat_eq, length, take, drop,
}
use fin_guard.Prelude.{
  Result, ok, err, Error, io, syntax, malformed, unique_violation, foreign_key_violation, any,
  select, sort,
}
use fin_guard.Float64.{Float64}
use fin_guard.Models.{CostRecord, Labels}
use fin_guard.Store.Db.{Db, Env, Exec, Query, read, given_id, has_project, has_source}
use fin_guard.Store.CostQuery.{CostQuery, conditions, where_holds}

-- `json.Marshal` and `json.Unmarshal` at map[string]string.
pub record LabelsJson : Type 0 where
  pub marshal : Labels → String
  pub unmarshal : String → Option Labels

pub record CostSummary (R : Type 0) : Type 0 where
  pub total_list_cost : R
  pub total_net_cost : R
  pub total_amortized : R
  pub total_amortized_net : R
  pub record_count : ℕ

-- `labelsJSON`
labels_text : LabelsJson → Option Labels → String
labels_text json none = "{}"
labels_text json (some l) = json.marshal l

module _ {R : Type 0} where
  -- The rows that the WHERE text of `buildCostWhere` keeps.
  unfoldable pub matching : CostQuery → List (CostRecord R) → List (CostRecord R)
  matching q = select (where_holds (conditions q).0 (conditions q).1)

  -- LIMIT and OFFSET, each where it is positive.
  unfoldable pub window : CostQuery → List (CostRecord R) → List (CostRecord R)
  window q rows = let rest = drop q.offset rows in if ltb 0 q.limit then take q.limit rest else rest

-- SQLite's grammar has an OFFSET only behind a LIMIT.
abbrev pub refused : Env → CostQuery → Bool
refused e q = not (e.driver == "pgx") && (nat_eq q.limit 0 && ltb 0 q.offset)

module _ {R : Type 0} (json : LabelsJson) where
  -- The row that a record is stored as; the map itself is no column.
  unfoldable pub cost_row : Env → CostRecord R → CostRecord R
  unfolding labels_text
  cost_row e r = record r {
    id = given_id e r.id;
    labels = none;
    labels_json = labels_text json r.labels;
  }

  -- One run of the prepared statement.
  unfoldable pub insert_row : Env → CostRecord R → Db R → Result (Db R)
  unfolding cost_row
  insert_row e r db =
      let row = cost_row e r in
      if e.fault
      then err io
      else if any (λ q. q.id == row.id) db.cost_records
      then err unique_violation
      else if has_project row.project_id db && has_source row.cost_source_id db
      then ok (record db { cost_records = db.cost_records ++ row ∷ [] })
      else err foreign_key_violation

  -- The loop of `InsertCostRecords`, in the transaction; it returns at the first error.
  unfoldable pub insert_rows : List (Env × CostRecord R) → Db R → Result (Db R)
  insert_rows [] db = ok db
  insert_rows ((e, r) ∷ rows) db = elim (insert_row e r db) [
    | ok db' ↦ insert_rows rows db'
    | err x ↦ err x
  ]

  -- What `Commit`, or the deferred `Rollback`, leaves.
  finish : Env → Db R → Result (Db R) → Result (Unit {0}) × Db R
  finish commit db (err x) = (err x, db)
  finish commit db (ok db') = if commit.fault then (err io, db) else (ok tt, db')

  -- `InsertCostRecords`: the begin, the prepare, a run for each record, and the commit.
  unfoldable pub insert_cost_records :
      Env → Env → List (Env × CostRecord R) → Env → Exec R (Unit {0})
  unfolding finish
  insert_cost_records begin prepare rows commit db =
      if begin.fault || prepare.fault then (err io, db) else finish commit db (insert_rows rows db)

  -- `rows.Scan` of a record, and its labels.
  unfoldable pub scan_record : CostRecord R → Result (CostRecord R)
  scan_record r =
      if not (r.labels_json == "") && not (r.labels_json == "{}")
      then elim (json.unmarshal r.labels_json) [
        | some l ↦ ok (record r { labels = some l })
        | none ↦ err malformed
      ]
      else ok r

  unfoldable pub scan_records : List (CostRecord R) → Result (List (CostRecord R))
  scan_records [] = ok []
  scan_records (r ∷ rs) = elim (scan_record r) [
    | ok s ↦ elim (scan_records rs) [ ok ss ↦ ok (s ∷ ss) | err x ↦ err x ]
    | err x ↦ err x
  ]

  unfoldable pub query_cost_records : Env → CostQuery → Query R (List (CostRecord R))
  unfolding window matching
  query_cost_records e q = read e λ db.
      if refused e q
      then err syntax
      else scan_records
          (window q (sort (λ r s. leb s.start_time r.start_time) (matching q db.cost_records)))

module _ (F : Float64) where
  open F use {Carrier, zero, add}

  -- COALESCE(SUM(column), 0)
  unfoldable pub total : (CostRecord Carrier → Carrier) → List (CostRecord Carrier) → Carrier
  total column [] = zero
  total column (r ∷ rs) = add (column r) (total column rs)

  unfoldable pub aggregate_costs : Env → CostQuery → Query Carrier (CostSummary Carrier)
  unfolding matching total
  aggregate_costs e q = read e λ db.
      let rows = select (where_holds (conditions q).0 (conditions q).1) db.cost_records in
      ok (record {
        total_list_cost = total (λ r. r.list_cost) rows;
        total_net_cost = total (λ r. r.net_cost) rows;
        total_amortized = total (λ r. r.amortized_cost) rows;
        total_amortized_net = total (λ r. r.amortized_net_cost) rows;
        record_count = length rows;
      })
