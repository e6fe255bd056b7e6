-- ===== src/Store/Costs/Batch.antt =====
-- What `InsertCostRecords` leaves where it returns no error.
use fin_guard.Prelude.{
  List, [], ◌∷◌, ◌++◌, ◌≡◌, refl, ◌∙◌, inl, inr, arith, ok, append_assoc, append-nil,
}
use fin_guard.Models.{CostRecord}
use fin_guard.Store.Db.{Db, Env}
use fin_guard.Store.Costs.{LabelsJson, cost_row, insert_row, insert_rows, insert_cost_records}
use fin_guard.Store.Effects.Records.{Result-cases, insert_row_effect}

module _ {R : Type 0} (json : LabelsJson) where
  -- The rows that the batch is stored as.
  abbrev pub batch_rows : List (Env × CostRecord R) → List (CostRecord R)
  batch_rows [] = []
  batch_rows ((e, r) ∷ rows) = cost_row json e r ∷ batch_rows rows

  insert_rows-batch :
      (rows : List (Env × CostRecord R)) (db db' : Db R)
      → insert_rows json rows db ≡ ok db'
      → db' ≡ record db { cost_records = db.cost_records ++ batch_rows rows }
  unfolding insert_rows
  insert_rows-batch [] db db' h = rw append-nil (cc)
  insert_rows-batch ((e, r) ∷ rows) db db' h = elim (Result-cases (insert_row json e r db)) [
    | inl (mid, eq) ↦
        let (_, _, _, stored) = insert_row_effect json e r db mid eq in
        insert_rows-batch rows mid db' (ground arith) ∙ rw (stored, append_assoc) refl
    | inr (x, eq) ↦ absurd (ground arith)
  ]

  -- A batch that is inserted with no error adds its rows, in order, behind those of the table, and
  -- changes no other table.
  pub insert_cost_records-batch :
      (begin prepare : Env) (rows : List (Env × CostRecord R)) (commit : Env) (db : Db R)
      → (insert_cost_records json begin prepare rows commit db).0 ≡ ok tt
      → (insert_cost_records json begin prepare rows commit db).1
        ≡ record db { cost_records = db.cost_records ++ batch_rows rows }
  unfolding insert_cost_records
  insert_cost_records-batch begin prepare rows commit db h =
      elim (Result-cases (insert_rows json rows db)) [
        | inl (db', eq) ↦ ground (arith, insert_rows-batch rows db db')
        | inr (x, eq) ↦ absurd (ground arith)
      ]
