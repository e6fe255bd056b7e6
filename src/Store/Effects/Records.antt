-- ===== src/Store/Effects/Records.antt =====
-- What `InsertCostRecords` leaves, and an induction over the runs of its prepared statement.
use fin_guard.Prelude.{
  List, [], ◌∷◌, ◌++◌, ◌≡◌, ◌⊎◌, inl, inr, true, false, ◌==◌, ◌||◌, Bool-cases, arith, ok, err, any,
  sym, refl, subst, Result, Error,
}
use fin_guard.Models.{CostRecord}
use fin_guard.Store.Db.{Db, Env, has_project, has_source}
use fin_guard.Store.Costs.{LabelsJson, cost_row, insert_row, insert_rows, insert_cost_records}

abbrev pub with_record : {R : Type 0} → CostRecord R → Db R → Db R
with_record row db = record db { cost_records = db.cost_records ++ row ∷ [] }

pub Result-cases {ℓ} :
    {A : Type ℓ} (r : Result A) → ((a : A) × (r ≡ ok a)) ⊎ ((x : Error) × (r ≡ err x))
Result-cases (ok a) = inl (a, refl)
Result-cases (err x) = inr (x, refl)

module _ {R : Type 0} (json : LabelsJson) where
  pub insert_row_effect :
      (e : Env) (r : CostRecord R) (db db' : Db R)
      → insert_row json e r db ≡ ok db'
      → (any (λ q. q.id == (cost_row json e r).id) db.cost_records ≡ false)
        × (has_project r.project_id db ≡ true)
        × (has_source r.cost_source_id db ≡ true)
        × (db' ≡ with_record (cost_row json e r) db)
  unfolding insert_row
  insert_row_effect e r db db' h = ground arith

  -- The transaction leaves the tables as they were, or all that the loop has made of them.
  pub insert_cost_records_effect :
      (begin prepare : Env) (rows : List (Env × CostRecord R)) (commit : Env) (db : Db R)
      → ((insert_cost_records json begin prepare rows commit db).1 ≡ db)
        ⊎ ((db' : Db R) × (insert_rows json rows db ≡ ok db')
            × ((insert_cost_records json begin prepare rows commit db).1 ≡ db'))
  unfolding insert_cost_records
  insert_cost_records_effect begin prepare rows commit db =
      elim (Result-cases (insert_rows json rows db)) [
        | inl (db', eq) ↦ elim (Bool-cases (begin.fault || prepare.fault || commit.fault)) [
          | inl bad ↦ inl (ground arith)
          | inr good ↦ inr (db', eq, ground arith)
        ]
        | inr (x, eq) ↦ inl (ground arith)
      ]

  module _ (P : Db R → Type 0)
      (step : (e : Env) (r : CostRecord R) (db db' : Db R)
        → insert_row json e r db ≡ ok db'
        → P db
        → P db') where
    -- What one run keeps, the loop keeps.
    insert_rows_induction :
        (rows : List (Env × CostRecord R)) (db db' : Db R)
        → insert_rows json rows db ≡ ok db'
        → P db
        → P db'
    unfolding insert_rows
    insert_rows_induction [] db db' h p = subst P (cc) p
    insert_rows_induction ((e, r) ∷ rows) db db' h p =
        elim (Result-cases (insert_row json e r db)) [
          | inl (mid, eq) ↦ insert_rows_induction rows mid db' (ground arith) (step e r db mid eq p)
          | inr (x, eq) ↦ absurd (ground arith)
        ]

    pub insert_cost_records_induction :
        (begin prepare : Env) (rows : List (Env × CostRecord R)) (commit : Env) (db : Db R)
        → P db
        → P (insert_cost_records json begin prepare rows commit db).1
    insert_cost_records_induction begin prepare rows commit db p =
        elim (insert_cost_records_effect begin prepare rows commit db) [
          | inl eq ↦ subst P (sym eq) p
          | inr (db', done, eq) ↦ subst P (sym eq) (insert_rows_induction rows db db' done p)
        ]
