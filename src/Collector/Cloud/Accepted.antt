-- ===== src/Collector/Cloud/Accepted.antt =====
-- A round of a collection by a registered collector: the tables take every record of it.
use fin_guard.Prelude.{
  ℕ, ◌+◌, String, some, List, [], ◌∷◌, ◌++◌, map, append_assoc, append-nil, ◌≡◌, refl, sym, ap, ◌∙◌,
  true, false, ◌==◌, any, All, ok, arith,
}
use fin_guard.Float64.{Float64}
use fin_guard.Models.{CostSource, CostRecord}
use fin_guard.Store.Db.{Db, Env, has_project, has_source}
use fin_guard.Store.Sources.{update_cost_source_collected_at}
use fin_guard.Store.Costs.{LabelsJson, cost_row, insert_row, insert_rows, insert_cost_records}
use fin_guard.Collector.Registry.{records, Collector, get}
use fin_guard.Collector.Scheduler.{
  Event, Round, Scheduler, window_of, numbered, complete, collected, collect_source,
}
use fin_guard.Collector.Scheduler.Complete.{is_complete}
use fin_guard.Collector.Cloud.Wiring.{Clouds, collector_registry}
use fin_guard.Collector.Cloud.Stores.{IsOf, collect-IsOf}

module _ {R : Type 0} (json : LabelsJson) where
  -- The rows that the records are stored as, each with the identifier of its statement.
  abbrev pub stored_rows : List (Env × CostRecord R) → List (CostRecord R)
  stored_rows rows = map (λ x. cost_row json x.0 x.1) rows

  -- No statement fails, and each new identifier is unlike those stored and those made before it.
  abbrev pub IsFresh : List (Env × CostRecord R) → List (CostRecord R) → Type 0
  IsFresh [] stored = Unit
  IsFresh ((e, x) ∷ rows) stored =
      (e.fault ≡ false)
      × (any (λ q. q.id == e.fresh) stored ≡ false)
      × IsFresh rows (stored ++ cost_row json e x ∷ [])

  insert_row-IsOf :
      (source : CostSource) (e : Env) (x : CostRecord R) (db : Db R)
      → has_project source.project_id db ≡ true
      → has_source source.id db ≡ true
      → IsOf source x
      → e.fault ≡ false
      → any (λ q. q.id == e.fresh) db.cost_records ≡ false
      → insert_row json e x db
        ≡ ok (record db { cost_records = db.cost_records ++ cost_row json e x ∷ [] })
  unfolding insert_row cost_row
  insert_row-IsOf source e x db p s (no_id, of_project, of_source) up new =
      rw (no_id, of_project, of_source, up, new, p, s) refl

  insert_rows-IsOf :
      (source : CostSource) (at : ℕ → Env) (n : ℕ) (rs : List (CostRecord R)) (db : Db R)
      → has_project source.project_id db ≡ true
      → has_source source.id db ≡ true
      → All (IsOf source) rs
      → IsFresh (numbered at n rs) db.cost_records
      → insert_rows json (numbered at n rs) db
        ≡ ok (record db { cost_records = db.cost_records ++ stored_rows (numbered at n rs) })
  unfolding insert_rows
  insert_rows-IsOf source at n [] db p s a f =
      ap (λ stored. ok (record db { cost_records = stored })) (sym (append-nil db.cost_records))
  insert_rows-IsOf source at n (x ∷ rs) db p s (a, rest) (up, new, f) =
      rw (insert_row-IsOf source (at n) x db p s a up new, insert_rows)
        (insert_rows-IsOf source at (n + 1) rs _ p s rest f
          ∙ ap (λ stored. ok (record db { cost_records = stored }))
              (append_assoc db.cost_records (cost_row json (at n) x ∷ [])
                (stored_rows (numbered at (n + 1) rs))))

  insert_cost_records-IsOf :
      (source : CostSource) (r : Round) (rs : List (CostRecord R)) (db : Db R)
      → has_project source.project_id db ≡ true
      → has_source source.id db ≡ true
      → All (IsOf source) rs
      → IsFresh (numbered r.inserting 0 rs) db.cost_records
      → r.begin.fault ≡ false
      → r.prepare.fault ≡ false
      → r.commit.fault ≡ false
      → insert_cost_records json r.begin r.prepare (numbered r.inserting 0 rs) r.commit db ≡ (
        ok tt,
        record db { cost_records = db.cost_records ++ stored_rows (numbered r.inserting 0 rs) },
      )
  unfolding insert_cost_records
  insert_cost_records-IsOf source r rs db p s a f begun prepared committed =
      rw (insert_rows-IsOf source r.inserting 0 rs db p s a f, begun, prepared, committed) refl

module _ {R : Type 0} (s : Scheduler R) where
  -- The round published that it is complete, and every record is stored.
  abbrev Stores : Round → List (CostRecord R) → Db R → Db R × List Event → Type 0
  Stores r rs db after =
      (after.0.cost_records ≡ db.cost_records ++ stored_rows s.json (numbered r.inserting 0 rs))
      × (is_complete after.1 ≡ true)

  complete-cost_records :
      (r : Round) (source : CostSource) (count : ℕ) (db : Db R)
      → (complete s r source count db).0.cost_records ≡ db.cost_records
  unfolding complete update_cost_source_collected_at
  complete-cost_records r source count db = ground arith

  complete-is_complete :
      (r : Round) (source : CostSource) (count : ℕ) (db : Db R)
      → s.has_hub ≡ true
      → is_complete (complete s r source count db).1 ≡ true
  unfolding complete any
  complete-is_complete r source count db hub = rw hub refl

  collected-Stores :
      (r : Round) (source : CostSource) (rs : List (CostRecord R)) (db : Db R)
      → s.has_hub ≡ true
      → has_project source.project_id db ≡ true
      → has_source source.id db ≡ true
      → All (IsOf source) rs
      → IsFresh s.json (numbered r.inserting 0 rs) db.cost_records
      → r.begin.fault ≡ false
      → r.prepare.fault ≡ false
      → r.commit.fault ≡ false
      → Stores r rs db (collected s r source (records rs) db)
  collected-Stores r source [] db hub p q a f b c d = (
    complete-cost_records r source 0 db ∙ sym (append-nil db.cost_records),
    complete-is_complete r source 0 db hub,
  )
  collected-Stores r source (x ∷ xs) db hub p q a f b c d =
      rw (insert_cost_records-IsOf s.json source r (x ∷ xs) db p q a f b c d)
        (complete-cost_records r source _ _, complete-is_complete r source _ _ hub)

module _ (F : Float64) (c : Clouds F.Carrier) where
  -- A round of a source whose project and row are in the tables, on a scheduler with a hub and with the
  -- registry of `main`, in which a collector of the source's type answers with records, in which no
  -- statement of the insertion fails and each new identifier is unused: every record that the collector
  -- returned is stored, in order, behind those that were there, and the round publishes that it is
  -- complete. No record of these collectors is refused by a constraint of the schema.
  pub collect_source-stores :
      (hub_json : LabelsJson) (itoa : ℕ → String) (r : Round) (source : CostSource)
      (it : Collector F.Carrier) (rs : List (CostRecord F.Carrier)) (db : Db F.Carrier)
      → get source.type (collector_registry F c) ≡ some it
      → it.collect source (window_of r source) ≡ records rs
      → has_project source.project_id db ≡ true
      → has_source source.id db ≡ true
      → IsFresh hub_json (numbered r.inserting 0 rs) db.cost_records
      → r.begin.fault ≡ false
      → r.prepare.fault ≡ false
      → r.commit.fault ≡ false
      → ((collect_source
            (record {
              registry = collector_registry F c;
              has_hub = true;
              json = hub_json;
              itoa = itoa;
            })
            r
            source
            db).0.cost_records
          ≡ db.cost_records ++ stored_rows hub_json (numbered r.inserting 0 rs))
        × (is_complete
              (collect_source
                (record {
                  registry = collector_registry F c;
                  has_hub = true;
                  json = hub_json;
                  itoa = itoa;
                })
                r
                source
                db).1
            ≡ true)
  unfolding collect_source
  collect_source-stores json itoa r source it rs db h e p q f b c' d =
      rw (h, e)
        (collected-Stores
          (record { registry = collector_registry F c; has_hub = true; json = json; itoa = itoa }) r
          source rs db refl p q (collect-IsOf F c source.type it source (window_of r source) rs h e)
          f b c' d)
