-- ===== src/Collector/Scheduler/Windows.antt =====
-- What a round of a collection does to the source's time, from which its next window starts.
use fin_guard.Prelude.{
  ℕ, Option, none, some, List, [], ◌∷◌, ◌≡◌, refl, ◌∙◌, ap, ◌⊎◌, inl, inr, false, ◌==◌, length,
  Result, ok, err, arith, first-update,
}
use fin_guard.Models.{CostSource, CostRecord}
use fin_guard.Store.Db.{Db, Env}
use fin_guard.Store.Sources.{get_cost_source, update_cost_source_collected_at}
use fin_guard.Store.Costs.{LabelsJson, insert_row, insert_cost_records}
use fin_guard.Store.Effects.Records.{insert_row_effect, insert_cost_records_induction}
use fin_guard.Collector.Registry.{Collected, records, failed, Collector, get}
use fin_guard.Collector.Scheduler.{
  Round, Scheduler, window_of, numbered, complete, inserted, collected, with_collector,
  collect_source,
}

inserted_row-cost_sources :
    {R : Type 0} (json : LabelsJson) (e : Env) (x : CostRecord R) (mid after : Db R)
    → insert_row json e x mid ≡ ok after
    → after.cost_sources ≡ mid.cost_sources
inserted_row-cost_sources json e x mid after h =
    let (_, _, _, stored) = insert_row_effect json e x mid after h in
    ap (λ d. d.cost_sources) stored

module _ {R : Type 0} (s : Scheduler R) where
  pub insert-error_unchanged :
      (r : Round) (rows : List (CostRecord R)) (db : Db R)
      → ((insert_cost_records s.json r.begin r.prepare (numbered r.inserting 0 rows) r.commit db).0
          ≡ ok tt)
        ⊎ ((insert_cost_records s.json r.begin r.prepare
              (numbered r.inserting 0 rows)
              r.commit
              db).1
            ≡ db)
  unfolding insert_cost_records
  insert-error_unchanged r rows db = ground arith

  insert-cost_sources :
      (r : Round) (rows : List (CostRecord R)) (db : Db R)
      → (insert_cost_records s.json r.begin r.prepare
          (numbered r.inserting 0 rows)
          r.commit
          db).1.cost_sources
        ≡ db.cost_sources
  insert-cost_sources r rows db =
      insert_cost_records_induction s.json (λ db'. db'.cost_sources ≡ db.cost_sources)
        (λ e x mid after h same. inserted_row-cost_sources s.json e x mid after h ∙ same) r.begin
        r.prepare (numbered r.inserting 0 rows) r.commit db refl

  -- What marking the source leaves of it.
  marked :
      (r : Round) (later : Env) (source s0 : CostSource) (count : ℕ) (db db' : Db R)
      → r.marking.fault ≡ false
      → later.fault ≡ false
      → db'.cost_sources ≡ db.cost_sources
      → get_cost_source later source.id db ≡ ok (some s0)
      → get_cost_source later source.id (complete s r source count db').0
        ≡ ok (some (record s0 { last_collected_at = some r.stamp; updated_at = r.marking.now }))
  unfolding get_cost_source complete update_cost_source_collected_at
  marked r later source s0 count db db' up up' same h =
      rw (up, up', same)
        (ground (
          arith,
          first-update (λ x. x.id == source.id) (λ x. x.id == source.id)
              (λ x. record x { last_collected_at = some r.stamp; updated_at = r.marking.now })
              (λ x k. refl) (λ x k. k) db.cost_sources s0,
        ))

  -- The tables of a round are those before it, or those of the end of `collectSource`, run in tables
  -- with the same sources.
  abbrev pub Marks : Round → CostSource → Db R → Db R → Type 0
  Marks r source db after =
      (after ≡ db)
      ⊎ ((count : ℕ) × (db' : Db R) × (db'.cost_sources ≡ db.cost_sources)
          × (after ≡ (complete s r source count db').0))

  inserted-Marks :
      (r : Round) (source : CostSource) (count : ℕ) (db : Db R) (made : Result (Unit {0}) × Db R)
      → (made.0 ≡ ok tt) ⊎ (made.1 ≡ db)
      → made.1.cost_sources ≡ db.cost_sources
      → Marks r source db (inserted s r source count made).0
  inserted-Marks r source count db (ok _, db') h same = inr (count, db', same, refl)
  inserted-Marks r source count db (err f, db') (inl h) same = absurd (ground arith)
  inserted-Marks r source count db (err f, db') (inr h) same = inl h

  collected-Marks :
      (r : Round) (source : CostSource) (c : Collected R) (db : Db R)
      → Marks r source db (collected s r source c db).0
  collected-Marks r source (failed text) db = inl refl
  collected-Marks r source (records []) db = inr (0, db, refl, refl)
  collected-Marks r source (records (x ∷ xs)) db =
      inserted-Marks r source (length (x ∷ xs)) db _ (insert-error_unchanged r (x ∷ xs) db)
        (insert-cost_sources r (x ∷ xs) db)

  pub with_collector-Marks :
      (r : Round) (source : CostSource) (c : Option (Collector R)) (db : Db R)
      → Marks r source db (with_collector s r source c db).0
  with_collector-Marks r source none db = inl refl
  with_collector-Marks r source (some c) db =
      collected-Marks r source (c.collect source (window_of r source)) db

  -- A round of a collection leaves every table as it was, or it moves the source's time to the reading
  -- of the clock at its end, from which the next window starts, provided that the update does not fail.
  -- Only the time and the update time of the source's row change.
  pub get_cost_source-collect_source :
      (r : Round) (later : Env) (source s0 : CostSource) (db : Db R)
      → r.marking.fault ≡ false
      → later.fault ≡ false
      → get_cost_source later source.id db ≡ ok (some s0)
      → ((collect_source s r source db).0 ≡ db)
        ⊎ (get_cost_source later source.id (collect_source s r source db).0
            ≡ ok
                (some (record s0 { last_collected_at = some r.stamp; updated_at = r.marking.now })))
  unfolding collect_source
  get_cost_source-collect_source r later source s0 db up up' h =
      elim (with_collector-Marks r source (get source.type s.registry) db) [
        | inl same ↦ inl same
        | inr (count, db', same, e) ↦
            inr (rw e (marked r later source s0 count db db' up up' same h))
      ]
