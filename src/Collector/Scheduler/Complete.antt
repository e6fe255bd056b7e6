-- ===== src/Collector/Scheduler/Complete.antt =====
-- Which rounds of internal/collector/scheduler.go are complete.
use fin_guard.Prelude.{
  ℕ, Option, none, some, List, [], ◌∷◌, ◌≡◌, refl, ◌⊎◌, inl, inr, Bool, true, false, ◌==◌, any,
  length, Result, ok, err, is_ok, arith,
}
use fin_guard.Models.{CostSource}
use fin_guard.Store.Db.{Db}
use fin_guard.Store.Costs.{insert_cost_records}
use fin_guard.Collector.Registry.{Collected, records, failed, Collector, get}
use fin_guard.Collector.Scheduler.{
  Event, Round, Scheduler, window_of, numbered, complete, inserted, collected, with_collector,
  collect_source,
}
use fin_guard.Collector.Scheduler.Windows.{insert-error_unchanged}

-- The round published that it is complete.
abbrev pub is_complete : List Event → Bool
is_complete events = any (λ e. e.type == "collection.complete") events

module _ {R : Type 0} (s : Scheduler R) where
  -- What the collector returned is stored, if there is anything to store.
  abbrev is_stored : Round → Collected R → Db R → Bool
  is_stored r (failed text) db = false
  is_stored r (records []) db = true
  is_stored r (records (x ∷ xs)) db =
      is_ok
        (insert_cost_records s.json r.begin r.prepare (numbered r.inserting 0 (x ∷ xs)) r.commit
          db).0

  abbrev is_stored_by : Round → CostSource → Option (Collector R) → Db R → Bool
  is_stored_by r source none db = false
  is_stored_by r source (some c) db = is_stored r (c.collect source (window_of r source)) db

  -- There is a collector of the source's type, it returns records, and there are none or they are
  -- inserted without an error.
  abbrev pub succeeds : Round → CostSource → Db R → Bool
  succeeds r source db = is_stored_by r source (get source.type s.registry) db

  -- A round that is complete, or one that left the tables as they were.
  abbrev Settled : Bool → Db R → Db R × List Event → Type 0
  Settled success db after = (is_complete after.1 ≡ success) × ((success ≡ true) ⊎ (after.0 ≡ db))

  inserted-Settled :
      (r : Round) (source : CostSource) (count : ℕ) (db : Db R) (made : Result (Unit {0}) × Db R)
      → (made.0 ≡ ok tt) ⊎ (made.1 ≡ db)
      → s.has_hub ≡ true
      → Settled (is_ok made.0) db (inserted s r source count made)
  unfolding complete any
  inserted-Settled r source count db (ok _, db') either hub = (ground (arith, hub), inl refl)
  inserted-Settled r source count db (err f, db') (inl e) hub = absurd (ground arith)
  inserted-Settled r source count db (err f, db') (inr e) hub = (refl, inr e)

  collected-Settled :
      (r : Round) (source : CostSource) (c : Collected R) (db : Db R)
      → s.has_hub ≡ true
      → Settled (is_stored r c db) db (collected s r source c db)
  unfolding complete any
  collected-Settled r source (failed text) db hub = (ground (arith, hub), inr refl)
  collected-Settled r source (records []) db hub = (ground (arith, hub), inl refl)
  collected-Settled r source (records (x ∷ xs)) db hub =
      inserted-Settled r source (length (x ∷ xs)) db _ (insert-error_unchanged s r (x ∷ xs) db) hub

  with_collector-Settled :
      (r : Round) (source : CostSource) (c : Option (Collector R)) (db : Db R)
      → s.has_hub ≡ true
      → Settled (is_stored_by r source c db) db (with_collector s r source c db)
  unfolding any
  with_collector-Settled r source none db hub = (refl, inr refl)
  with_collector-Settled r source (some c) db hub =
      collected-Settled r source (c.collect source (window_of r source)) db hub

  -- A round on a scheduler with a hub publishes that it is complete exactly where it succeeds: a
  -- collector is registered for the source's type, it returns no error, and it returns no record or its
  -- records are inserted without an error. A round that does not succeed leaves every table as it was,
  -- so that the source's window stays open.
  pub collect_source_incomplete :
      (r : Round) (source : CostSource) (db : Db R)
      → s.has_hub ≡ true
      → (is_complete (collect_source s r source db).1 ≡ succeeds r source db)
        × ((succeeds r source db ≡ true) ⊎ ((collect_source s r source db).0 ≡ db))
  unfolding collect_source
  collect_source_incomplete r source db hub =
      with_collector-Settled r source (get source.type s.registry) db hub
