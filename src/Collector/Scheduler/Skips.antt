-- ===== src/Collector/Scheduler/Skips.antt =====
-- Which sources the loops of internal/collector/scheduler.go leave alone.
use fin_guard.Prelude.{
  ℕ, ◌+◌, String, some, List, [], ◌∷◌, ◌≡◌, refl, ◌∙◌, sym, ap, subst, inl, inr, Bool, true, false,
  Bool-cases, ◌&&◌, ◌==◌, if◌then◌else◌, Result, ok, err, io, arith, eq_iff, first,
  first-update_other, All, All-update, All-select, All-sort,
}
use fin_guard.Models.{Time, CostSource, Project}
use fin_guard.Store.Db.{Db, Env}
use fin_guard.Store.Projects.{list_projects}
use fin_guard.Store.Sources.{get_cost_source, list_cost_sources, update_cost_source_collected_at}
use fin_guard.Collector.Registry.{get}
use fin_guard.Collector.Scheduler.{
  Round, Scheduler, complete, collect_source, collect_sources, with_sources, collect_for_project,
  collect_projects, with_projects, collect_all, collect_by_types, has_type,
}
use fin_guard.Collector.Scheduler.Windows.{with_collector-Marks}

-- A source of this id is not wanted.
abbrev pub Skipped : (CostSource → Bool) → String → CostSource → Type 0
Skipped wanted k source = (source.id == k && wanted source) ≡ false

-- The loop wants no source that `allowed` refuses, and `allowed` does not depend on the times.
module _ {R : Type 0} (s : Scheduler R) (wanted allowed : CostSource → Bool)
    (among : (x : CostSource) → wanted x ≡ true → allowed x ≡ true)
    (timeless : (x : CostSource) (t : Time) (n : Time)
      → allowed (record x { last_collected_at = some t; updated_at = n }) ≡ allowed x)
    (k : String) where
  -- The source of the id is the one there was, and is still not wanted.
  abbrev pub Kept : Db R → Db R → Type 0
  Kept db after =
      (first (λ x. x.id == k) after.cost_sources ≡ first (λ x. x.id == k) db.cost_sources)
      × All (Skipped allowed k) after.cost_sources

  complete-Kept :
      (r : Round) (source : CostSource) (count : ℕ) (db : Db R)
      → (source.id == k) ≡ false
      → All (Skipped allowed k) db.cost_sources
      → Kept db (complete s r source count db).0
  unfolding complete update_cost_source_collected_at
  complete-Kept r source count db other h = elim (Bool-cases r.marking.fault) [
    | inl e ↦ rw e (refl, h)
    | inr e ↦ rw e (
      first-update_other (λ x. x.id == k) (λ x. x.id == source.id)
          (λ x. record x { last_collected_at = some r.stamp; updated_at = r.marking.now })
          (λ x same. ground (arith, other, same, eq_iff x.id source.id))
          (λ x same. ground (arith, other, same, eq_iff x.id source.id)) db.cost_sources,
      All-update (Skipped allowed k) (Skipped allowed k) (λ x. x.id == source.id)
          (λ x. record x { last_collected_at = some r.stamp; updated_at = r.marking.now })
          (λ x same p. ap (λ b. x.id == k && b) (timeless x r.stamp r.marking.now) ∙ p)
          (λ x same p. p) db.cost_sources h,
    )
  ]

  -- A round for a source that is wanted.
  collect_source-Kept :
      (r : Round) (source : CostSource) (db : Db R)
      → (source.id == k) ≡ false
      → All (Skipped allowed k) db.cost_sources
      → Kept db (collect_source s r source db).0
  unfolding collect_source
  collect_source-Kept r source db other h =
      elim (with_collector-Marks s r source (get source.type s.registry) db) [
        | inl same ↦ rw same (refl, h)
        | inr (count, db', same, e) ↦
            let (found, kept) =
              complete-Kept r source count db' other
                (subst (All (Skipped allowed k)) (sym same) h) in
            rw e (found ∙ ap (first (λ x. x.id == k)) same, kept)
      ]

  one-Kept :
      (r : Round) (source : CostSource) (db : Db R)
      → Skipped allowed k source
      → All (Skipped allowed k) db.cost_sources
      → Kept db (if wanted source then collect_source s r source db else (db, [])).0
  one-Kept r source db p h = elim (Bool-cases (wanted source)) [
    | inl e ↦ rw e (collect_source-Kept r source db (ground (arith, e, p, among source e)) h)
    | inr e ↦ rw e (refl, h)
  ]

  collect_sources-Kept :
      (rounds : ℕ → Round) (n : ℕ) (sources : List CostSource) (db : Db R)
      → All (Skipped allowed k) sources
      → All (Skipped allowed k) db.cost_sources
      → Kept db (collect_sources s wanted rounds n sources db).0
  unfolding collect_sources
  collect_sources-Kept rounds n [] db ps h = (refl, h)
  collect_sources-Kept rounds n (source ∷ sources) db (p, ps) h =
      let (found, kept) = one-Kept (rounds n) source db p h in
      let (found', kept') = collect_sources-Kept rounds (n + 1) sources _ ps kept in
      (found' ∙ found, kept')

  with_sources-Kept :
      (rounds : ℕ → Round) (e : Env) (id : String) (db : Db R)
      → All (Skipped allowed k) db.cost_sources
      → Kept db (with_sources s wanted rounds (list_cost_sources e id db) db).0
  unfolding list_cost_sources
  with_sources-Kept rounds e id db h = elim (Bool-cases e.fault) [
    | inl f ↦ rw f (refl, h)
    | inr f ↦ rw f (
        collect_sources-Kept rounds 0 _ db
          (All-sort (Skipped allowed k) (λ x y. e.collate x.name y.name) _
            (All-select (Skipped allowed k) (Skipped allowed k) (λ x. x.project_id == id)
              (λ x q p. p) db.cost_sources h))
          h)
  ]

  collect_projects-Kept :
      (listing : ℕ → Env) (rounds : ℕ → ℕ → Round) (n : ℕ) (ps : List Project) (db : Db R)
      → All (Skipped allowed k) db.cost_sources
      → Kept db (collect_projects s wanted listing rounds n ps db).0
  unfolding collect_projects collect_for_project
  collect_projects-Kept listing rounds n [] db h = (refl, h)
  collect_projects-Kept listing rounds n (p ∷ ps) db h =
      let (found, kept) = with_sources-Kept (rounds n) (listing n) p.id db h in
      let (found', kept') = collect_projects-Kept listing rounds (n + 1) ps _ kept in
      (found' ∙ found, kept')

  pub with_projects-Kept :
      (listing : ℕ → Env) (rounds : ℕ → ℕ → Round) (ps : Result (List Project)) (db : Db R)
      → All (Skipped allowed k) db.cost_sources
      → Kept db (with_projects s wanted listing rounds ps db).0
  with_projects-Kept listing rounds (err f) db h = (refl, h)
  with_projects-Kept listing rounds (ok ps) db h = collect_projects-Kept listing rounds 0 ps db h

-- The look-up of a source reads its first row.
pub found_again :
    {R : Type 0} (later : Env) (k : String) (db after : Db R)
    → first (λ x. x.id == k) after.cost_sources ≡ first (λ x. x.id == k) db.cost_sources
    → get_cost_source later k after ≡ get_cost_source later k db
unfolding get_cost_source
found_again later k db after found = ap (λ x. if later.fault then err io else ok x) found

module _ {R : Type 0} (s : Scheduler R) where
  -- A full collection leaves the row of a source that is not enabled as it was, and a collection by types
  -- that of one that is not enabled or of another type, whatever the collectors return for the others and
  -- whichever calls of the store fail: a look-up by its id finds what it found before.
  pub collect_all_skips :
      (types : List String) (k l : String) (e later : Env) (listing : ℕ → Env)
      (rounds : ℕ → ℕ → Round) (db : Db R)
      → All (Skipped (λ source. source.enabled) k) db.cost_sources
      → All (Skipped (has_type types) l) db.cost_sources
      → (get_cost_source later k (collect_all s e listing rounds db).0 ≡ get_cost_source later k db)
        × (get_cost_source later l (collect_by_types s types e listing rounds db).0
            ≡ get_cost_source later l db)
  unfolding collect_all collect_by_types
  collect_all_skips types k l e later listing rounds db off untyped =
      let (all, _) =
        with_projects-Kept s (λ source. source.enabled) (λ source. source.enabled) (λ x w. w)
          (λ x t n. refl) k listing rounds (list_projects e db) db off in
      let (some_types, _) =
        with_projects-Kept s (has_type types) (has_type types) (λ x w. w) (λ x t n. refl) l listing
          rounds (list_projects e db) db untyped in
      (found_again later k db _ all, found_again later l db _ some_types)
