-- ===== src/Store/Deletion.antt =====
-- What the deletion of a project leaves.
use fin_guard.Prelude.{
  String, none, inl, inr, List, ◌≡◌, ◌≢◌, refl, sym, Bool, true, false, ◌==◌, arith, eq_iff, ok,
  any, delete, select-delete_other, first-delete_other, any-select_none, subst, ◌∙◌, any-update,
}
use fin_guard.Store.Db.{Db, Env}
use fin_guard.Models.{Budget}
use fin_guard.Store.Projects.{unlink, delete_project, cascade_project, get_project}
use fin_guard.Store.Effects.{delete_project_effect}
use fin_guard.Store.Sources.{list_cost_sources}
use fin_guard.Store.Roles.{list_project_roles}

-- No row of any table is the project's.
pub record IsGone {R : Type 0} (id : String) (db : Db R) : Type 0 where
  pub project : any (λ p. p.id == id) db.projects ≡ false
  pub sources : any (λ s. s.project_id == id) db.cost_sources ≡ false
  pub roles : any (λ r. r.project_id == id) db.project_roles ≡ false
  pub budgets : any (λ b. b.project_id == id) db.budgets ≡ false
  pub records : any (λ r. r.project_id == id) db.cost_records ≡ false

apart : (i j k : String) → j ≢ k → (i == j) ≡ true → (i == k) ≡ false
apart i j k n h = ground (arith, eq_iff i j, eq_iff i k)

any-unlink :
    {R : Type 0} (p : Budget R → Bool) (gone : String → Bool)
    → ((b : Budget R) → p (record b { cost_source_id = none }) ≡ p b)
    → (bs : List (Budget R)) → any p (unlink gone bs) ≡ any p bs
unfolding unlink
any-unlink p gone keeps bs = any-update p _ _ keeps bs

module _ {R : Type 0} (id : String) (db : Db R) where
  cascade_project-IsGone : IsGone id (cascade_project id db)
  unfolding cascade_project delete
  cascade_project-IsGone = record {
    project = any-select_none _ _ (λ p h. ground arith) db.projects;
    sources = any-select_none _ _ (λ s h. ground arith) db.cost_sources;
    roles = any-select_none _ _ (λ r h. ground arith) db.project_roles;
    budgets = any-unlink _ _ (λ b. refl) _ ∙ any-select_none _ _ (λ b h. ground arith) db.budgets;
    records = any-select_none _ _ (λ r h. ground arith) db.cost_records;
  }

deleted :
    {R : Type 0} (e : Env) (id : String) (db : Db R)
    → (delete_project e id db).0 ≡ ok tt
    → (delete_project e id db).1 ≡ cascade_project id db
unfolding delete_project
deleted e id db h = ground arith

-- A deletion that returns no error leaves no row of the project: not the project, nor a cost source,
-- a role, a budget or a cost record of it.
pub delete_project-IsGone :
    {R : Type 0} (e : Env) (id : String) (db : Db R)
    → (delete_project e id db).0 ≡ ok tt
    → IsGone id (delete_project e id db).1
delete_project-IsGone e id db h =
    subst (IsGone id) (sym (deleted e id db h)) (cascade_project-IsGone id db)

-- The reads of another project, before and after.
abbrev pub Unchanged : {R : Type 0} → Env → String → Db R → Db R → Type 0
Unchanged e k db db' =
    (get_project e k db' ≡ get_project e k db)
    × (list_cost_sources e k db' ≡ list_cost_sources e k db)
    × (list_project_roles e k db' ≡ list_project_roles e k db)

cascade_project_other :
    {R : Type 0} (e : Env) (id k : String) (db : Db R)
    → k ≢ id
    → Unchanged e k db (cascade_project id db)
unfolding cascade_project get_project list_cost_sources list_project_roles
cascade_project_other e id k db n = (
  rw (first-delete_other _ _ (λ p. apart p.id k id n) db.projects) refl,
  rw (select-delete_other _ _ (λ s. apart s.project_id k id n) db.cost_sources) refl,
  rw (select-delete_other _ _ (λ r. apart r.project_id k id n) db.project_roles) refl,
)

-- Of another project a deletion, which may also fail, changes neither the row nor the lists of its
-- cost sources and its roles.
pub delete_project_other :
    {R : Type 0} (e e' : Env) (id k : String) (db : Db R)
    → k ≢ id
    → Unchanged e' k db (delete_project e id db).1
delete_project_other e e' id k db n = elim (delete_project_effect e db id) [
  | inl eq ↦ subst (Unchanged e' k db) (sym eq) (refl, refl, refl)
  | inr eq ↦ subst (Unchanged e' k db) (sym eq) (cascade_project_other e' id k db n)
]
