-- ===== src/Store/Keys.antt =====
-- The PRIMARY KEY and UNIQUE constraints of migrations/000001_init.up.sql.
pub mod Calls
use fin_guard.Prelude.{
  String, Option, List, [], ◌∷◌, ◌++◌, ◌≡◌, refl, sym, subst, ◌∙◌, inl, inr, Bool, true, false, not,
  ◌&&◌, ◌||◌, ◌==◌, arith, eq_iff, ok, All, any, select, delete, update, Unique, Unique-append,
  Unique-select, Unique-update, Bool-cases, if◌then◌else◌,
}
use fin_guard.Models.{Project, CostSource, ProjectRole, Budget, CostRecord}
use fin_guard.Store.Db.{Db, Env, empty}
use fin_guard.Store.Projects
use fin_guard.Store.Users
use fin_guard.Store.Groups
use fin_guard.Store.Groups.{same_member}
use fin_guard.Store.Roles.{same_key}

-- No two rows of a table agree on a key of it, table by table.
abbrev pub HasKeys : {R : Type 0} → Db R → Type 0
HasKeys db =
    Unique Projects.clash db.projects
    × Unique (λ s t. s.id == t.id) db.cost_sources
    × Unique Users.clash db.users
    × Unique Groups.clash db.groups
    × Unique same_member db.group_members
    × Unique same_key db.project_roles
    × Unique (λ b c. b.id == c.id) db.budgets
    × Unique (λ r q. r.id == q.id) db.cost_records

-- An update that finds no row changes none.
pub update_none {ℓ} :
    {A : Type ℓ} (p : A → Bool) (f : A → A) (xs : List A) → any p xs ≡ false → update p f xs ≡ xs
unfolding any update
update_none p f [] h = refl
update_none p f (x ∷ xs) h = ground (arith, update_none p f xs)

-- The rows of which `any` finds none, one by one.
pub All-any-false {ℓ} :
    {A : Type ℓ} (p : A → Bool) (xs : List A) → any p xs ≡ false → All (λ x. p x ≡ false) xs
unfolding any
All-any-false p [] h = tt
All-any-false p (x ∷ xs) h = (ground arith, All-any-false p xs (ground arith))

any-update-false :
    {A : Type 0} (N : A → Type 0) (c c' q : A → Bool) (f : A → A)
    → ((y : A) → N y → c y ≡ false → c' (if q y then f y else y) ≡ false)
    → (xs : List A) → All N xs
    → any c xs ≡ false
    → any c' (update q f xs) ≡ false
unfolding any update
any-update-false N c c' q f k [] n h = refl
any-update-false N c c' q f k (x ∷ xs) (m, n) h =
    ground (arith, k x m, any-update-false N c c' q f k xs n)

module _ (id name : String) (f : Project → Project) (same_id : (p : Project) → (f p).id ≡ p.id)
    (new_name : (p : Project) → (f p).name ≡ name) where
  abbrev pub Free : Project → Type 0
  Free p = (not (p.id == id) && p.name == name) ≡ false

  renamed_head :
      (x y : Project)
      → (x.id == id) ≡ true
      → Free y
      → Projects.clash x y ≡ false
      → Projects.clash (f x) (if y.id == id then f y else y) ≡ false
  renamed_head x y q n h = ground (
    arith,
    same_id x,
    new_name x,
    eq_iff x.id id,
    eq_iff y.id id,
    eq_iff x.id y.id,
    eq_iff y.name name,
    eq_iff name y.name,
  )

  renamed_tail :
      (x y : Project)
      → (x.id == id) ≡ false
      → Free x
      → Free y
      → Projects.clash x y ≡ false
      → Projects.clash x (if y.id == id then f y else y) ≡ false
  renamed_tail x y q m n h = ground (
    arith,
    same_id y,
    new_name y,
    eq_iff x.id id,
    eq_iff y.id id,
    eq_iff x.id y.id,
    eq_iff x.name name,
  )

  -- Renaming one project to a free name keeps the keys.
  pub Unique-rename :
      (xs : List Project)
      → All Free xs
      → Unique Projects.clash xs
      → Unique Projects.clash (update (λ p. p.id == id) f xs)
  unfolding update
  Unique-rename [] n u = tt
  Unique-rename (x ∷ xs) (m, n) (h, u) = elim (Bool-cases (x.id == id)) [
    | inl q ↦ rw q (
      any-update-false Free (Projects.clash x) _ _ f (λ y k. renamed_head x y q k) xs n h,
      Unique-rename xs n u,
    )
    | inr q ↦ rw q (
      any-update-false Free (Projects.clash x) _ _ f (λ y k. renamed_tail x y q m k) xs n h,
      Unique-rename xs n u,
    )
  ]
