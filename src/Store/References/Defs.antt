-- ===== src/Store/References/Defs.antt =====
-- The REFERENCES constraints of migrations/000001_init.up.sql, over tests that tell which ids the
-- referenced tables hold.
use fin_guard.Prelude.{
  String, Option, some, none, List, ◌≡◌, Bool, true, All, All-mono, any, refl, ◌==◌,
}
use fin_guard.Models.{CostSource, ProjectRole, Budget, CostRecord}
use fin_guard.Store.Db.{Db, GroupMember}

abbrev pub Test : Type 0
Test = String → Bool

-- A reference that is NULL refers to nothing.
abbrev pub null_or : Test → Option String → Bool
null_or S none = true
null_or S (some id) = S id

-- Projects, cost sources, groups and users by id.
pub record Refs {R : Type 0} (P S G U : Test) (cost_sources : List CostSource)
    (group_members : List GroupMember) (project_roles : List ProjectRole)
    (budgets : List (Budget R)) (cost_records : List (CostRecord R)) : Type 0 where
  pub sources : All (λ s. P s.project_id ≡ true) cost_sources
  pub members_group : All (λ m. G m.group_id ≡ true) group_members
  pub members_user : All (λ m. U m.user_id ≡ true) group_members
  pub roles : All (λ r. P r.project_id ≡ true) project_roles
  pub budgets_project : All (λ b. P b.project_id ≡ true) budgets
  pub budgets_source : All (λ b. null_or S b.cost_source_id ≡ true) budgets
  pub records_project : All (λ r. P r.project_id ≡ true) cost_records
  pub records_source : All (λ r. S r.cost_source_id ≡ true) cost_records

abbrev pub Implies : Test → Test → Type 0
Implies P Q = (id : String) → P id ≡ true → Q id ≡ true

null_or_mono :
    (S S' : Test) → Implies S S' → (o : Option String) → null_or S o ≡ true → null_or S' o ≡ true
null_or_mono S S' f none h = refl
null_or_mono S S' f (some id) h = f id h

-- The constraints hold on while the referenced tables grow.
pub Refs-mono :
    {R : Type 0} (P P' S S' G G' U U' : Test) (sources : List CostSource)
    (members : List GroupMember) (roles : List ProjectRole) (budgets : List (Budget R))
    (records : List (CostRecord R))
    → Implies P P'
    → Implies S S'
    → Implies G G'
    → Implies U U'
    → Refs P S G U sources members roles budgets records
    → Refs P' S' G' U' sources members roles budgets records
Refs-mono P P' S S' G G' U U' sources members roles budgets records p s g u h = record {
  sources = All-mono _ _ (λ x. p x.project_id) sources h.sources;
  members_group = All-mono _ _ (λ m. g m.group_id) members h.members_group;
  members_user = All-mono _ _ (λ m. u m.user_id) members h.members_user;
  roles = All-mono _ _ (λ r. p r.project_id) roles h.roles;
  budgets_project = All-mono _ _ (λ b. p b.project_id) budgets h.budgets_project;
  budgets_source =
      All-mono _ _ (λ b. null_or_mono S S' s b.cost_source_id) budgets h.budgets_source;
  records_project = All-mono _ _ (λ r. p r.project_id) records h.records_project;
  records_source = All-mono _ _ (λ r. s r.cost_source_id) records h.records_source;
}

abbrev pub project_ids : {R : Type 0} → Db R → Test
project_ids db id = any (λ p. p.id == id) db.projects

abbrev pub source_ids : {R : Type 0} → Db R → Test
source_ids db id = any (λ s. s.id == id) db.cost_sources

abbrev pub group_ids : {R : Type 0} → Db R → Test
group_ids db id = any (λ g. g.id == id) db.groups

abbrev pub user_ids : {R : Type 0} → Db R → Test
user_ids db id = any (λ u. u.id == id) db.users

-- Every reference of the tables names a row.
abbrev pub HasReferences : {R : Type 0} → Db R → Type 0
HasReferences db =
    Refs (project_ids db) (source_ids db) (group_ids db) (user_ids db) db.cost_sources
      db.group_members db.project_roles db.budgets db.cost_records

-- The constraints with one of the referring tables given anew.
pub Refs-sources :
    {R : Type 0} {P S G U : Test} {cs : List CostSource} {ms : List GroupMember}
    {rs : List ProjectRole} {bs : List (Budget R)} {xs : List (CostRecord R)} (ts : List CostSource)
    → Refs P S G U cs ms rs bs xs
    → All (λ s. P s.project_id ≡ true) ts
    → Refs P S G U ts ms rs bs xs
Refs-sources ts h a = record {
  sources = a;
  members_group = h.members_group;
  members_user = h.members_user;
  roles = h.roles;
  budgets_project = h.budgets_project;
  budgets_source = h.budgets_source;
  records_project = h.records_project;
  records_source = h.records_source;
}

pub Refs-members :
    {R : Type 0} {P S G U : Test} {cs : List CostSource} {ms : List GroupMember}
    {rs : List ProjectRole} {bs : List (Budget R)} {xs : List (CostRecord R)}
    (ts : List GroupMember)
    → Refs P S G U cs ms rs bs xs
    → All (λ m. G m.group_id ≡ true) ts
    → All (λ m. U m.user_id ≡ true) ts
    → Refs P S G U cs ts rs bs xs
Refs-members ts h a b = record {
  sources = h.sources;
  members_group = a;
  members_user = b;
  roles = h.roles;
  budgets_project = h.budgets_project;
  budgets_source = h.budgets_source;
  records_project = h.records_project;
  records_source = h.records_source;
}

pub Refs-roles :
    {R : Type 0} {P S G U : Test} {cs : List CostSource} {ms : List GroupMember}
    {rs : List ProjectRole} {bs : List (Budget R)} {xs : List (CostRecord R)}
    (ts : List ProjectRole)
    → Refs P S G U cs ms rs bs xs
    → All (λ r. P r.project_id ≡ true) ts
    → Refs P S G U cs ms ts bs xs
Refs-roles ts h a = record {
  sources = h.sources;
  members_group = h.members_group;
  members_user = h.members_user;
  roles = a;
  budgets_project = h.budgets_project;
  budgets_source = h.budgets_source;
  records_project = h.records_project;
  records_source = h.records_source;
}

pub Refs-budgets :
    {R : Type 0} {P S G U : Test} {cs : List CostSource} {ms : List GroupMember}
    {rs : List ProjectRole} {bs : List (Budget R)} {xs : List (CostRecord R)} (ts : List (Budget R))
    → Refs P S G U cs ms rs bs xs
    → All (λ b. P b.project_id ≡ true) ts
    → All (λ b. null_or S b.cost_source_id ≡ true) ts
    → Refs P S G U cs ms rs ts xs
Refs-budgets ts h a b = record {
  sources = h.sources;
  members_group = h.members_group;
  members_user = h.members_user;
  roles = h.roles;
  budgets_project = a;
  budgets_source = b;
  records_project = h.records_project;
  records_source = h.records_source;
}

pub Refs-records :
    {R : Type 0} {P S G U : Test} {cs : List CostSource} {ms : List GroupMember}
    {rs : List ProjectRole} {bs : List (Budget R)} {xs : List (CostRecord R)}
    (ts : List (CostRecord R))
    → Refs P S G U cs ms rs bs xs
    → All (λ r. P r.project_id ≡ true) ts
    → All (λ r. S r.cost_source_id ≡ true) ts
    → Refs P S G U cs ms rs bs ts
Refs-records ts h a b = record {
  sources = h.sources;
  members_group = h.members_group;
  members_user = h.members_user;
  roles = h.roles;
  budgets_project = h.budgets_project;
  budgets_source = h.budgets_source;
  records_project = a;
  records_source = b;
}
