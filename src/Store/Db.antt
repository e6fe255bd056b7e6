-- ===== src/Store/Db.antt =====
-- The tables of migrations/000001_init.up.sql, and the shape of a call of the store
-- (internal/store/sql.go). A statement runs whole or not at all; the engine, the clock and the uuid
-- package enter as the call's `Env`.
use fin_guard.Prelude.{String, Option, List, [], Bool, ◌==◌, if◌then◌else◌}
use fin_guard.Prelude.{Result, err, Error, io, any}
use fin_guard.Models.{Time, Project, CostSource, ProjectRole, Budget, CostRecord}

-- A row of `users`: the subject is NULL where the text is empty.
pub record UserRow : Type 0 where
  pub id : String
  pub email : String
  pub display_name : String
  pub oidc_subject : Option String
  pub created_at : Time

-- A row of `groups`: the claim is NULL where the text is empty.
pub record GroupRow : Type 0 where
  pub id : String
  pub name : String
  pub oidc_claim : Option String
  pub created_at : Time

pub record GroupMember : Type 0 where
  pub group_id : String
  pub user_id : String

pub record Db (R : Type 0) : Type 0 where
  pub projects : List Project
  pub cost_sources : List CostSource
  pub users : List UserRow
  pub groups : List GroupRow
  pub group_members : List GroupMember
  pub project_roles : List ProjectRole
  pub budgets : List (Budget R)
  pub cost_records : List (CostRecord R)

abbrev pub empty : {R : Type 0} → Db R
empty = record {
  projects = [];
  cost_sources = [];
  users = [];
  groups = [];
  group_members = [];
  project_roles = [];
  budgets = [];
  cost_records = [];
}

-- What one call meets: the driver, time.Now, the identifier that uuid.New would give, whether the
-- engine fails the statement, and the collation of ORDER BY.
pub record Env : Type 0 where
  pub driver : String
  pub now : Time
  pub fresh : String
  pub fault : Bool
  pub collate : String → String → Bool

-- A statement that writes: its result and the tables after it.
abbrev pub Exec : Type 0 → Type 0 → Type 0
Exec R A = Db R → Result A × Db R

-- A statement that reads.
abbrev pub Query : Type 0 → Type 0 → Type 0
Query R A = Db R → Result A

abbrev pub fail : {R A : Type 0} → Error → Exec R A
fail e db = (err e, db)

-- A write, unless the engine fails it.
abbrev pub write : {R A : Type 0} → Env → Exec R A → Exec R A
write e run db = if e.fault then (err io, db) else run db

-- A read, unless the engine fails it.
abbrev pub read : {R A : Type 0} → Env → Query R A → Query R A
read e run db = if e.fault then err io else run db

-- `if p.ID == "" { p.ID = newID() }`
abbrev pub given_id : Env → String → String
given_id e id = if id == "" then e.fresh else id

abbrev pub has_project : {R : Type 0} → String → Db R → Bool
has_project id db = any (λ p. p.id == id) db.projects

abbrev pub has_source : {R : Type 0} → String → Db R → Bool
has_source id db = any (λ s. s.id == id) db.cost_sources
