-- ===== src/Store.antt =====
-- internal/store: the relational store.
pub mod Db
pub mod Projects
pub mod Sources
pub mod Users
pub mod Groups
pub mod Roles
pub mod Budgets
pub mod CostQuery
pub mod Costs
pub mod Call
pub mod Atomic
pub mod Effects
pub mod References
pub mod Keys
pub mod Deletion
pub mod RoundTrip
pub mod Rebind
pub mod Migrate
pub mod Open
