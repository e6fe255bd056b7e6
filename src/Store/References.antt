-- ===== src/Store/References.antt =====
-- Referential integrity: the REFERENCES constraints of migrations/000001_init.up.sql over the calls of
-- the store.
pub mod Defs
mod Writes
mod Deletes
pub mod Calls
pub use Defs.{HasReferences, Refs}
