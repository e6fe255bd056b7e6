-- ===== src/Server.antt =====
-- internal/server/projects.go: the handlers of the project routes. A handler maps a request and the
-- tables to a reply and the tables after it. The body is what json.Decode made of it, `none` where it
-- failed. Each call of the store has an `Env` of its own.
pub mod Reply
pub mod Projects
pub mod Sources
pub mod Members
pub mod Request
pub mod Status
pub mod Api
pub mod Connection
