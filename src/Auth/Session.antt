-- ===== src/Auth/Session.antt =====
-- `SessionData` of internal/auth/auth.go, and what a middleware does with a request: hands it on, with
-- the session in its context where there is one, or answers it with a status and an error text.
use fin_guard.Prelude.{ℕ, String, List, Option}
use fin_guard.Models.{Time}

pub record SessionData : Type 0 where
  pub user_id : String
  pub email : String
  pub display_name : String
  pub groups : List String
  pub expires_at : Time

pub data Verdict : Type 0 where
  serve : Option SessionData → Verdict
  deny : ℕ → String → Verdict
