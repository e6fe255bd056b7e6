-- ===== src/Server/Reply.antt =====
-- `writeJSON` of internal/server/server.go: the status and the value that is rendered.
use fin_guard.Prelude.{ℕ, String, List}
use fin_guard.Models.{Project, CostSource, ProjectRole}
use fin_guard.Store.Db.{Db}
use fin_guard.Store.Costs.{CostSummary}

pub data Body (R : Type 0) : Type 0 where
  -- {"error": text}
  error_body : String → Body R
  -- {"status": text}
  status_body : String → Body R
  project_body : Project → Body R
  projects_body : List Project → Body R
  source_body : CostSource → Body R
  sources_body : List CostSource → Body R
  member_body : ProjectRole → Body R
  members_body : List ProjectRole → Body R
  summary_body : CostSummary R → Body R

pub record Reply (R : Type 0) : Type 0 where
  pub status : ℕ
  pub body : Body R

abbrev pub reply : {R : Type 0} → ℕ → Body R → Reply R
reply status body = record { status = status; body = body }

abbrev pub Handler : Type 0 → Type 0
Handler R = Db R → Reply R × Db R
