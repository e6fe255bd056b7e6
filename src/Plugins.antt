-- ===== src/Plugins.antt =====
-- pkg/plugin/plugin.go: what a plugin says of itself and what passes between it and the manager. The
-- time of an event is left out.
pub mod Channel
pub mod Budgets
pub mod CostBreakdown
pub mod Routes
pub mod Manager
use fin_guard.Prelude.{ℕ, String, List}

pub record Route : Type 0 where
  pub method : String
  pub path : String
  pub description : String

pub record Metadata : Type 0 where
  pub name : String
  pub version : String
  pub description : String
  pub type : String
  pub topics : List String
  pub routes : List Route

pub record InitRequest : Type 0 where
  pub config : String
  pub open_cost_url : String

pub record ExecuteRequest : Type 0 where
  pub action : String
  pub params : List (String × String)

pub record ExecuteResponse : Type 0 where
  pub body : String
  pub content_type : String
  pub status_code : ℕ
  pub error : String

pub record PluginEvent : Type 0 where
  pub type : String
  pub topic : String
  pub source : String
  pub payload : String
