-- ===== src/Collector/Cloud.antt =====
-- internal/collector/aws, azure, gcp and kubernetes: the collectors, and the registry that
-- cmd/finguard/main.go fills with them. json.Unmarshal at a configuration is a parameter of each.
pub mod Rows
pub mod Aws
pub mod Azure
pub mod Gcp
pub mod Kubernetes
pub mod Wiring
pub mod Stores
pub mod Accepted
