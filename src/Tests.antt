-- ===== src/Tests.antt =====
-- Runs of the model at concrete inputs.
mod Fixtures
mod Store
mod Costs
mod Rebind
mod Migrate
mod Stream
mod Auth
mod Server
mod Collector
mod Api
mod Plugins
mod Cloud
