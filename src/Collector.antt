-- ===== src/Collector.antt =====
-- internal/collector: the registry of collectors and the scheduler that runs them.
pub mod Registry
pub mod Scheduler
pub mod Cloud
