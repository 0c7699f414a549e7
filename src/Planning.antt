-- ===== src/Planning.antt =====
-- src/yodb/planning: which work each source does, and which is left to the coordinator.
pub mod Expressions
pub mod Capabilities
pub mod Contracts
pub mod Adapter
pub mod Scans
pub mod Planner
pub mod Costs
pub mod Optimizer
