-- ===== src/Execution.antt =====
-- src/yodb/execution: what the coordinator does with the rows that sources return.
pub mod Rows
pub mod Scans
pub mod Assembly
pub mod Operators
pub mod Join
