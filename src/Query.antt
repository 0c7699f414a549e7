-- ===== src/Query.antt =====
-- src/yodb/query: the logical query, from untrusted input to source-local bindings.
pub mod Models
pub mod Raw
pub mod Shape
pub mod Policy
pub mod Extensions
pub mod Fields
pub mod Semantic
pub mod Parser
pub mod Values
pub mod Validation
pub mod Resolution
