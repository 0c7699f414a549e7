-- ===== src/Tests.antt =====
-- Concrete catalogs, requests, filters and rows, and the results at them.
pub mod Catalogs
pub mod Requests
pub mod Filters
pub mod Joins
pub mod Runtimes
pub mod Plans
pub mod Costs
pub mod Assemblies
