-- ===== src/Tests.antt =====
-- Concrete clusters and objects on which the theorems are applied.
pub mod World
pub mod Specs
pub mod Services
pub mod Healthy
mod Objects
