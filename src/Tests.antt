-- ===== src/Tests.antt =====
-- Runs of the theorems on concrete plans, confirmations and stores.
pub mod Plans
pub mod Confirmations
pub mod Data
pub mod Stores
pub mod Executions
mod Gremlin
mod Queries
mod Lifecycles
mod Validation
