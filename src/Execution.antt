-- ===== src/Execution.antt =====
-- What the executor and the reconciler of write plans share: a registry of functions by operation
-- kind, and actions on the world around a plan store.
pub mod Registry
pub mod World
pub mod Status
pub mod Public
