-- ===== src/PlanStore.antt =====
-- hugegraph-mcp/hugegraph_mcp/plan_store.py: the durable store of write plans and their operations.
pub mod Rows
pub mod Legacy
pub mod Plans
pub mod Claims
pub mod Receipts
pub mod Reconciliation
pub mod Prepared
pub mod Leases
pub mod Fencing
pub mod Moves
pub mod ClaimMoves
pub mod ReceiptMoves
pub mod Refinement
pub mod Accepted
pub mod Attempts
pub mod Stale
pub mod AlreadyApplied
pub mod Fenced
