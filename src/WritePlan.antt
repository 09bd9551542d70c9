-- ===== src/WritePlan.antt =====
-- hugegraph-mcp/hugegraph_mcp/write_plan.py: statuses, immutable plans, receipts, aggregation.
pub mod Status
pub mod Value
pub mod Freezing
pub mod Lifecycle
pub mod Aggregate
pub mod Plan
pub mod Construction
pub mod Encoding
