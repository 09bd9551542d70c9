-- ===== src/GraphDataValidate.antt =====
-- hugegraph-mcp/hugegraph_mcp/tools/graph_data_validate.py: the check of a graph change plan
-- against the schema of the graph.
pub mod Schema
pub mod Checks
pub mod Operations
pub mod Builders
pub mod Buildable
