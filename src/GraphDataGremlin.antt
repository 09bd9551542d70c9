-- ===== src/GraphDataGremlin.antt =====
-- hugegraph-mcp/hugegraph_mcp/tools/graph_data_gremlin.py: the Gremlin queries of graph changes.
pub mod Literal
pub mod Queries
pub mod Escaping
pub mod Clean
pub mod Passing
pub mod Injection
pub mod WriteQueries
