-- ===== src/GremlinPolicy.antt =====
-- hugegraph-mcp/hugegraph_mcp/gremlin_policy.py: which Gremlin queries may run as reads.
pub mod Characters
pub mod Lexer
pub mod Adjacency
pub mod Analysis
pub mod Decision
pub mod Scanning
pub mod Tokens
pub mod Reads
pub mod Writes
pub mod EmptyMap
