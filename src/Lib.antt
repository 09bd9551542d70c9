-- ===== src/Lib.antt =====
-- The safety core of hugegraph-mcp. Every change of a graph is planned, confirmed, executed and,
-- where its outcome is unknown, reconciled; the changes of graph data are checked against the
-- schema and turned into Gremlin queries; and a Gremlin query runs as a read only where a policy
-- finds it to be one.
--
-- A dry run saves a plan in the plan store, or issues a confirmation in the ledger of the older
-- protocol. Confirming elects one executor, which leases the plan, claims its operations one after
-- the other, sends a request for each and records the receipt. A plan whose executor was lost is
-- fenced and decided by reading the graph, and what was never sent may be resumed.
--
-- Files and code, all under hugegraph-mcp/hugegraph_mcp/:
--   WritePlan/*: write_plan.py. Status has the enumerations and ALLOWED_PLAN_TRANSITIONS, Value has
--     _freeze and _thaw on JSON-like values, Plan the dataclasses with __post_init__, Aggregate has
--     aggregate_plan_status, Encoding has the to_dict methods.
--   PlanStore/*: plan_store.py. Rows has the tables, Legacy has prepare and the import of the older
--     database, Plans has get_plan, save_plan and transition_plan, Claims has claim_plan and
--     claim_operation, Receipts has record_receipt, Reconciliation has begin_reconcile and
--     record_reconciliation_receipt. The other modules hold what is proved of them.
--   Execution/*, WriteExecutor: write_executor.py. World is the state of a run, Registry the two
--     registries, Status the status query; WriteExecutor has confirm and resume.
--   Reconciler: reconciler.py.
--   ConfirmationStore: confirmation_store.py. PlanHash: plan_hash.py. ConfirmableWorkflow:
--     confirmable_workflow.py. WriteContract: write_contract.py. Guard: guard.py and the predicates
--     of config.py. Envelope: the kinds of errors of envelope.py.
--   GremlinPolicy/*: gremlin_policy.py. Lexer has the scanner, Adjacency the check of adjacent
--     tokens, Analysis _analyze_tokens, Decision the classification and check_read. Scanning, Tokens,
--     Reads, Writes and EmptyMap hold what is proved of them.
--   GraphDataGremlin/*: tools/graph_data_gremlin.py, whose queries the dry run and the write path
--     send. Literal has _g, Queries the builders; the other modules hold what is proved of them and
--     of their classification by gremlin_policy.py.
--   PropertyValidation: tools/property_validation.py. GraphDataValidate/*:
--     tools/graph_data_validate.py. Schema has the helpers that read the schema, Checks the
--     validation helpers, Operations validate_graph_change_plan, Buildable what is proved of it.
--   Prelude/*: tests, lists, tables and exceptions as values. Tests/*: runs on concrete data.
--
-- State and operations: a method of a store is a function from the clock reading, the arguments and
-- the tables to a result or exception and the tables that it leaves, the commit or rollback of its
-- transaction included. An action of the executor also carries the readings of the clock, the
-- tokens drawn and the requests sent. A method that reads the clock is charged one reading, also
-- where it raises before it comes to it; get_plan and get_plan_record read none. Since a transaction is one function, concurrent processes
-- are sequences of such calls in any order.
--
-- Bounds: loops are structural recursion over a list or a value, but two. The scanner's loop has
-- as much fuel as the query has characters, each round takes one at least, and the fuel is proved
-- to be enough. The loop that writes the decimal digits of a number has more fuel than the number.
-- Times and attempts are natural numbers, and Python's integers have no bound.
--
-- Texts that the scanner reads are lists of code points, elsewhere they are the native texts.
--
-- Parameters: json.loads, SHA-256, the order in which a frozen set is listed, the clock, fresh
-- tokens, write adapters, reconciliation readers, the parsers of UUIDs, dates, hexadecimal texts and
-- base64, json.dumps of an identity and the normalised property specifications of a schema are
-- arguments of the definitions.
--
-- Not modelled: failures of the disk and file modes, the JSON text of a column (a column holds the
-- value that is serialised), messages of envelopes and their redaction, the values that the
-- messages of exceptions quote, the parsing of the environment, the cost warnings of queries, and
-- the HTTP calls that adapters make. Floats do not occur among the modelled values. The rest of
-- the repository (hugegraph-llm, hugegraph-ml and the two REST clients) is outside this development.
pub mod Prelude
pub mod WritePlan
pub mod ConfirmationStore
pub mod PlanStore
pub mod Envelope
pub mod Execution
pub mod WriteExecutor
pub mod Reconciler
pub mod Guard
pub mod WriteContract
pub mod PlanHash
pub mod ConfirmableWorkflow
pub mod GremlinPolicy
pub mod GraphDataGremlin
pub mod PropertyValidation
pub mod GraphDataValidate
pub mod Tests
