-- ===== src/Envelope.antt =====
-- hugegraph-mcp/hugegraph_mcp/envelope.py, as far as callers of the write protocol depend on it: the
-- kinds of errors, and a reply that is a success with data or a failure with a kind and details.
-- Redaction, request ids and messages are not modelled.

pub data ErrorType : Type 0 where
  connection_failed authentication_failed authorization_failed validation_error : ErrorType
  readonly_violation confirm_required plan_hash_mismatch plan_expired : ErrorType
  plan_already_used target_changed write_conflict write_outcome_unknown : ErrorType
  partial_apply not_found no_index unsafe_gremlin query_syntax_error server_error : ErrorType
  schema_mismatch invalid_graph_data hugegraph_ai_unavailable feature_disabled : ErrorType
  flow_execution_failed llm_failed embedding_failed timeout : ErrorType

-- `envelope_ok(data)` and `envelope_err(type, …, details=details)`
pub data Reply {ℓ} (A D : Type ℓ) : Type ℓ where
  envelope_ok : A → Reply A D
  envelope_err : ErrorType → D → Reply A D
