-- ===== src/WritePlan/Encoding.antt =====
-- `to_dict` of the records of write_plan.py, and the texts of the statuses. `sort` lists the items of
-- a thawed set.
use incubator_hugegraph_ai.Prelude.{ℕ, String, Option, none, some, List, [], ◌∷◌}
use incubator_hugegraph_ai.WritePlan.Status.{PlanStatus, to_plan_status}
use incubator_hugegraph_ai.WritePlan.Value.{
  Value, Values, Fields, none_value, bool, int, str, list, mapping, pos, nil, cons, end, field,
  thaw_mapping,
}
use incubator_hugegraph_ai.WritePlan.Plan.{GraphTarget, OperationPlan, WritePlan, ApplyReceipt}

-- `status.value` of a plan status
abbrev pub status_text : PlanStatus → String
status_text PlanStatus.issued = "ISSUED"
status_text PlanStatus.executing = "EXECUTING"
status_text PlanStatus.applied = "APPLIED"
status_text PlanStatus.already_applied = "ALREADY_APPLIED"
status_text PlanStatus.rejected = "REJECTED"
status_text PlanStatus.conflict = "CONFLICT"
status_text PlanStatus.partial = "PARTIAL"
status_text PlanStatus.unknown = "UNKNOWN"
status_text PlanStatus.legacy_unknown = "LEGACY_UNKNOWN"
status_text PlanStatus.retryable_not_applied = "RETRYABLE_NOT_APPLIED"
status_text PlanStatus.expired = "EXPIRED"

abbrev pub optional_str : Option String → Value
optional_str none = none_value
optional_str (some s) = str s

abbrev pub optional_int : Option ℕ → Value
optional_int none = none_value
optional_int (some n) = int (pos n)

abbrev pub texts : List String → Values
texts [] = nil
texts (s ∷ ss) = cons (str s) (texts ss)

-- `GraphTarget.to_dict`
unfoldable pub target_to_dict : GraphTarget → Fields
target_to_dict t =
    field "graph_url" (str t.graph_url)
      (field "graph_name" (str t.graph_name) (field "graphspace" (optional_str t.graphspace) end))

module _ (sort : Values → Values) where
  -- `OperationPlan.to_dict`
  unfoldable pub operation_to_dict : OperationPlan → Fields
  operation_to_dict o = field "operation_id" (str o.operation_id) (
      field "kind" (str o.kind) (
        field "target" (mapping (thaw_mapping sort o.target)) (
          field "expected_state" (mapping (thaw_mapping sort o.expected_state)) (
            field "desired_state" (mapping (thaw_mapping sort o.desired_state)) (
              field "depends_on" (list (texts o.depends_on))
                (field "idempotency_key" (optional_str o.idempotency_key) end))))))

  abbrev operations_to_dict : List OperationPlan → Values
  operations_to_dict [] = nil
  operations_to_dict (o ∷ os) = cons (mapping (operation_to_dict o)) (operations_to_dict os)

  -- `WritePlan.to_dict`
  unfoldable pub plan_to_dict : WritePlan → Fields
  plan_to_dict p = field "plan_id" (str p.plan_id) (
      field "tool_name" (str p.tool_name) (
        field "graph_target" (mapping (target_to_dict p.graph_target)) (
          field "principal" (str p.principal) (
            field "operations" (list (operations_to_dict p.operations)) (
              field "payload_digest" (str p.payload_digest) (
                field "schema_fingerprint" (optional_str p.schema_fingerprint) (
                  field "status" (str (status_text p.status)) (
                    field "created_at" (int (pos p.created_at))
                      (field "expires_at" (int (pos p.expires_at)) end)))))))))

  abbrev optional_state : Option Fields → Value
  optional_state none = none_value
  optional_state (some fs) = mapping (thaw_mapping sort fs)

  abbrev token_entry : Option String → Fields
  token_entry none = end
  token_entry (some t) = field "attempt_token" (str t) end

  abbrev canonical_receipt : ApplyReceipt → Fields
  canonical_receipt r = field "plan_id" (optional_str r.plan_id) (
      field "operation_id" (optional_str r.operation_id) (
        field "status" (str (status_text (to_plan_status r.status))) (
          field "observed_state" (optional_state r.observed_state) (
            field "reason_code" (optional_str r.reason_code) (
              field "attempt" (int (pos r.attempt)) (
                field "reconciliation_required" (bool r.reconciliation_required) (
                  field "committed_at" (optional_int r.committed_at)
                    (token_entry r.attempt_token))))))))

  abbrev legacy_receipt : ApplyReceipt → Fields
  legacy_receipt r = field "status" (str (status_text (to_plan_status r.status))) (
      field "operation" (optional_state r.operation) (
        field "observed_state" (optional_state r.observed_state) (
          field "reason" (optional_str r.reason)
            (field "reconciliation_required" (bool r.reconciliation_required) end))))

  abbrev receipt_shape : Option String → Option String → ApplyReceipt → Fields
  receipt_shape none none r = legacy_receipt r
  receipt_shape _ _ r = canonical_receipt r

  -- `ApplyReceipt.to_dict`
  unfoldable pub receipt_to_dict : ApplyReceipt → Fields
  unfolding to_plan_status
  receipt_to_dict r = receipt_shape r.plan_id r.operation_id r
