-- ===== src/Reconciler.antt =====
-- hugegraph-mcp/hugegraph_mcp/reconciler.py: deciding unknown outcomes by reading the graph.
-- A reader is a function of the plan, the operation and the number of the reading, since the graph
-- may change in between. `startswith("DELETE_")` is the library's test of texts.
pub mod Safety
use text.Mathlib.Text.{starts_with}
use incubator_hugegraph_ai.Prelude.{
  ℕ, suc, ◌<◌, String, Bool, true, false, ◌&&◌, not, Option, none, some, List, [], ◌∷◌, str_eq, ltb,
  if◌then◌else◌, find, Error, ok, err, after,
}
use incubator_hugegraph_ai.Envelope.{ErrorType, envelope_err}
use incubator_hugegraph_ai.WritePlan.Status.{
  ApplyStatus, PlanStatus, same_status, same_apply_status, member,
}
use incubator_hugegraph_ai.WritePlan.Value.{Value, Fields, bool, mapping, value_eq, get_field}
use incubator_hugegraph_ai.WritePlan.Plan.{
  OperationPlan, WritePlan, ApplyReceipt, new_apply_receipt,
}
use incubator_hugegraph_ai.PlanStore.Rows.{OperationRow}
use incubator_hugegraph_ai.PlanStore.Plans.{PlanRecord}
use incubator_hugegraph_ai.PlanStore.Reconciliation.{begin_reconcile, record_reconciliation_receipt}
use incubator_hugegraph_ai.Execution.Registry.{Registry, function_for}
use incubator_hugegraph_ai.Execution.World.{
  World, Services, Action, pure, raise, call, query, try_transition, ◌>>=◌, ◌>>◌,
}
use incubator_hugegraph_ai.Execution.Status.{
  PlanReply, nothing, missing_operation_kind, reason_code, get_record, status,
}

abbrev pub ReconcileReader : Type 0
ReconcileReader = WritePlan → OperationPlan → ℕ → Fields

-- `observed.get("exists") is False`
abbrev pub is_false : Option Value → Bool
is_false (some (bool false)) = true
is_false _ = false

-- `reconcile_operation_state`
unfoldable pub reconcile_operation_state : String → Fields → Fields → Fields → ApplyStatus
reconcile_operation_state kind expected_state desired_state observed =
    if value_eq (mapping observed) (mapping desired_state)
    then ApplyStatus.applied
    else if value_eq (mapping observed) (mapping expected_state)
    then ApplyStatus.retryable_not_applied
    else if starts_with kind "DELETE_" && is_false (get_field "exists" observed)
    then ApplyStatus.applied
    else ApplyStatus.conflict

-- A status with its reason and whether reconciliation is still required.
pub record Verdict : Type 0 where
  pub status : ApplyStatus
  pub reason_code : String
  pub reconciliation_required : Bool

-- The verdict on an operation that a reader observed: a request that was sent may still commit, so
-- an operation that was attempted is never found safe to replay.
unfoldable pub judge : OperationPlan → ℕ → Fields → Verdict
unfolding reconcile_operation_state
judge o attempt observed =
    let found = reconcile_operation_state o.kind o.expected_state o.desired_state observed in
    if same_apply_status found ApplyStatus.retryable_not_applied && ltb 0 attempt
    then record {
      status = ApplyStatus.unknown;
      reason_code = "IN_FLIGHT_COMMIT_NOT_EXCLUDED";
      reconciliation_required = true;
    }
    else record {
      status = found;
      reason_code = "RECONCILED_CURRENT_STATE";
      reconciliation_required = false;
    }

-- the receipt for an operation that was never claimed
unfoldable pub unclaimed_receipt : String → String → ℕ → ApplyReceipt
unclaimed_receipt plan_id operation_id attempt = new_apply_receipt (record {
  status = ApplyStatus.retryable_not_applied;
  plan_id = some plan_id;
  operation_id = some operation_id;
  observed_state = none;
  reason_code = some "RECONCILED_OPERATION_NOT_CLAIMED";
  attempt = attempt;
  attempt_token = none;
  reconciliation_required = false;
  committed_at = none;
  operation = none;
  reason = none;
})

-- the receipt for an operation that was observed; `now` is read where the verdict is `applied`
unfoldable pub observed_receipt : ℕ → String → String → ℕ → Fields → Verdict → ApplyReceipt
observed_receipt now plan_id operation_id attempt observed j = new_apply_receipt (record {
  status = j.status;
  plan_id = some plan_id;
  operation_id = some operation_id;
  observed_state = some observed;
  reason_code = some j.reason_code;
  attempt = attempt;
  attempt_token = none;
  reconciliation_required = j.reconciliation_required;
  committed_at = if same_apply_status j.status ApplyStatus.applied then some now else none;
  operation = none;
  reason = none;
})

-- `operation_records[operation_id]`
abbrev pub record_of : String → List OperationRow → Option OperationRow
record_of operation_id rows = find (λ (r : OperationRow). str_eq r.operation_id operation_id) rows

abbrev pub unresolved : List PlanStatus
unresolved = PlanStatus.executing ∷ PlanStatus.unknown ∷ PlanStatus.legacy_unknown ∷ []

-- What the loop does with one operation.
pub data Step : Type 0 where
  decide : ApplyReceipt → Step
  skip : Step
  unavailable : Step

-- the body of the loop of `reconcile`, up to the call of the store
unfoldable pub reconcile_step :
    Registry ReconcileReader → ℕ → ℕ → WritePlan → OperationPlan → OperationRow → Step
unfolding unclaimed_receipt observed_receipt judge
reconcile_step readers now reading plan o r =
    if same_status r.status PlanStatus.issued
    then decide (unclaimed_receipt plan.plan_id o.operation_id r.attempt)
    else if not (member r.status unresolved)
    then skip
    else elim (function_for o.kind readers) [
      | none ↦ unavailable
      | some reader ↦
          let observed = reader plan o reading in
          decide (
            observed_receipt now plan.plan_id o.operation_id r.attempt observed
              (judge o r.attempt observed))
    ]

module _ (v : Services) (readers : Registry ReconcileReader) where
  -- the loop of `reconcile`: the kind of the first operation that has no reader, if there is one.
  -- The clock is read at the same index as by the store's method, which comes next.
  unfoldable pub reconcile_operations :
      WritePlan → List OperationRow → List OperationPlan → Action (Option String)
  reconcile_operations plan rows [] = pure none
  reconcile_operations plan rows (o ∷ os) =
      let rest = reconcile_operations plan rows os in
      elim (record_of o.operation_id rows) [
        | none ↦ raise (Error.key_error "operation_records")
        | some r ↦ λ w. elim (reconcile_step readers (v.clock w.readings) w.readings plan o r) [
          | skip ↦ rest w
          | unavailable ↦ pure (some o.kind) w
          | decide receipt ↦
              (call v (λ now s. record_reconciliation_receipt v.loads v.sort now receipt s) >> rest)
                w
        ]
      ]

  unfoldable pub reconcile_fenced : String → WritePlan → Action PlanReply
  reconcile_fenced plan_id plan = do
    stored ← query v (λ s. get_record v plan_id s)
    elim stored [
      | none ↦ raise Error.assertion_error
      | some r ↦ do
        missing ← reconcile_operations plan r.operations plan.operations
        elim missing [
          | none ↦ status v plan_id
          | some kind ↦ pure (envelope_err ErrorType.feature_disabled (missing_operation_kind kind))
        ]
    ]

  -- `reconcile`
  unfoldable pub reconcile : String → Action PlanReply
  reconcile plan_id = do
    found ← query v (λ s. get_record v plan_id s)
    elim found [
      | none ↦ pure (envelope_err ErrorType.not_found nothing)
      | some r ↦
          if str_eq r.row.tool_name "legacy"
          then pure
              (envelope_err ErrorType.feature_disabled (reason_code "LEGACY_PLAN_NOT_RECONCILABLE"))
          else do
            begun ← try_transition (call v (λ now s. begin_reconcile v.loads now plan_id s))
            elim begun [
              | none ↦
                  pure
                    (envelope_err ErrorType.write_conflict (reason_code "EXECUTION_LEASE_ACTIVE"))
              | some plan ↦
                  if not (
                    member plan.status
                      (PlanStatus.unknown ∷ PlanStatus.legacy_unknown ∷ PlanStatus.partial ∷ []))
                  then status v plan_id
                  else reconcile_fenced plan_id plan
            ]
    ]
