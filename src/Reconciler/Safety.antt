-- ===== src/Reconciler/Safety.antt =====
-- What reconciliation may decide, and when it may write at all.
use text.Mathlib.Text.{starts_with}
use incubator_hugegraph_ai.Prelude.{
  ℕ, ◌≡◌, ◌⊎◌, sym, ap, ◌∙◌, true, some, arith, Bool-cases, Option-cases, inl, inr,
}
use incubator_hugegraph_ai.WritePlan.Status.{
  ApplyStatus, PlanStatus, same_status, same_status_sound, member,
}
use incubator_hugegraph_ai.WritePlan.Value.{Fields, mapping, value_eq, get_field}
use incubator_hugegraph_ai.WritePlan.Plan.{
  OperationPlan, WritePlan, ApplyReceipt, new_apply_receipt,
}
use incubator_hugegraph_ai.PlanStore.Rows.{OperationRow}
use incubator_hugegraph_ai.Execution.Registry.{Registry, function_for}
use incubator_hugegraph_ai.Reconciler.{
  ReconcileReader, is_false, reconcile_operation_state, judge, unclaimed_receipt, observed_receipt,
  unresolved, decide, reconcile_step,
}

-- The verdict that an attempted operation may be replayed is never given.
judge_attempted :
    (o : OperationPlan) (attempt : ℕ) (observed : Fields)
    → (judge o attempt observed).status ≡ ApplyStatus.retryable_not_applied
    → attempt ≡ 0
unfolding judge
judge_attempted o attempt observed h = ground arith

judge_applied :
    (o : OperationPlan) (attempt : ℕ) (observed : Fields)
    → (judge o attempt observed).status ≡ ApplyStatus.applied
    → (value_eq (mapping observed) (mapping o.desired_state) ≡ true)
      ⊎ ((starts_with o.kind "DELETE_" ≡ true) × (is_false (get_field "exists" observed) ≡ true))
unfolding judge reconcile_operation_state
judge_applied o attempt observed h = ground arith

-- The two ways in which a step decides.
step_decides :
    (readers : Registry ReconcileReader) (now reading : ℕ) (plan : WritePlan) (o : OperationPlan)
    (r : OperationRow) {receipt : ApplyReceipt}
    → reconcile_step readers now reading plan o r ≡ decide receipt
    → ((r.status ≡ PlanStatus.issued)
        × (receipt ≡ unclaimed_receipt plan.plan_id o.operation_id r.attempt))
      ⊎ ((reader : ReconcileReader) × (function_for o.kind readers ≡ some reader)
          × (receipt
              ≡ observed_receipt now plan.plan_id o.operation_id r.attempt
                  (reader plan o reading)
                  (judge o r.attempt (reader plan o reading))))
unfolding reconcile_step
step_decides readers now reading plan o r h =
    elim (Bool-cases (same_status r.status PlanStatus.issued)) [
      | inl new ↦ inl (same_status_sound r.status PlanStatus.issued new, cc (rw new at h))
      | inr claimed ↦ elim (Bool-cases (member r.status unresolved)) [
        | inr settled ↦ absurd (cc (rw (claimed, settled) at h))
        | inl open_row ↦ elim (Option-cases (function_for o.kind readers)) [
          | inl missing ↦ absurd (cc (rw (claimed, open_row, missing, reconcile_step) at h))
          | inr (reader, f) ↦ inr (reader, f, cc (rw (claimed, open_row, f, reconcile_step) at h))
        ]
      ]
    ]

-- Reconciliation finds an operation safe to replay only if its row was never claimed, or counts no
-- attempt: once a request may have been sent, no reading of the graph makes a replay safe.
pub attempted_is_never_replayed :
    (readers : Registry ReconcileReader) (now reading : ℕ) (plan : WritePlan) (o : OperationPlan)
    (r : OperationRow) {receipt : ApplyReceipt}
    → reconcile_step readers now reading plan o r ≡ decide receipt
    → receipt.status ≡ ApplyStatus.retryable_not_applied
    → (r.status ≡ PlanStatus.issued) ⊎ (r.attempt ≡ 0)
unfolding reconcile_step observed_receipt new_apply_receipt
attempted_is_never_replayed readers now reading plan o r h k =
    elim (step_decides readers now reading plan o r h) [
      | inl (new, e) ↦ inl new
      | inr (reader, f, e) ↦ inr (
          judge_attempted o r.attempt (reader plan o reading)
            (sym (ap (λ (x : ApplyReceipt). x.status) e) ∙ k))
    ]

-- Reconciliation finds an operation applied only on an observation of the graph by the reader for
-- its kind: either the desired state, or, for a deletion, that the element does not exist.
pub applied_was_observed :
    (readers : Registry ReconcileReader) (now reading : ℕ) (plan : WritePlan) (o : OperationPlan)
    (r : OperationRow) {receipt : ApplyReceipt}
    → reconcile_step readers now reading plan o r ≡ decide receipt
    → receipt.status ≡ ApplyStatus.applied
    → (reader : ReconcileReader) × (function_for o.kind readers ≡ some reader)
      × (let observed = reader plan o reading in
          (value_eq (mapping observed) (mapping o.desired_state) ≡ true)
          ⊎ ((starts_with o.kind "DELETE_" ≡ true)
              × (is_false (get_field "exists" observed) ≡ true)))
unfolding reconcile_step observed_receipt unclaimed_receipt new_apply_receipt
applied_was_observed readers now reading plan o r h k =
    elim (step_decides readers now reading plan o r h) [
      | inl (new, e) ↦ absurd cc
      | inr (reader, f, e) ↦ (
        reader,
        f,
        judge_applied o r.attempt (reader plan o reading)
            (sym (ap (λ (x : ApplyReceipt). x.status) e) ∙ k),
      )
    ]
