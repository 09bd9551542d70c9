-- ===== src/Tests/Executions.antt =====
-- Runs of the theorems on execution and reconciliation.
use text.Mathlib.Text.{starts_with}
use incubator_hugegraph_ai.Prelude.{
  ℕ, suc, String, ◌≡◌, ◌⊎◌, refl, inl, inr, Bool, true, false, Option, none, some, List, [], ◌∷◌,
  arith, ◌≢◌, Memᴰ, str_eq, if◌then◌else◌, ok,
}
use incubator_hugegraph_ai.WritePlan.Status.{ApplyStatus, PlanStatus}
use incubator_hugegraph_ai.WritePlan.Value.{
  Fields, bool, mapping, end, field, value_eq, get_field, str,
}
use incubator_hugegraph_ai.WritePlan.Plan.{ApplyReceipt}
use incubator_hugegraph_ai.Execution.Registry.{Registry, register, function_for}
use incubator_hugegraph_ai.Execution.Status.{
  PublicOperation, PublicPlan, public_operation, public_plan, status,
}
use incubator_hugegraph_ai.Envelope.{envelope_ok}
use incubator_hugegraph_ai.Execution.Public.{no_token_shown}
use incubator_hugegraph_ai.PlanStore.Rows.{OperationRow}
use incubator_hugegraph_ai.Execution.World.{World}
use incubator_hugegraph_ai.WriteExecutor.{execute_operations, confirm, resume}
use incubator_hugegraph_ai.WriteExecutor.Sending.{Extends, execution_is_a_run}
use incubator_hugegraph_ai.WriteExecutor.Election.{Confirming, confirm_elects}
use incubator_hugegraph_ai.WriteExecutor.Resumption.{Resuming, resume_elects}
use incubator_hugegraph_ai.WriteExecutor.Exclusion.{leased_sends_nothing}
use incubator_hugegraph_ai.Reconciler.{
  ReconcileReader, is_false, decide, reconcile_step, unclaimed_receipt, observed_receipt, judge,
}
use incubator_hugegraph_ai.Reconciler.Safety.{attempted_is_never_replayed, applied_was_observed}
use incubator_hugegraph_ai.Tests.Data.{
  creation, stored_plan, operation_at, leased_row, in_flight, running, services, adapters, start,
}

-- the plan is under its lease, which the executor "owner" holds
abbrev underway : World
underway = record start { store = running }

execution_is_a_run_example :
    Extends adapters stored_plan
      (PlanStatus.issued ∷ [])
      (in_flight ∷ operation_at 1 "op2" ∷ [])
      stored_plan.operations
      []
      (execute_operations services adapters 300 stored_plan
        (PlanStatus.issued ∷ [])
        "owner"
        (in_flight ∷ operation_at 1 "op2" ∷ [])
        stored_plan.operations
        underway).1.dispatched
execution_is_a_run_example =
    execution_is_a_run services adapters 300 stored_plan (PlanStatus.issued ∷ []) "owner"
      (in_flight ∷ operation_at 1 "op2" ∷ []) stored_plan.operations underway

confirm_elects_example :
    ((confirm services adapters 300 "wp1" start).1.dispatched ≡ [])
    ⊎ Confirming services adapters 300 "wp1" start
confirm_elects_example = confirm_elects services adapters 300 "wp1" start

resume_elects_example :
    ((resume services adapters 300 "wp1" start).1.dispatched ≡ [])
    ⊎ Resuming services adapters 300 "wp1" start
resume_elects_example = resume_elects services adapters 300 "wp1" start

leased_sends_nothing_example :
    ((confirm services adapters 300 "wp1" underway).1.dispatched ≡ [])
    × ((resume services adapters 300 "wp1" underway).1.dispatched ≡ [])
unfolding incubator_hugegraph_ai.Prelude.find incubator_hugegraph_ai.Prelude.str_eq
leased_sends_nothing_example =
    leased_sends_nothing services adapters 300 "wp1" leased_row underway refl refl refl

abbrev reader : ReconcileReader
reader plan o n = field "exists" (bool true) end

abbrev readers : Registry ReconcileReader
readers = ("CREATE_VERTEX", reader) ∷ []

abbrev unclaimed : ApplyReceipt
unclaimed = unclaimed_receipt "wp1" "op2" 0

step_unclaimed :
    reconcile_step readers 500 0 stored_plan (creation "op2") (operation_at 1 "op2")
    ≡ decide unclaimed
unfolding reconcile_step
step_unclaimed = refl

unclaimed_status : unclaimed.status ≡ ApplyStatus.retryable_not_applied
unfolding unclaimed_receipt incubator_hugegraph_ai.WritePlan.Plan.new_apply_receipt
unclaimed_status = refl

attempted_is_never_replayed_example :
    ((operation_at 1 "op2").status ≡ PlanStatus.issued) ⊎ ((operation_at 1 "op2").attempt ≡ 0)
attempted_is_never_replayed_example =
    attempted_is_never_replayed readers 500 0 stored_plan (creation "op2") (operation_at 1 "op2")
      {receipt = unclaimed} step_unclaimed unclaimed_status

abbrev observed : Fields
observed = field "exists" (bool true) end

abbrev found_applied : ApplyReceipt
found_applied = observed_receipt 500 "wp1" "op1" 1 observed (judge (creation "op1") 1 observed)

step_applied :
    reconcile_step readers 500 0 stored_plan (creation "op1") in_flight ≡ decide found_applied
unfolding reconcile_step function_for incubator_hugegraph_ai.Prelude.str_eq
step_applied = refl

applied_status : found_applied.status ≡ ApplyStatus.applied
unfolding observed_receipt incubator_hugegraph_ai.WritePlan.Plan.new_apply_receipt judge value_eq
    incubator_hugegraph_ai.Prelude.str_eq
applied_status = refl

applied_was_observed_example :
    (r : ReconcileReader) × (function_for "CREATE_VERTEX" readers ≡ some r)
    × ((value_eq
            (mapping (r stored_plan (creation "op1") 0))
            (mapping (creation "op1").desired_state)
          ≡ true)
        ⊎ ((starts_with "CREATE_VERTEX" "DELETE_" ≡ true)
            × (is_false (get_field "exists" (r stored_plan (creation "op1") 0)) ≡ true)))
applied_was_observed_example =
    applied_was_observed readers 500 0 stored_plan (creation "op1") in_flight
      {receipt = found_applied} step_applied applied_status

-- the first operation once its receipt, with the token, is stored
abbrev received_row : OperationRow
received_row = record in_flight {
  receipt_json =
      some (mapping (field "attempt_token" (str "token") (field "status" (str "APPLIED") end)));
}

abbrev answered : World
answered = record start {
  store = record running { operations = received_row ∷ operation_at 1 "op2" ∷ [] };
}

abbrev received_shown : PublicOperation
received_shown = public_operation received_row

abbrev shown_plan : PublicPlan
shown_plan =
    public_plan 100
      (record { row = leased_row; operations = received_row ∷ operation_at 1 "op2" ∷ [] })

status_shown : (status services "wp1" answered).0 ≡ ok (envelope_ok shown_plan)
unfolding status incubator_hugegraph_ai.PlanStore.Legacy.prepare
    incubator_hugegraph_ai.PlanStore.Plans.get_plan_record incubator_hugegraph_ai.Prelude.find
    incubator_hugegraph_ai.PlanStore.Legacy.migrate_hashes str_eq
    incubator_hugegraph_ai.PlanStore.Rows.operations_of incubator_hugegraph_ai.Prelude.select
status_shown = refl

no_token_shown_example : get_field "attempt_token" (field "status" (str "APPLIED") end) ≡ none
unfolding str_eq public_plan
no_token_shown_example =
    no_token_shown services "wp1" answered {r = envelope_ok shown_plan} {p = shown_plan}
      (inl status_shown) refl received_shown (Memᴰ.head refl) (field "status" (str "APPLIED") end)
      refl

abbrev both_readers : Registry ReconcileReader
both_readers = ("CREATE_VERTEX", reader) ∷ ("DELETE_VERTEX", reader) ∷ []

registered_ok : register "DELETE_VERTEX" reader readers ≡ ok both_readers
unfolding register str_eq
registered_ok = refl
