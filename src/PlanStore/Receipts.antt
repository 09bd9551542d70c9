-- ===== src/PlanStore/Receipts.antt =====
-- `record_receipt` of plan_store.py.
use incubator_hugegraph_ai.Prelude.{
  ℕ, String, Bool, true, false, ◌&&◌, ◌||◌, not, ◌==◌, Option, none, some, List, [], ◌∷◌, map,
  str_eq, if◌then◌else◌, any, all, update_where, count_where, Outcome, Error, ok, err, after,
}
use incubator_hugegraph_ai.WritePlan.Status.{
  ApplyStatus, PlanStatus, same_status, can_transition, to_plan_status, to_apply_status,
}
use incubator_hugegraph_ai.WritePlan.Aggregate.{aggregate_plan_status, is_success, is_status}
use incubator_hugegraph_ai.WritePlan.Value.{Value, Values, mapping}
use incubator_hugegraph_ai.WritePlan.Plan.{ApplyReceipt}
use incubator_hugegraph_ai.WritePlan.Encoding.{receipt_to_dict}
use incubator_hugegraph_ai.PlanStore.Rows.{
  PlanRow, OperationRow, Store, is_plan, is_operation, find_plan, find_operation, operations_of,
  text_or, number_or, same_text,
}
use incubator_hugegraph_ai.PlanStore.Legacy.{prepare}
use incubator_hugegraph_ai.PlanStore.Claims.{lease_live}

-- `completed`, and whether some status was no outcome
unfoldable pub completed : List PlanStatus → List ApplyStatus
unfolding to_apply_status
completed [] = []
completed (s ∷ ss) = elim (to_apply_status s) [ none ↦ completed ss | some a ↦ a ∷ completed ss ]

unfoldable pub pending : List PlanStatus → Bool
unfolding to_apply_status
pending [] = false
pending (s ∷ ss) = elim (to_apply_status s) [ none ↦ true | some a ↦ pending ss ]

abbrev is_empty : List ApplyStatus → Bool
is_empty [] = true
is_empty (_ ∷ _) = false

-- `_aggregate_persisted_statuses`
unfoldable pub aggregate_persisted_statuses : List PlanStatus → PlanStatus
unfolding completed pending
aggregate_persisted_statuses statuses =
    let done = completed statuses in
    if pending statuses
    then (if any is_success done
        then PlanStatus.partial
        else if any (is_status ApplyStatus.unknown) done
        then PlanStatus.unknown
        else if any (is_status ApplyStatus.conflict) done
        then PlanStatus.conflict
        else if any (is_status ApplyStatus.retryable_not_applied) done
        then PlanStatus.retryable_not_applied
        else if not (is_empty done) && all (is_status ApplyStatus.rejected) done
        then PlanStatus.rejected
        else PlanStatus.executing)
    else aggregate_plan_status done

-- `SELECT status FROM write_operations WHERE plan_id = ? ORDER BY ordinal`
abbrev pub statuses_of : String → Store → List PlanStatus
statuses_of plan_id s = map (λ (r : OperationRow). r.status) (operations_of plan_id s)

abbrev pub is_given : Option String → Bool
is_given none = false
is_given (some t) = not (str_eq t "")

-- the guard of `record_receipt` on the joined rows
unfoldable pub fits :
    ℕ → ApplyReceipt → Option String → Option String → OperationRow → PlanRow → Bool
fits now receipt owner token operation plan =
    same_status operation.status PlanStatus.executing
    && (operation.attempt == receipt.attempt)
    && is_given token
    && same_text operation.attempt_token token
    && same_text plan.lease_owner owner
    && lease_live now plan.lease_expires_at

-- `status in {EXECUTING, PARTIAL}`
abbrev pub goes_on : PlanStatus → Bool
goes_on PlanStatus.executing = true
goes_on PlanStatus.partial = true
goes_on _ = false

-- the operation that the guarded update of `record_receipt` writes
abbrev pub receives : String → String → ℕ → Option String → OperationRow → Bool
receives plan_id operation_id attempt token r =
    is_operation plan_id operation_id r
    && same_status r.status PlanStatus.executing
    && (r.attempt == attempt)
    && same_text r.attempt_token token

module _ (sort : Values → Values) where
  abbrev pub received : ApplyReceipt → ℕ → OperationRow → OperationRow
  received receipt updated_at r = record r {
    status = to_plan_status receipt.status;
    attempt = receipt.attempt;
    receipt_json = some (mapping (receipt_to_dict sort receipt));
    updated_at = updated_at;
  }

  -- the store once the operation of `record_receipt` is written
  unfoldable pub write_receipt : ApplyReceipt → String → String → Option String → Store → Store
  unfolding to_plan_status
  write_receipt receipt plan_id operation_id token s = record s {
    operations =
        update_where (receives plan_id operation_id receipt.attempt token)
          (received receipt (number_or receipt.committed_at 0)) s.operations;
  }

  -- the end of `record_receipt`: the plan takes the aggregate, if the state machine permits, and
  -- keeps its lease while there is more to do
  unfoldable pub settle :
      ApplyReceipt → String → PlanStatus → Store → Store → Outcome Store (Unit {0})
  unfolding can_transition
  settle receipt plan_id current before s =
      let aggregate = aggregate_persisted_statuses (statuses_of plan_id s) in
      let keep_lease = is_success receipt.status && goes_on aggregate in
      if not (same_status current aggregate) && not (can_transition current aggregate)
      then (err (Error.plan_transition_error "illegal receipt transition"), before)
      else (
        ok tt,
        record s {
          plans =
              update_where (is_plan plan_id)
                (λ (r : PlanRow). record r {
                  status = aggregate;
                  lease_owner = if keep_lease then r.lease_owner else none;
                  lease_expires_at = if keep_lease then r.lease_expires_at else none;
                })
                s.plans;
        },
      )

  -- the transaction of `record_receipt` on the rows that it joined
  unfoldable pub receive :
      ℕ
      → ApplyReceipt
      → String
      → String
      → Option String
      → Option String
      → OperationRow
      → PlanRow
      → Store
      → Outcome Store (Unit {0})
  receive now receipt plan_id operation_id owner_token attempt_token operation plan s =
      let owner = text_or owner_token plan.lease_owner in
      let token = text_or attempt_token (text_or receipt.attempt_token operation.attempt_token) in
      if not (fits now receipt owner token operation plan)
      then (err (Error.plan_transition_error "stale or unfenced operation receipt"), s)
      else if not
          (count_where (receives plan_id operation_id receipt.attempt token) s.operations == 1)
      then (err (Error.plan_transition_error "operation receipt target was not found"), s)
      else settle receipt plan_id plan.status s (write_receipt receipt plan_id operation_id token s)

  -- the transaction of `record_receipt`
  unfoldable pub record_receipt_rows :
      ℕ
      → ApplyReceipt
      → String
      → String
      → Option String
      → Option String
      → Store
      → Outcome Store (Unit {0})
  record_receipt_rows now receipt plan_id operation_id owner_token attempt_token s =
      elim (find_operation plan_id operation_id s) [
        | none ↦ (err (Error.plan_transition_error "operation receipt target was not found"), s)
        | some operation ↦ elim (find_plan plan_id s) [
          | none ↦ (err (Error.plan_transition_error "operation receipt target was not found"), s)
          | some plan ↦
              receive now receipt plan_id operation_id owner_token attempt_token operation plan s
        ]
      ]

-- `receipt.plan_id` and `receipt.operation_id`, neither missing nor empty
abbrev pub addressed : Option String → Option String → Option (String × String)
addressed (some p) (some o) = if str_eq p "" || str_eq o "" then none else some (p, o)
addressed _ _ = none

module _ (loads : String → Option Value) (sort : Values → Values) where
  -- `record_receipt`
  unfoldable pub record_receipt :
      ℕ → ApplyReceipt → Option String → Option String → Store → Outcome Store (Unit {0})
  record_receipt now receipt owner_token attempt_token s =
      elim (addressed receipt.plan_id receipt.operation_id) [
        | none ↦ (err (Error.value_error "canonical receipt requires plan_id and operation_id"), s)
        | some (plan_id, operation_id) ↦ after (prepare loads s) (λ _ s'.
            record_receipt_rows sort now receipt plan_id operation_id owner_token attempt_token s')
      ]
