-- ===== src/WriteExecutor.antt =====
-- hugegraph-mcp/hugegraph_mcp/write_executor.py: confirming and resuming a persisted plan.
-- An adapter is a function of the plan, the operation, the attempt and the number of requests made
-- before it, since a graph server answers as it will; it returns a receipt or raises.
pub mod Sending
pub mod Election
pub mod Resumption
pub mod Exclusion
use Prim.Native.String.{compare}
use incubator_hugegraph_ai.Prelude.{
  ℕ, suc, String, Bool, true, false, ◌&&◌, ◌||◌, not, Option, none, some, List, [], ◌∷◌, ◌++◌, map,
  str_eq, ltb, if◌then◌else◌, any, all, find, select, length, Error, ok, err,
}
use incubator_hugegraph_ai.Envelope.{ErrorType, envelope_err}
use incubator_hugegraph_ai.WritePlan.Status.{ApplyStatus, PlanStatus, same_status, member}
use incubator_hugegraph_ai.WritePlan.Aggregate.{is_success}
use incubator_hugegraph_ai.WritePlan.Plan.{
  OperationPlan, WritePlan, ApplyReceipt, new_apply_receipt,
}
use incubator_hugegraph_ai.PlanStore.Rows.{OperationRow, Store}
use incubator_hugegraph_ai.PlanStore.Legacy.{sorted_set}
use incubator_hugegraph_ai.PlanStore.Plans.{PlanRecord, get_plan, transition_plan}
use incubator_hugegraph_ai.PlanStore.Claims.{claim_plan, claim_operation}
use incubator_hugegraph_ai.PlanStore.Receipts.{record_receipt}
use incubator_hugegraph_ai.Execution.Registry.{Registry, function_for}
use incubator_hugegraph_ai.Execution.World.{
  World, Services, Action, pure, raise, call, query, read_clock, draw_token, try_transition, ◌>>=◌,
  ◌>>◌,
}
use incubator_hugegraph_ai.Execution.Status.{
  PlanReply, nothing, missing_operation_kinds, get_record, confirmation_result,
}

pub data AdapterResult : Type 0 where
  returned : ApplyReceipt → AdapterResult
  raised : String → AdapterResult

abbrev pub WriteAdapter : Type 0
WriteAdapter = WritePlan → OperationPlan → ℕ → ℕ → AdapterResult

-- the receipt for an adapter that raised an exception of the named class
unfoldable pub exception_receipt : String → OperationPlan → ℕ → String → ApplyReceipt
unfolding new_apply_receipt
exception_receipt plan_id o attempt name = new_apply_receipt (record {
  status = ApplyStatus.unknown;
  plan_id = some plan_id;
  operation_id = some o.operation_id;
  observed_state = none;
  reason_code = some name;
  attempt = attempt;
  attempt_token = none;
  reconciliation_required = true;
  committed_at = none;
  operation = none;
  reason = none;
})

abbrev pub receipt_of : String → OperationPlan → ℕ → AdapterResult → ApplyReceipt
receipt_of plan_id o attempt (returned r) = r
receipt_of plan_id o attempt (raised name) = exception_receipt plan_id o attempt name

-- `operation_statuses[operation_id]`, a dict built from the rows
abbrev pub status_of : String → List OperationRow → Option PlanStatus
status_of operation_id [] = none
status_of operation_id (r ∷ rs) =
    if str_eq r.operation_id operation_id then some r.status else status_of operation_id rs

-- the kinds that have no adapter
abbrev pub missing_kinds : Registry WriteAdapter → List OperationPlan → List String
missing_kinds registry [] = []
missing_kinds registry (o ∷ os) =
    let rest = missing_kinds registry os in
    elim (function_for o.kind registry) [ none ↦ o.kind ∷ rest | some a ↦ rest ]

-- `sorted(set(missing))`
abbrev pub kinds_listed : List String → List String
kinds_listed kinds = sorted_set kinds

abbrev pub is_none {ℓ} : {A : Type ℓ} → List A → Bool
is_none [] = true
is_none (_ ∷ _) = false

module _ (v : Services) (registry : Registry WriteAdapter) (lease_seconds : ℕ) where
  -- the call of the adapter, which sends a request
  unfoldable pub dispatch : WriteAdapter → WritePlan → OperationPlan → ℕ → Action ApplyReceipt
  dispatch adapter plan o attempt w = (
    ok (receipt_of plan.plan_id o attempt (adapter plan o attempt (length w.dispatched))),
    record w {
      dispatched =
          w.dispatched ++ (record { operation_id = o.operation_id; attempt = attempt }) ∷ [];
    },
  )

  -- one operation of `_execute_claimed`: whether the loop goes on
  unfoldable pub execute_operation : WritePlan → String → WriteAdapter → OperationPlan → Action Bool
  execute_operation plan owner adapter o = do
    token ← draw_token v
    attempt ← call v (λ now s.
        claim_operation v.loads now plan.plan_id o.operation_id (some owner) (some token) token
          lease_seconds s)
    r ← dispatch adapter plan o attempt
    let receipt : ApplyReceipt = new_apply_receipt (record r { attempt_token = some token })
    call v (λ now s. record_receipt v.loads v.sort now receipt (some owner) (some token) s)
    pure (is_success receipt.status)

  -- the loop of `_execute_claimed`; `assert adapter is not None`
  unfoldable pub execute_operations :
      WritePlan
      → List PlanStatus
      → String
      → List OperationRow
      → List OperationPlan
      → Action (Unit {0})
  execute_operations plan claimable owner rows [] = pure tt
  execute_operations plan claimable owner rows (o ∷ os) =
      let rest = execute_operations plan claimable owner rows os in
      elim (status_of o.operation_id rows) [
        | none ↦ raise (Error.key_error "operation_statuses")
        | some s ↦ if not (member s claimable) then rest else elim (function_for o.kind registry) [
          | none ↦ raise Error.assertion_error
          | some adapter ↦ do
            goes_on ← execute_operation plan owner adapter o
            if goes_on then rest else pure tt
        ]
      ]

  -- `_execute_claimed`
  unfoldable pub execute_claimed : WritePlan → List PlanStatus → String → Action PlanReply
  execute_claimed plan claimable owner = do
    found ← query v (λ s. get_record v plan.plan_id s)
    elim found [
      | none ↦ raise (Error.plan_transition_error "claimed plan disappeared before execution")
      | some r ↦ do
        execute_operations plan claimable owner r.operations plan.operations
        confirmation_result v plan.plan_id
    ]

  -- the election of `confirm`, and the execution by the elected
  unfoldable pub claim_and_execute : String → Action PlanReply
  claim_and_execute plan_id = do
    owner ← draw_token v
    claimed ←
        try_transition (
          call v (λ now s. claim_plan v.loads now plan_id (some owner) owner lease_seconds false s))
    elim claimed [
      | none ↦ confirmation_result v plan_id
      | some (plan, elected) ↦
          if elected
          then execute_claimed plan (PlanStatus.issued ∷ []) owner
          else confirmation_result v plan_id
    ]

  -- the expiry of `confirm`; a transition to EXPIRED writes no time
  unfoldable pub expire : String → Action PlanReply
  expire plan_id = do
    query v (λ s. transition_plan v.loads 0 plan_id PlanStatus.issued PlanStatus.expired s)
    confirmation_result v plan_id

  -- `confirm`
  unfoldable pub confirm : String → Action PlanReply
  confirm plan_id = do
    found ← query v (λ s. get_plan v.loads plan_id s)
    elim found [
      | none ↦ pure (envelope_err ErrorType.not_found nothing)
      | some plan ↦ do
        now ← read_clock v
        if ltb plan.expires_at now && same_status plan.status PlanStatus.issued
            then expire plan_id
            else if not (is_none (missing_kinds registry plan.operations))
            then pure (
                envelope_err ErrorType.feature_disabled
                  (missing_operation_kinds (kinds_listed (missing_kinds registry plan.operations))))
            else claim_and_execute plan_id
    ]

  -- the test of `resume`: some operation is reconciled as not applied, every such one was
  -- reconciled, and all the others are applied
  abbrev pub resumable_row : OperationRow → Bool
  resumable_row r =
      member r.status
        (PlanStatus.applied ∷ PlanStatus.already_applied ∷ PlanStatus.retryable_not_applied ∷ [])

  abbrev pub retryable_row : OperationRow → Bool
  retryable_row r = same_status r.status PlanStatus.retryable_not_applied

  unfoldable pub resumable : PlanStatus → List OperationRow → Bool
  resumable status rows =
      member status (PlanStatus.retryable_not_applied ∷ PlanStatus.partial ∷ [])
      && any retryable_row rows
      && all resumable_row rows
      && all (λ r. not (retryable_row r) || r.reconciled) rows

  -- the operations of the plan whose row is retryable
  abbrev pub retryable_operations : List OperationRow → List OperationPlan → List OperationPlan
  retryable_operations rows = select (λ (o : OperationPlan). elim (status_of o.operation_id rows) [
    | none ↦ false
    | some s ↦ same_status s PlanStatus.retryable_not_applied
  ])

  -- the election of `resume`, and the execution by the elected
  unfoldable pub claim_and_resume : String → Action PlanReply
  claim_and_resume plan_id = do
    owner ← draw_token v
    claimed ←
        call v (λ now s. claim_plan v.loads now plan_id (some owner) owner lease_seconds true s)
    if claimed.1
        then execute_claimed claimed.0 (PlanStatus.retryable_not_applied ∷ []) owner
        else raise (Error.plan_transition_error "resumable plan could not be exclusively leased")

  abbrev pub both : Option WritePlan → Option PlanRecord → Option (WritePlan × PlanRecord)
  both (some p) (some r) = some (p, r)
  both _ _ = none

  -- `resume`
  unfoldable pub resume : String → Action PlanReply
  resume plan_id = do
    found ← query v (λ s. get_plan v.loads plan_id s)
    stored ← query v (λ s. get_record v plan_id s)
    elim (both found stored) [
      | none ↦
          raise
            (Error.plan_transition_error "resume requires a reconciled RETRYABLE_NOT_APPLIED plan")
      | some (plan, r) ↦
          if not (resumable plan.status r.operations)
          then raise (
              Error.plan_transition_error
                "resume requires reconciled operations whose remaining state is RETRYABLE_NOT_APPLIED")
          else let missing =
              missing_kinds registry (retryable_operations r.operations plan.operations) in
            if not (is_none missing)
            then pure (
                envelope_err ErrorType.feature_disabled
                  (missing_operation_kinds (kinds_listed missing)))
            else claim_and_resume plan_id
    ]
