-- ===== src/PlanStore/Claims.antt =====
-- `claim_plan` and `claim_operation` of plan_store.py: leases and attempts. `now` is the clock that
-- the transaction reads; a token is the caller's, or the fresh one that `uuid4` gave.
use incubator_hugegraph_ai.Prelude.{
  ℕ, suc, ◌+◌, String, Bool, true, false, ◌&&◌, not, ◌==◌, Option, none, some, List, [], ◌∷◌,
  str_eq, leb, ltb, if◌then◌else◌, update_where, count_where, Outcome, Error, ok, err, after,
}
use incubator_hugegraph_ai.WritePlan.Status.{PlanStatus, same_status, member}
use incubator_hugegraph_ai.WritePlan.Value.{Value}
use incubator_hugegraph_ai.WritePlan.Plan.{WritePlan}
use incubator_hugegraph_ai.PlanStore.Rows.{
  PlanRow, OperationRow, Store, is_plan, is_operation, find_plan, find_operation, lease_available,
}
use incubator_hugegraph_ai.PlanStore.Legacy.{prepare}
use incubator_hugegraph_ai.PlanStore.Plans.{returning_plan}

abbrev pub claimable_plan : Bool → List PlanStatus
claimable_plan true = PlanStatus.issued ∷ PlanStatus.retryable_not_applied ∷ PlanStatus.partial ∷ []
claimable_plan false = PlanStatus.issued ∷ []

-- `EXECUTING if current is not PARTIAL else current`
abbrev pub claimed_status : PlanStatus → PlanStatus
claimed_status PlanStatus.partial = PlanStatus.partial
claimed_status _ = PlanStatus.executing

abbrev pub first_time : Option ℕ → ℕ → ℕ
first_time none now = now
first_time (some t) now = t

-- the transaction of `claim_plan`: whether the caller was elected
unfoldable pub claim_row : ℕ → String → String → ℕ → Bool → Store → Outcome Store Bool
claim_row now plan_id owner lease_seconds resume s = elim (find_plan plan_id s) [
  | none ↦ (err (Error.plan_transition_error "plan was not found"), s)
  | some row ↦
      let matches : PlanRow → Bool = λ r.
        is_plan plan_id r
        && same_status r.status row.status
        && lease_available now r.lease_expires_at in
      if member row.status (claimable_plan resume) && lease_available now row.lease_expires_at
      then (
        ok (count_where matches s.plans == 1),
        record s {
          plans =
              update_where matches
                (λ (r : PlanRow). record r {
                  status = claimed_status row.status;
                  confirmed_at = some (first_time r.confirmed_at now);
                  lease_owner = some owner;
                  lease_expires_at = some (now + lease_seconds);
                })
                s.plans;
        },
      )
      else (ok false, s)
]

abbrev pub token_or : Option String → String → String
token_or none fresh = fresh
token_or (some t) fresh = if str_eq t "" then fresh else t

abbrev pub claimable_operation : List PlanStatus
claimable_operation = PlanStatus.issued ∷ PlanStatus.retryable_not_applied ∷ []

-- `str(plan_row[0])`
abbrev pub text_of : Option String → String
text_of none = "None"
text_of (some t) = t

-- `plan_row[0] == effective_owner`
abbrev pub owned_by : String → Option String → Bool
owned_by owner none = false
owned_by owner (some o) = str_eq o owner

-- `lease_expires_at > now`, which NULL is not
abbrev pub lease_live : ℕ → Option ℕ → Bool
lease_live now none = false
lease_live now (some t) = ltb now t

-- the two updates of `claim_operation`
unfoldable pub start_attempt :
    ℕ → String → String → String → String → ℕ → OperationRow → Store → Outcome Store ℕ
start_attempt now plan_id operation_id owner token lease_seconds row s =
    let renews : PlanRow → Bool =
      λ r. is_plan plan_id r && owned_by owner r.lease_owner && lease_live now r.lease_expires_at in
    if count_where renews s.plans == 1
    then (
      ok (suc row.attempt),
      record s {
        operations =
            update_where (is_operation plan_id operation_id)
              (λ (r : OperationRow). record r {
                status = PlanStatus.executing;
                attempt = suc row.attempt;
                attempt_token = some token;
                reconciled = false;
                updated_at = now;
              })
              s.operations;
        plans =
            update_where renews
              (λ (r : PlanRow). record r { lease_expires_at = some (now + lease_seconds) }) s.plans;
      },
    )
    else (err (Error.plan_transition_error "executor lease could not be renewed"), s)

-- the transaction of `claim_operation`: the number of the attempt
unfoldable pub claim_operation_row :
    ℕ → String → String → Option String → String → ℕ → Store → Outcome Store ℕ
claim_operation_row now plan_id operation_id owner_token token lease_seconds s =
    elim (find_plan plan_id s) [
      | none ↦ (err (Error.plan_transition_error "executor lease is absent or expired"), s)
      | some plan ↦
          let owner = token_or owner_token (text_of plan.lease_owner) in
          if not (lease_live now plan.lease_expires_at)
          then (err (Error.plan_transition_error "executor lease is absent or expired"), s)
          else if not (owned_by owner plan.lease_owner)
          then (err (Error.plan_transition_error "executor lease owner did not match"), s)
          else elim (find_operation plan_id operation_id s) [
            | none ↦ (err (Error.plan_transition_error "operation is not claimable"), s)
            | some row ↦
                if not (member row.status claimable_operation)
                then (err (Error.plan_transition_error "operation is not claimable"), s)
                else start_attempt now plan_id operation_id owner token lease_seconds row s
          ]
    ]

module _ (loads : String → Option Value) where
  -- the end of `claim_plan`, once the transaction has committed
  unfoldable pub return_claimed : String → Bool → Store → Outcome Store (WritePlan × Bool)
  return_claimed plan_id claimed s =
      after (returning_plan loads plan_id "plan disappeared after claim" s)
        (λ plan s'. (ok (plan, claimed), s'))

  -- `claim_plan` on a prepared database
  unfoldable pub claim_prepared :
      ℕ → String → String → ℕ → Bool → Store → Outcome Store (WritePlan × Bool)
  claim_prepared now plan_id owner lease_seconds resume s =
      after (claim_row now plan_id owner lease_seconds resume s) (return_claimed plan_id)

  -- `claim_plan`
  unfoldable pub claim_plan :
      ℕ → String → Option String → String → ℕ → Bool → Store → Outcome Store (WritePlan × Bool)
  unfolding return_claimed claim_prepared
  claim_plan now plan_id owner_token fresh lease_seconds resume s =
      if leb lease_seconds 0
      then (err (Error.value_error "lease_seconds must be positive"), s)
      else after (prepare loads s)
          (λ _ s'. claim_prepared now plan_id (token_or owner_token fresh) lease_seconds resume s')

  -- `claim_operation`
  unfoldable pub claim_operation :
      ℕ → String → String → Option String → Option String → String → ℕ → Store → Outcome Store ℕ
  claim_operation now plan_id operation_id owner_token attempt_token fresh lease_seconds s =
      if leb lease_seconds 0
      then (err (Error.value_error "lease_seconds must be positive"), s)
      else after (prepare loads s) (λ _ s1.
        claim_operation_row now plan_id operation_id owner_token (token_or attempt_token fresh)
          lease_seconds s1)
