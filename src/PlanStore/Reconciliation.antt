-- ===== src/PlanStore/Reconciliation.antt =====
-- `begin_reconcile` and `record_reconciliation_receipt` of plan_store.py.
use incubator_hugegraph_ai.Prelude.{
  ℕ, String, Bool, true, ◌&&◌, not, ◌==◌, Option, none, some, List, [], ◌∷◌, if◌then◌else◌,
  update_where, count_where, Outcome, Error, ok, err, after,
}
use incubator_hugegraph_ai.WritePlan.Status.{PlanStatus, same_status, member, to_plan_status}
use incubator_hugegraph_ai.WritePlan.Value.{Value, Values, mapping}
use incubator_hugegraph_ai.WritePlan.Plan.{WritePlan, ApplyReceipt}
use incubator_hugegraph_ai.WritePlan.Encoding.{receipt_to_dict}
use incubator_hugegraph_ai.PlanStore.Rows.{
  PlanRow, OperationRow, Store, is_plan, is_operation, find_plan, lease_available, number_or,
}
use incubator_hugegraph_ai.PlanStore.Legacy.{prepare}
use incubator_hugegraph_ai.PlanStore.Plans.{returning_plan}
use incubator_hugegraph_ai.PlanStore.Receipts.{aggregate_persisted_statuses, statuses_of, addressed}

module _ (sort : Values → Values) where
  -- the statuses that reconciliation may still decide
  abbrev pub reconcilable : List PlanStatus
  reconcilable =
      PlanStatus.issued ∷ PlanStatus.executing ∷ PlanStatus.unknown ∷ PlanStatus.legacy_unknown ∷ []

  abbrev pub reconcilable_row : String → String → OperationRow → Bool
  reconcilable_row plan_id operation_id r =
      is_operation plan_id operation_id r && member r.status reconcilable

  -- the transaction of `record_reconciliation_receipt`
  unfoldable pub record_reconciliation_rows :
      ℕ → ApplyReceipt → String → String → Store → Outcome Store (Unit {0})
  unfolding to_plan_status
  record_reconciliation_rows now receipt plan_id operation_id s = elim (find_plan plan_id s) [
    | none ↦ (err (Error.plan_transition_error "reconciliation requires a fenced executor"), s)
    | some plan ↦ elim plan.lease_owner [
      | some owner ↦
          (err (Error.plan_transition_error "reconciliation requires a fenced executor"), s)
      | none ↦
          let matches = reconcilable_row plan_id operation_id in
          let written : Store = record s {
            operations =
                update_where matches
                  (λ (r : OperationRow). record r {
                    status = to_plan_status receipt.status;
                    receipt_json = some (mapping (receipt_to_dict sort receipt));
                    updated_at = number_or receipt.committed_at now;
                    reconciled = true;
                  })
                  s.operations;
          } in
          let aggregate = aggregate_persisted_statuses (statuses_of plan_id written) in
          if not (count_where matches s.operations == 1)
          then (err (Error.plan_transition_error "operation is not reconcilable"), s)
          else (
            ok tt,
            record written {
              plans =
                  update_where (is_plan plan_id) (λ (r : PlanRow). record r { status = aggregate })
                    s.plans;
            },
          )
    ]
  ]

-- the transaction of `begin_reconcile`: an executor whose lease is over is fenced off
unfoldable pub fence : ℕ → String → Store → Outcome Store (Unit {0})
fence now plan_id s = elim (find_plan plan_id s) [
  | none ↦ (err (Error.plan_transition_error "plan was not found"), s)
  | some row ↦
      let executing : PlanRow → Bool = λ r.
        is_plan plan_id r
        && same_status r.status PlanStatus.executing
        && lease_available now r.lease_expires_at in
      if not (lease_available now row.lease_expires_at)
      then (err (Error.plan_transition_error "execution lease is still active"), s)
      else if same_status row.status PlanStatus.executing
      then (
        ok tt,
        record s {
          plans =
              update_where executing
                (λ (r : PlanRow). record r {
                  status = PlanStatus.unknown;
                  lease_owner = none;
                  lease_expires_at = none;
                })
                s.plans;
        },
      )
      else if member row.status
          (PlanStatus.unknown ∷ PlanStatus.legacy_unknown ∷ PlanStatus.partial ∷ [])
      then (
        ok tt,
        record s {
          plans =
              update_where (is_plan plan_id)
                (λ (r : PlanRow). record r { lease_owner = none; lease_expires_at = none }) s.plans;
        },
      )
      else (ok tt, s)
]

module _ (loads : String → Option Value) (sort : Values → Values) where
  -- `record_reconciliation_receipt`
  unfoldable pub record_reconciliation_receipt : ℕ → ApplyReceipt → Store → Outcome Store (Unit {0})
  record_reconciliation_receipt now receipt s =
      elim (addressed receipt.plan_id receipt.operation_id) [
        | none ↦ (err (Error.value_error "canonical receipt requires plan_id and operation_id"), s)
        | some (plan_id, operation_id) ↦
            after (prepare loads s)
              (λ _ s'. record_reconciliation_rows sort now receipt plan_id operation_id s')
      ]

module _ (loads : String → Option Value) where
  -- `begin_reconcile`
  unfoldable pub begin_reconcile : ℕ → String → Store → Outcome Store WritePlan
  begin_reconcile now plan_id s = after (prepare loads s) (λ _ s1.
      after (fence now plan_id s1)
        (λ _ s2. returning_plan loads plan_id "plan is not canonically rehydratable" s2))
