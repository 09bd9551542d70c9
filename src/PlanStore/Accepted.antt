-- ===== src/PlanStore/Accepted.antt =====
-- What an accepted receipt was, and why it is accepted once.
use incubator_hugegraph_ai.Prelude.{
  ℕ, String, ◌≡◌, ◌≢◌, ◌⊎◌, refl, sym, ap, ◌∙◌, subst, true, ◌&&◌, Option, none, some, List, arith,
  find, find-update, find_satisfies, update_where, Bool-cases, Option-cases, inl, inr, ok, Outcome,
  if◌then◌else◌, ◌==◌,
}
use incubator_hugegraph_ai.WritePlan.Status.{
  ApplyStatus, PlanStatus, same_status, same_status_sound, can_transition, to_plan_status,
}
use incubator_hugegraph_ai.WritePlan.Aggregate.{is_success}
use incubator_hugegraph_ai.WritePlan.Value.{Values}
use incubator_hugegraph_ai.WritePlan.Plan.{ApplyReceipt}
use incubator_hugegraph_ai.PlanStore.Rows.{
  PlanRow, OperationRow, Store, is_plan, is_operation, find_plan, find_operation, operations_of,
  text_or, number_or, same_text,
}
use incubator_hugegraph_ai.PlanStore.Claims.{lease_live}
use incubator_hugegraph_ai.PlanStore.Receipts.{
  aggregate_persisted_statuses, statuses_of, fits, goes_on, receives, received, write_receipt,
  settle, record_receipt_rows,
}
use incubator_hugegraph_ai.PlanStore.Fencing.{
  outcome, joined, no_operation, no_plan, receive-fits, receive_settles,
}

-- An accepted receipt: the rows that it met, the fence that it passed and the rows that it left.
pub record Accepted (sort : Values → Values) (now : ℕ) (receipt : ApplyReceipt)
    (plan_id operation_id : String) (owner_token attempt_token : Option String) (s s' : Store)
    : Type 0 where
  pub operation : OperationRow
  pub plan : PlanRow
  pub after_operation : OperationRow
  pub after_plan : PlanRow
  pub found_operation : find_operation plan_id operation_id s ≡ some operation
  pub found_plan : find_plan plan_id s ≡ some plan
  pub in_flight : operation.status ≡ PlanStatus.executing
  pub same_attempt : (operation.attempt == receipt.attempt) ≡ true
  pub fenced :
      same_text operation.attempt_token
        (text_or attempt_token (text_or receipt.attempt_token operation.attempt_token))
      ≡ true
  pub owned : same_text plan.lease_owner (text_or owner_token plan.lease_owner) ≡ true
  pub leased : lease_live now plan.lease_expires_at ≡ true
  pub written : find_operation plan_id operation_id s' ≡ some after_operation
  pub outcome_status : after_operation.status ≡ to_plan_status receipt.status
  pub settled : find_plan plan_id s' ≡ some after_plan
  pub aggregated : after_plan.status ≡ aggregate_persisted_statuses (statuses_of plan_id s')
  pub legal :
      (plan.status ≡ after_plan.status) ⊎ (can_transition plan.status after_plan.status ≡ true)

module _ (sort : Values → Values) (receipt : ApplyReceipt) (plan_id : String) where
  write-plans :
      (operation_id : String) (token : Option String) (s : Store)
      → (write_receipt sort receipt plan_id operation_id token s).plans ≡ s.plans
  unfolding write_receipt
  write-plans operation_id token s = refl

  write-operation :
      (operation_id : String) (token : Option String) (s : Store) (o : OperationRow)
      → find_operation plan_id operation_id s ≡ some o
      → receives plan_id operation_id receipt.attempt token o ≡ true
      → find_operation plan_id operation_id
          (write_receipt sort receipt plan_id operation_id token s)
        ≡ some (received sort receipt (number_or receipt.committed_at 0) o)
  unfolding write_receipt
  write-operation operation_id token s o f m =
      rw
        (
          find-update (is_operation plan_id operation_id)
              (receives plan_id operation_id receipt.attempt token)
              (received sort receipt (number_or receipt.committed_at 0)) s.operations
              (λ x. ground arith),
          f,
        )
        (ground arith)

  -- what `settle` makes of a plan row
  abbrev settled_row : Store → PlanRow → PlanRow
  settled_row s r =
      let aggregate = aggregate_persisted_statuses (statuses_of plan_id s) in
      let keep_lease = is_success receipt.status && goes_on aggregate in
      record r {
        status = aggregate;
        lease_owner = if keep_lease then r.lease_owner else none;
        lease_expires_at = if keep_lease then r.lease_expires_at else none;
      }

  pub settle_ok :
      (current : PlanStatus) (before s : Store)
      → (settle sort receipt plan_id current before s).0 ≡ ok tt
      → let aggregate = aggregate_persisted_statuses (statuses_of plan_id s) in
        (settle sort receipt plan_id current before s
          ≡ (ok tt, record s { plans = update_where (is_plan plan_id) (settled_row s) s.plans }))
        × ((current ≡ aggregate) ⊎ (can_transition current aggregate ≡ true))
  unfolding settle
  settle_ok current before s h =
      let aggregate = aggregate_persisted_statuses (statuses_of plan_id s) in
      elim (Bool-cases (same_status current aggregate)) [
        | inl same ↦ (rw same refl, inl (same_status_sound current aggregate same))
        | inr differs ↦ elim (Bool-cases (can_transition current aggregate)) [
          | inl allowed ↦ (rw (differs, allowed) refl, inr allowed)
          | inr refused ↦ absurd (cc (rw (differs, refused) at h))
        ]
      ]

  settled-found :
      (s : Store) (p : PlanRow)
      → find_plan plan_id s ≡ some p
      → find_plan plan_id
          (record s { plans = update_where (is_plan plan_id) (settled_row s) s.plans })
        ≡ some (settled_row s p)
  settled-found s p g =
      rw
        (
          find-update (is_plan plan_id) (is_plan plan_id) (settled_row s) s.plans
              (λ x. ground arith),
          g,
        )
        (ground (arith, find_satisfies (is_plan plan_id) s.plans g))

  -- the statuses are read from the operations alone
  statuses-plans :
      (s : Store) (plans : List PlanRow)
      → statuses_of plan_id (record s { plans = plans }) ≡ statuses_of plan_id s
  unfolding operations_of
  statuses-plans s plans = refl

module _ (sort : Values → Values) (now : ℕ) (receipt : ApplyReceipt) (plan_id operation_id : String)
    (owner_token attempt_token : Option String) (s : Store) where
  settle-Accepted :
      (o : OperationRow) (p : PlanRow)
      → let owner = text_or owner_token p.lease_owner in
        let token = text_or attempt_token (text_or receipt.attempt_token o.attempt_token) in
        let t = write_receipt sort receipt plan_id operation_id token s in
        find_operation plan_id operation_id s ≡ some o
        → find_plan plan_id s ≡ some p
        → fits now receipt owner token o p ≡ true
        → (settle sort receipt plan_id p.status s t).0 ≡ ok tt
        → Accepted sort now receipt plan_id operation_id owner_token attempt_token s (record t {
          plans = update_where (is_plan plan_id) (settled_row sort receipt plan_id t) t.plans;
        })
  unfolding fits
  settle-Accepted o p f g fit h =
      let token = text_or attempt_token (text_or receipt.attempt_token o.attempt_token) in
      let t = write_receipt sort receipt plan_id operation_id token s in
      record {
        operation = o;
        plan = p;
        after_operation = received sort receipt (number_or receipt.committed_at 0) o;
        after_plan = settled_row sort receipt plan_id t p;
        found_operation = f;
        found_plan = g;
        in_flight = same_status_sound o.status PlanStatus.executing (ground arith);
        same_attempt = ground arith;
        fenced = ground arith;
        owned = ground arith;
        leased = ground arith;
        written =
            write-operation sort receipt plan_id operation_id token s o f
              (ground (arith, find_satisfies (is_operation plan_id operation_id) s.operations f));
        outcome_status = refl;
        settled = settled-found sort receipt plan_id t p (
            ap (find (is_plan plan_id)) (write-plans sort receipt plan_id operation_id token s)
            ∙ g);
        aggregated =
            ap aggregate_persisted_statuses (sym (statuses-plans sort receipt plan_id t _));
        legal = (settle_ok sort receipt plan_id p.status s t h).1;
      }

  -- A receipt that `record_receipt` accepts was for the attempt in flight: its operation was
  -- executing, at the receipt's attempt and under the attempt token that the call or the receipt
  -- gives, if either does, in a plan under a live lease of the owner that the call gives, if it does. It leaves the operation at the receipt's status and the plan at the
  -- aggregate of its operations, which is the plan's status before or a legal transition from it.
  pub record_receipt_rows-Accepted :
      (outcome sort now receipt plan_id operation_id owner_token attempt_token s).0 ≡ ok tt
      → Accepted sort now receipt plan_id operation_id owner_token attempt_token s
          (outcome sort now receipt plan_id operation_id owner_token attempt_token s).1
  record_receipt_rows-Accepted h = elim (Option-cases (find_operation plan_id operation_id s)) [
    | inl f ↦
        absurd
          (cc (no_operation sort now receipt plan_id operation_id owner_token attempt_token s f))
    | inr (o, f) ↦ elim (Option-cases (find_plan plan_id s)) [
      | inl g ↦
          absurd
            (cc (no_plan sort now receipt plan_id operation_id owner_token attempt_token s o f g))
      | inr (p, g) ↦ accepted o p f g
    ]
  ]
    where
      accepted :
          (o : OperationRow) (p : PlanRow)
          → find_operation plan_id operation_id s ≡ some o
          → find_plan plan_id s ≡ some p
          → Accepted sort now receipt plan_id operation_id owner_token attempt_token s
              (outcome sort now receipt plan_id operation_id owner_token attempt_token s).1
      accepted o p f g =
          let token = text_or attempt_token (text_or receipt.attempt_token o.attempt_token) in
          let t = write_receipt sort receipt plan_id operation_id token s in
          let e =
            joined sort now receipt plan_id operation_id owner_token attempt_token s o p f g in
          let h1 = sym (ap (λ (x : Outcome Store (Unit {0})). x.0) e) ∙ h in
          let e2 =
            receive_settles sort now receipt plan_id operation_id owner_token attempt_token s o p
              h1 in
          let h2 = sym (ap (λ (x : Outcome Store (Unit {0})). x.0) e2) ∙ h1 in
          let fit =
            receive-fits sort now receipt plan_id operation_id owner_token attempt_token s o p h1 in
          subst
            (λ (x : Outcome Store (Unit {0})).
              Accepted sort now receipt plan_id operation_id owner_token attempt_token s x.1)
            (sym (e ∙ e2 ∙ (settle_ok sort receipt plan_id p.status s t h2).0))
            (settle-Accepted o p f g fit h2)

-- On the store that an accepted receipt left, every further receipt for the same operation is
-- refused, whichever attempt, status, token and owner it names, and at any time.
pub accepted_once :
    (sort : Values → Values) (now : ℕ) (receipt : ApplyReceipt) (plan_id operation_id : String)
    (owner_token attempt_token : Option String) (s : Store)
    → (record_receipt_rows sort now receipt plan_id operation_id owner_token attempt_token s).0
      ≡ ok tt
    → (now' : ℕ) (receipt' : ApplyReceipt) (owner' token' : Option String)
    → (record_receipt_rows sort now' receipt' plan_id operation_id owner' token'
        (record_receipt_rows sort now receipt plan_id operation_id owner_token attempt_token s).1).0
      ≢ ok tt
unfolding to_plan_status
accepted_once sort now receipt plan_id operation_id owner token s h now' receipt' owner' token'
      again =
    let s' = (record_receipt_rows sort now receipt plan_id operation_id owner token s).1 in
    let first =
      record_receipt_rows-Accepted sort now receipt plan_id operation_id owner token s h in
    let second =
      record_receipt_rows-Accepted sort now' receipt' plan_id operation_id owner' token' s' again in
    not_in_flight receipt.status first.after_operation second.operation first.written
      second.found_operation first.outcome_status second.in_flight
  where
    not_in_flight :
        (a : ApplyStatus) (x y : OperationRow) {o : Option OperationRow}
        → o ≡ some x
        → o ≡ some y
        → x.status ≡ to_plan_status a
        → y.status ≡ PlanStatus.executing
        → ⊥
    not_in_flight a x y e f g i = ground arith
