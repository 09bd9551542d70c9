-- ===== src/PlanStore/ReceiptMoves.antt =====
-- The moves of plans under record_receipt.
use incubator_hugegraph_ai.Prelude.{
  ℕ, String, ◌≡◌, refl, sym, ap, ◌∙◌, subst, true, false, not, ◌&&◌, Option, none, some, str_eq_iff,
  if_lem, ◌==◌, count_where, find, find_satisfies, Outcome, Bool-cases, Option-cases, inl, inr,
  arith,
}
use incubator_hugegraph_ai.WritePlan.Status.{
  PlanStatus, can_transition, same_status, same_status_sound,
}
use incubator_hugegraph_ai.WritePlan.Value.{Values}
use incubator_hugegraph_ai.WritePlan.Plan.{ApplyReceipt}
use incubator_hugegraph_ai.WritePlan.Lifecycle.{Reach, here, next}
use incubator_hugegraph_ai.PlanStore.Rows.{
  PlanRow, OperationRow, Store, is_plan, find_plan, find_operation, text_or,
}
use incubator_hugegraph_ai.PlanStore.Fencing.{joined, no_operation, no_plan}
use incubator_hugegraph_ai.PlanStore.Receipts.{
  fits, receives, write_receipt, aggregate_persisted_statuses, statuses_of, settle, receive,
  record_receipt_rows,
}
use incubator_hugegraph_ai.PlanStore.Moves.{Moves, Moves-refl, Moves-trans, update-Moves}

-- the row that is found for a plan, by whatever text names it
same_row :
    (s : Store) (plan_id i : String) (plan r : PlanRow)
    → find_plan plan_id s ≡ some plan
    → find_plan i s ≡ some r
    → is_plan plan_id r ≡ true
    → r.status ≡ plan.status
same_row s plan_id i plan r found g q =
    let a = (str_eq_iff r.plan_id plan_id).0 q in
    let b = (str_eq_iff r.plan_id i).0 (find_satisfies (is_plan i) s.plans g) in
    let same : find_plan plan_id s ≡ some r =
      subst (λ (k : String). find_plan k s ≡ some r) (sym b ∙ a) g in
    ap status_of_row (sym same ∙ found)
  where
    status_of_row : Option PlanRow → PlanStatus
    status_of_row none = PlanStatus.issued
    status_of_row (some x) = x.status

legal_settle :
    (st aggregate : PlanStatus)
    → (not (same_status st aggregate) && not (can_transition st aggregate)) ≡ false
    → Reach st aggregate
legal_settle st aggregate h = elim (Bool-cases (same_status st aggregate)) [
  | inl e ↦ subst (Reach st) (same_status_sound st aggregate e) here
  | inr e ↦ next here (ground (arith, e))
]

settle-Moves :
    (sort : Values → Values) (receipt : ApplyReceipt) (plan_id : String) (plan : PlanRow)
    (before s : Store)
    → find_plan plan_id s ≡ some plan
    → Moves s before
    → Moves s (settle sort receipt plan_id plan.status before s).1
unfolding settle
settle-Moves sort receipt plan_id plan before s found back =
    let aggregate = aggregate_persisted_statuses (statuses_of plan_id s) in
    if_lem (λ (o : Outcome Store (Unit {0})). Moves s o.1)
      (not (same_status plan.status aggregate) && not (can_transition plan.status aggregate))
      (λ a. back)
      (λ a.
        update-Moves s _ _ _ refl (λ x. refl)
          (λ i r g q.
            subst (λ (st : PlanStatus). Reach st aggregate)
              (sym (same_row s plan_id i plan r found g q)) (legal_settle plan.status aggregate a)))

same_plans-Moves : (s t : Store) → t.plans ≡ s.plans → Moves s t
same_plans-Moves s t e = record { moved = λ i r g. (r, ap (find (is_plan i)) e ∙ g, here) }

receive-Moves :
    (sort : Values → Values) (now : ℕ) (receipt : ApplyReceipt) (plan_id operation_id : String)
    (owner_token attempt_token : Option String) (o : OperationRow) (p : PlanRow) (s : Store)
    → find_plan plan_id s ≡ some p
    → Moves s (receive sort now receipt plan_id operation_id owner_token attempt_token o p s).1
unfolding receive write_receipt
receive-Moves sort now receipt plan_id operation_id owner_token attempt_token o p s g =
    let P : Outcome Store (Unit {0}) → Type 0 = λ x. Moves s x.1 in
    let owner = text_or owner_token p.lease_owner in
    let token = text_or attempt_token (text_or receipt.attempt_token o.attempt_token) in
    let written = write_receipt sort receipt plan_id operation_id token s in
    if_lem P (not (fits now receipt owner token o p)) (λ a. Moves-refl s)
      (λ a.
        if_lem P
          (not
            (count_where (receives plan_id operation_id receipt.attempt token) s.operations == 1))
          (λ b. Moves-refl s)
          (λ b.
            Moves-trans (same_plans-Moves s written refl)
              (settle-Moves sort receipt plan_id p s written g (same_plans-Moves written s refl))))

pub record_receipt_rows-Moves :
    (sort : Values → Values) (now : ℕ) (receipt : ApplyReceipt) (plan_id operation_id : String)
    (owner_token attempt_token : Option String) (s : Store)
    → Moves s
        (record_receipt_rows sort now receipt plan_id operation_id owner_token attempt_token s).1
record_receipt_rows-Moves sort now receipt plan_id operation_id owner_token attempt_token s =
    let P : Outcome Store (Unit {0}) → Type 0 = λ x. Moves s x.1 in
    elim (Option-cases (find_operation plan_id operation_id s)) [
      | inl f ↦
          subst P
            (sym (no_operation sort now receipt plan_id operation_id owner_token attempt_token s f))
            (Moves-refl s)
      | inr (o, f) ↦ elim (Option-cases (find_plan plan_id s)) [
        | inl g ↦
            subst P
              (sym
                (no_plan sort now receipt plan_id operation_id owner_token attempt_token s o f g))
              (Moves-refl s)
        | inr (p, g) ↦
            subst P
              (sym
                (joined sort now receipt plan_id operation_id owner_token attempt_token s o p f g))
              (receive-Moves sort now receipt plan_id operation_id owner_token attempt_token o p s
                g)
      ]
    ]
