-- ===== src/PlanStore/Refinement.antt =====
-- The plan store implements the state machine of write_plan.py: under any calls of its methods, other
-- than record_reconciliation_receipt, the status of a plan takes a run of legal transitions.
use incubator_hugegraph_ai.Prelude.{
  ℕ, String, ◌≡◌, ap, ◌∙◌, Bool, not, Option, none, some, List, [], ◌∷◌, ◌++◌, leb, if_lem, any,
  find, find-append, or_else, Outcome, after, ok, err, Error, arith,
}
use incubator_hugegraph_ai.WritePlan.Status.{PlanStatus, can_transition}
use incubator_hugegraph_ai.WritePlan.Value.{Value, Values}
use incubator_hugegraph_ai.WritePlan.Plan.{WritePlan, ApplyReceipt}
use incubator_hugegraph_ai.WritePlan.Lifecycle.{Reach, here}
use incubator_hugegraph_ai.PlanStore.Rows.{PlanRow, OperationRow, Store, is_plan, find_plan}
use incubator_hugegraph_ai.PlanStore.Legacy.{prepare}
use incubator_hugegraph_ai.PlanStore.Prepared.{prepare-Keeps}
use incubator_hugegraph_ai.PlanStore.Plans.{
  get_plan, read_plan, returning_plan, transition_row, transition_plan, plan_row_of,
  insert_operations, save_rows, save_plan,
}
use incubator_hugegraph_ai.PlanStore.Claims.{
  token_or, claim_row, return_claimed, claim_prepared, claim_plan, claim_operation,
}
use incubator_hugegraph_ai.PlanStore.Receipts.{addressed, record_receipt_rows, record_receipt}
use incubator_hugegraph_ai.PlanStore.Reconciliation.{fence, begin_reconcile}
use incubator_hugegraph_ai.PlanStore.Moves.{Moves, Moves-refl, Moves-trans, Keeps-Moves}
use incubator_hugegraph_ai.PlanStore.ClaimMoves.{
  transition_row-Moves, claim_row-Moves, fence-Moves, claim_operation_row-Moves,
}
use incubator_hugegraph_ai.PlanStore.ReceiptMoves.{record_receipt_rows-Moves}

after-Moves :
    {A B : Type 0} (s : Store) (m : Outcome Store A) (k : A → Store → Outcome Store B)
    → Moves s m.1
    → ((a : A) (t : Store) → Moves t (k a t).1)
    → Moves s (after m k).1
after-Moves s (ok a, t) k h f = Moves-trans h (f a t)
after-Moves s (err e, t) k h f = h

-- a call of a method, with the readings of the clock and the fresh tokens that it draws
pub data StoreCall : Type 0 where
  save : WritePlan → StoreCall
  get : String → StoreCall
  transition : ℕ → String → PlanStatus → PlanStatus → StoreCall
  claim : ℕ → String → Option String → String → ℕ → Bool → StoreCall
  claim_an_operation : ℕ → String → String → Option String → Option String → String → ℕ → StoreCall
  receipt : ℕ → ApplyReceipt → Option String → Option String → StoreCall
  reconcile : ℕ → String → StoreCall

module _ (loads : String → Option Value) (sort : Values → Values) where
  -- the store that a call leaves, whether it returned or raised
  abbrev pub call : StoreCall → Store → Store
  call (save p) s = (save_plan sort loads p s).1
  call (get i) s = (get_plan loads i s).1
  call (transition now i expected target) s = (transition_plan loads now i expected target s).1
  call (claim now i owner fresh lease resume) s =
      (claim_plan loads now i owner fresh lease resume s).1
  call (claim_an_operation now i j owner token fresh lease) s =
      (claim_operation loads now i j owner token fresh lease s).1
  call (receipt now r owner token) s = (record_receipt loads sort now r owner token s).1
  call (reconcile now i) s = (begin_reconcile loads now i s).1

  unfoldable pub run_calls : List StoreCall → Store → Store
  run_calls [] s = s
  run_calls (c ∷ cs) s = run_calls cs (call c s)

  prepare-Moves : (s : Store) → Moves s (prepare loads s).1
  prepare-Moves s = Keeps-Moves (prepare-Keeps loads s)

  prepared :
      {A : Type 0} (s : Store) (k : Store → Outcome Store A)
      → ((t : Store) → Moves t (k t).1)
      → Moves s (after (prepare loads s) (λ _ t. k t)).1
  prepared s k h = after-Moves s (prepare loads s) (λ _ t. k t) (prepare-Moves s) (λ _ t. h t)

  get_plan-Moves : (plan_id : String) (s : Store) → Moves s (get_plan loads plan_id s).1
  unfolding get_plan
  get_plan-Moves plan_id s = prepared s (λ t. (read_plan plan_id t, t)) (λ t. Moves-refl t)

  found_or_raised :
      (message : String) (found : Option WritePlan) (t : Store)
      → Moves t
          (let o : Outcome Store WritePlan = elim found [
            | none ↦ (err (Error.plan_transition_error message), t)
            | some p ↦ (ok p, t)
          ] in
            o).1
  found_or_raised message none t = Moves-refl t
  found_or_raised message (some p) t = Moves-refl t

  returning_plan-Moves :
      (plan_id message : String) (s : Store) → Moves s (returning_plan loads plan_id message s).1
  unfolding returning_plan
  returning_plan-Moves plan_id message s =
      after-Moves s (get_plan loads plan_id s) _ (get_plan-Moves plan_id s)
        (found_or_raised message)

  appended-Moves :
      (p : WritePlan) (s : Store) (rows : List OperationRow)
      → Moves s (record s { plans = s.plans ++ plan_row_of sort p ∷ []; operations = rows })
  appended-Moves p s rows = record {
    moved = λ i r e. (
      r,
      find-append (is_plan i) s.plans (plan_row_of sort p ∷ [])
          ∙ ap (λ o. or_else o (find (is_plan i) (plan_row_of sort p ∷ []))) e,
      here,
    );
  }

  save_rows-Moves : (p : WritePlan) (s : Store) → Moves s (save_rows sort p s).1
  unfolding save_rows
  save_rows-Moves p s =
      let P : Outcome Store (Unit {0}) → Type 0 = λ o. Moves s o.1 in
      if_lem P (any (is_plan p.plan_id) s.plans) (λ e. Moves-refl s)
        (λ e.
          elim (insert_operations sort p 0 p.operations s.operations)
            as (λ r. P (elim r [
              | err x ↦ (err x, s)
              | ok rows ↦ (
                ok tt,
                record s { plans = s.plans ++ plan_row_of sort p ∷ []; operations = rows },
              )
            ])) [ err x ↦ Moves-refl s | ok rows ↦ appended-Moves p s rows ])

  call-Moves : (c : StoreCall) (s : Store) → Moves s (call c s)
  unfolding save_plan transition_plan return_claimed claim_prepared claim_plan claim_operation
      record_receipt begin_reconcile
  call-Moves (save p) s = prepared s (save_rows sort p) (save_rows-Moves p)
  call-Moves (get i) s = get_plan-Moves i s
  call-Moves (transition now i expected target) s =
      if_lem (λ (o : Outcome Store WritePlan). Moves s o.1) (not (can_transition expected target))
        (λ e. Moves-refl s)
        (λ e. prepared s _ (λ t.
          after-Moves t (transition_row now i expected target t) _
            (transition_row-Moves now i expected target t (ground arith))
            (λ _ u. returning_plan-Moves i "plan disappeared after transition" u)))
  call-Moves (claim now i owner fresh lease resume) s =
      if_lem (λ (o : Outcome Store (WritePlan × Bool)). Moves s o.1) (leb lease 0)
        (λ e. Moves-refl s)
        (λ e. prepared s _ (λ t.
          after-Moves t (claim_row now i (token_or owner fresh) lease resume t) _
            (claim_row-Moves now i (token_or owner fresh) lease resume t)
            (λ claimed u.
              after-Moves u (returning_plan loads i "plan disappeared after claim" u) _
                (returning_plan-Moves i "plan disappeared after claim" u) (λ p v. Moves-refl v))))
  call-Moves (claim_an_operation now i j owner token fresh lease) s =
      if_lem (λ (o : Outcome Store ℕ). Moves s o.1) (leb lease 0) (λ e. Moves-refl s)
        (λ e.
          prepared s _
            (λ t. claim_operation_row-Moves now i j owner (token_or token fresh) lease t))
  call-Moves (receipt now r owner token) s =
      elim (addressed r.plan_id r.operation_id)
        as (λ a.
          Moves s
            (let o : Outcome Store (Unit {0}) = elim a [
              | none ↦
                  (err (Error.value_error "canonical receipt requires plan_id and operation_id"), s)
              | some (i, j) ↦
                  after (prepare loads s) (λ _ t. record_receipt_rows sort now r i j owner token t)
            ] in
              o).1) [
                | none ↦ Moves-refl s
                | some (i, j) ↦
                    prepared s _ (λ t. record_receipt_rows-Moves sort now r i j owner token t)
              ]
  call-Moves (reconcile now i) s = prepared s _ (λ t.
      after-Moves t (fence now i t) _ (fence-Moves now i t)
        (λ _ u. returning_plan-Moves i "plan is not canonically rehydratable" u))

  run_calls-Moves : (cs : List StoreCall) (s : Store) → Moves s (run_calls cs s)
  unfolding run_calls
  run_calls-Moves [] s = Moves-refl s
  run_calls-Moves (c ∷ cs) s = Moves-trans (call-Moves c s) (run_calls-Moves cs (call c s))

  -- The store refines the state machine of plans: after any calls of save_plan, get_plan,
  -- transition_plan, claim_plan, claim_operation, record_receipt and begin_reconcile, in any order,
  -- with any clock readings and whether they return or raise, a plan that was in the store is in it
  -- still, and its status is one that a run of the transitions of ALLOWED_PLAN_TRANSITIONS reaches
  -- from the status that it had.
  pub store_refines_lifecycle :
      (cs : List StoreCall) (s : Store) (plan_id : String) (r : PlanRow)
      → find_plan plan_id s ≡ some r
      → (r' : PlanRow) × (find_plan plan_id (run_calls cs s) ≡ some r') × Reach r.status r'.status
  store_refines_lifecycle cs s plan_id r e = (run_calls-Moves cs s).moved plan_id r e
