-- ===== src/WriteExecutor/Sending.antt =====
-- Which requests an execution sends, in which order, and when it stops.
use incubator_hugegraph_ai.Prelude.{
  ℕ, suc, String, ◌≡◌, refl, sym, ap, ◌∙◌, subst, Bool, true, false, none, some, List, [], ◌∷◌,
  ◌++◌, append_assoc, append-nil, length, Bool-cases, Option-cases, inl, inr, if◌then◌else◌,
  Outcome, Error, Result, ok, err,
}
use incubator_hugegraph_ai.WritePlan.Status.{PlanStatus, member}
use incubator_hugegraph_ai.WritePlan.Aggregate.{is_success}
use incubator_hugegraph_ai.WritePlan.Plan.{OperationPlan, WritePlan, new_apply_receipt}
use incubator_hugegraph_ai.PlanStore.Rows.{OperationRow}
use incubator_hugegraph_ai.PlanStore.Receipts.{record_receipt}
use incubator_hugegraph_ai.Execution.Registry.{Registry, function_for}
use incubator_hugegraph_ai.Execution.World.{
  World, Services, Dispatch, Action, pure, continue, call, ◌>>=◌,
}
use incubator_hugegraph_ai.WriteExecutor.{
  WriteAdapter, receipt_of, status_of, dispatch, execute_operation, execute_operations,
}

-- The requests of one run of the loop over the operations of a plan: `n` requests were made before.
pub data Run (registry : Registry WriteAdapter) (plan : WritePlan) (claimable : List PlanStatus)
    (rows : List OperationRow) : ℕ → List OperationPlan → List Dispatch → Type 0 where
  stop : (n : ℕ) (os : List OperationPlan) → Run registry plan claimable rows n os []
  skip :
      {n : ℕ} {os : List OperationPlan} {ds : List Dispatch} (o : OperationPlan)
      → Run registry plan claimable rows n os ds
      → Run registry plan claimable rows n (o ∷ os) ds
  last :
      {n : ℕ} (os : List OperationPlan) (o : OperationPlan) (d : Dispatch) (s : PlanStatus)
      → status_of o.operation_id rows ≡ some s
      → member s claimable ≡ true
      → d.operation_id ≡ o.operation_id
      → Run registry plan claimable rows n (o ∷ os) (d ∷ [])
  send :
      {n : ℕ} {os : List OperationPlan} {ds : List Dispatch} (o : OperationPlan) (d : Dispatch)
      (s : PlanStatus) (adapter : WriteAdapter)
      → status_of o.operation_id rows ≡ some s
      → member s claimable ≡ true
      → d.operation_id ≡ o.operation_id
      → function_for o.kind registry ≡ some adapter
      → is_success (receipt_of plan.plan_id o d.attempt (adapter plan o d.attempt n)).status ≡ true
      → Run registry plan claimable rows (suc n) os ds
      → Run registry plan claimable rows n (o ∷ os) (d ∷ ds)

-- What one operation sends: nothing, with an exception, or one request, and then it says whether
-- the answer was a success.
pub data Sent (plan : WritePlan) (adapter : WriteAdapter) (o : OperationPlan)
    (before : List Dispatch) : Outcome World Bool → Type 0 where
  blocked :
      (e : Error) (w' : World) → w'.dispatched ≡ before → Sent plan adapter o before (err e, w')
  failed :
      (e : Error) (w' : World) (d : Dispatch)
      → d.operation_id ≡ o.operation_id
      → w'.dispatched ≡ before ++ d ∷ []
      → Sent plan adapter o before (err e, w')
  answered :
      (w' : World) (d : Dispatch)
      → d.operation_id ≡ o.operation_id
      → w'.dispatched ≡ before ++ d ∷ []
      → Sent plan adapter o before (
        ok (
            is_success
              (receipt_of plan.plan_id o d.attempt
                (adapter plan o d.attempt (length before))).status),
        w',
      )

module _ (v : Services) (registry : Registry WriteAdapter) (lease_seconds : ℕ) where
  -- what `execute_operation` does once the operation is claimed
  abbrev submit : WritePlan → String → WriteAdapter → OperationPlan → String → ℕ → Action Bool
  submit plan owner adapter o token attempt =
      dispatch v registry lease_seconds adapter plan o attempt >>= λ r.
      call v (λ now s.
        record_receipt v.loads v.sort now
          (new_apply_receipt (record r { attempt_token = some token })) (some owner) (some token) s)
      >>= λ _.
          pure (is_success (new_apply_receipt (record r { attempt_token = some token })).status)

  recorded :
      (plan : WritePlan) (adapter : WriteAdapter) (o : OperationPlan) (before : List Dispatch)
      (w' : World) (d : Dispatch)
      → d.operation_id ≡ o.operation_id
      → w'.dispatched ≡ before ++ d ∷ []
      → (m : Result (Unit {0}))
      → Sent plan adapter o before (
          continue m w' (λ _. pure (
            is_success
              (receipt_of plan.plan_id o d.attempt
                (adapter plan o d.attempt (length before))).status)))
  recorded plan adapter o before w' d i e (ok _) = answered w' d i e
  recorded plan adapter o before w' d i e (err x) = failed x w' d i e

  submit-Sent :
      (plan : WritePlan) (owner : String) (adapter : WriteAdapter) (o : OperationPlan)
      (token : String) (attempt : ℕ) (w : World)
      → Sent plan adapter o w.dispatched (submit plan owner adapter o token attempt w)
  unfolding dispatch new_apply_receipt
  submit-Sent plan owner adapter o token attempt w =
      recorded plan adapter o w.dispatched _
        (record { operation_id = o.operation_id; attempt = attempt }) refl refl _

  claimed-Sent :
      (plan : WritePlan) (owner : String) (adapter : WriteAdapter) (o : OperationPlan)
      (token : String) (before : List Dispatch) (m : Result ℕ) (w : World)
      → w.dispatched ≡ before
      → Sent plan adapter o before (continue m w (submit plan owner adapter o token))
  claimed-Sent plan owner adapter o token before (ok n) w e =
      subst (λ (b : List Dispatch). Sent plan adapter o b (submit plan owner adapter o token n w)) e
        (submit-Sent plan owner adapter o token n w)
  claimed-Sent plan owner adapter o token before (err x) w e = blocked x w e

  execute_operation-Sent :
      (plan : WritePlan) (owner : String) (adapter : WriteAdapter) (o : OperationPlan) (w : World)
      → Sent plan adapter o w.dispatched
          (execute_operation v registry lease_seconds plan owner adapter o w)
  unfolding execute_operation
  execute_operation-Sent plan owner adapter o w =
      claimed-Sent plan owner adapter o (v.uuid w.draws) w.dispatched _ _ refl

length_snoc : {A : Type 0} (xs : List A) (x : A) → length (xs ++ x ∷ []) ≡ suc (length xs)
length_snoc [] x = refl
length_snoc (y ∷ ys) x = ap suc (length_snoc ys x)

module _ (registry : Registry WriteAdapter) (plan : WritePlan) (claimable : List PlanStatus)
    (rows : List OperationRow) where
  -- The requests that are added form a run.
  abbrev pub Extends : List OperationPlan → List Dispatch → List Dispatch → Type 0
  Extends os before sent =
      (ds : List Dispatch) × (sent ≡ before ++ ds)
      × Run registry plan claimable rows (length before) os ds

  unsent :
      (os : List OperationPlan) (before sent : List Dispatch)
      → sent ≡ before
      → Extends os before sent
  unsent os before sent e = ([], e ∙ sym (append-nil before), stop (length before) os)

  skipped :
      (o : OperationPlan) (os : List OperationPlan) (before : List Dispatch) {sent : List Dispatch}
      → Extends os before sent
      → Extends (o ∷ os) before sent
  skipped o os before (ds, e, run) = (ds, e, skip o run)

  continued :
      (rest : Action (Unit {0})) (o : OperationPlan) (os : List OperationPlan) (s : PlanStatus)
      (adapter : WriteAdapter) (before : List Dispatch)
      → status_of o.operation_id rows ≡ some s
      → member s claimable ≡ true
      → function_for o.kind registry ≡ some adapter
      → ((w : World) → Extends os w.dispatched (rest w).1.dispatched)
      → (r : Outcome World Bool) → Sent plan adapter o before r
      → Extends
          (o ∷ os)
          before
          (continue r.0 r.1 (λ goes_on. if goes_on then rest else pure tt)).1.dispatched
  continued rest o os s adapter before f m g k _ (blocked e w' same) = unsent (o ∷ os) before _ same
  continued rest o os s adapter before f m g k _ (failed e w' d i grown) =
      (d ∷ [], grown, last os o d s f m i)
  continued rest o os s adapter before f m g k _ (answered w' d i grown) =
      let success =
        is_success
          (receipt_of plan.plan_id o d.attempt (adapter plan o d.attempt (length before))).status in
      elim (Bool-cases success) [
        | inr failure ↦ rw failure (d ∷ [], grown, last os o d s f m i)
        | inl fine ↦
            let (ds, e, run) = k w' in
            rw fine (
              d ∷ ds,
              e ∙ ap (λ (b : List Dispatch). b ++ ds) grown ∙ append_assoc before (d ∷ []) ds,
              send o d s adapter f m i g fine (
                  subst (λ (n : ℕ). Run registry plan claimable rows n os ds)
                    (ap length grown ∙ length_snoc before d) run),
            )
      ]

module _ (v : Services) (registry : Registry WriteAdapter) (lease_seconds : ℕ) (plan : WritePlan)
    (claimable : List PlanStatus) (owner : String) (rows : List OperationRow) where
  abbrev loop : List OperationPlan → Action (Unit {0})
  loop os = execute_operations v registry lease_seconds plan claimable owner rows os

  loop_skips :
      (o : OperationPlan) (os : List OperationPlan) (s : PlanStatus)
      → status_of o.operation_id rows ≡ some s
      → member s claimable ≡ false
      → loop (o ∷ os) ≡ loop os
  unfolding execute_operations
  loop_skips o os s f m = rw (f, m, execute_operations) refl

  loop_unknown :
      (o : OperationPlan) (os : List OperationPlan) (w : World)
      → status_of o.operation_id rows ≡ none
      → (loop (o ∷ os) w).1 ≡ w
  unfolding execute_operations
  loop_unknown o os w f = rw (f, execute_operations) refl

  loop_unadapted :
      (o : OperationPlan) (os : List OperationPlan) (s : PlanStatus) (w : World)
      → status_of o.operation_id rows ≡ some s
      → member s claimable ≡ true
      → function_for o.kind registry ≡ none
      → (loop (o ∷ os) w).1 ≡ w
  unfolding execute_operations
  loop_unadapted o os s w f m g = rw (f, m, g, execute_operations) refl

  loop_executes :
      (o : OperationPlan) (os : List OperationPlan) (s : PlanStatus) (adapter : WriteAdapter)
      → status_of o.operation_id rows ≡ some s
      → member s claimable ≡ true
      → function_for o.kind registry ≡ some adapter
      → loop (o ∷ os) ≡ (
          execute_operation v registry lease_seconds plan owner adapter o >>= λ goes_on.
          if goes_on then loop os else pure tt)
  unfolding execute_operations
  loop_executes o os s adapter f m g = rw (f, m, g, execute_operations) refl

  -- The requests that `_execute_claimed` sends are for claimable operations of the plan, in the
  -- plan's order, each at most once; every request but the last was answered with a success.
  pub execution_is_a_run :
      (os : List OperationPlan) (w : World)
      → Extends registry plan claimable rows os w.dispatched (loop os w).1.dispatched
  unfolding execute_operations
  execution_is_a_run [] w = unsent registry plan claimable rows [] w.dispatched _ refl
  execution_is_a_run (o ∷ os) w = elim (Option-cases (status_of o.operation_id rows)) [
    | inl f ↦
        unsent registry plan claimable rows (o ∷ os) w.dispatched _
          (ap (λ (x : World). x.dispatched) (loop_unknown o os w f))
    | inr (s, f) ↦ elim (Bool-cases (member s claimable)) [
      | inr m ↦
          subst
            (λ (a : Action (Unit {0})).
              Extends registry plan claimable rows (o ∷ os) w.dispatched (a w).1.dispatched)
            (sym (loop_skips o os s f m))
            (skipped registry plan claimable rows o os w.dispatched (execution_is_a_run os w))
      | inl m ↦ elim (Option-cases (function_for o.kind registry)) [
        | inl g ↦
            unsent registry plan claimable rows (o ∷ os) w.dispatched _
              (ap (λ (x : World). x.dispatched) (loop_unadapted o os s w f m g))
        | inr (adapter, g) ↦
            subst
              (λ (a : Action (Unit {0})).
                Extends registry plan claimable rows (o ∷ os) w.dispatched (a w).1.dispatched)
              (sym (loop_executes o os s adapter f m g))
              (continued registry plan claimable rows (loop os) o os s adapter w.dispatched f m g
                (λ w'. execution_is_a_run os w')
                (execute_operation v registry lease_seconds plan owner adapter o w)
                (execute_operation-Sent v registry lease_seconds plan owner adapter o w))
      ]
    ]
  ]
