-- ===== src/WriteExecutor/Resumption.antt =====
-- A resumed execution is elected, and was reconciled.
use incubator_hugegraph_ai.Prelude.{
  arith, List, Memᴰ, ◌||◌, any_witness, all-mem, ℕ, suc, String, ◌≡◌, ◌⊎◌, refl, Bool, true, false,
  not, Option, none, some, [], ◌∷◌, Bool-cases, inl, inr, if◌then◌else◌, Error, Result, ok, err,
}
use incubator_hugegraph_ai.Envelope.{ErrorType, envelope_err}
use incubator_hugegraph_ai.WritePlan.Status.{PlanStatus, member, same_status_sound}
use incubator_hugegraph_ai.WritePlan.Plan.{WritePlan}
use incubator_hugegraph_ai.PlanStore.Rows.{OperationRow}
use incubator_hugegraph_ai.PlanStore.Plans.{PlanRecord, get_plan}
use incubator_hugegraph_ai.Execution.Registry.{Registry}
use incubator_hugegraph_ai.Execution.World.{
  World, Services, Action, pure, raise, continue, query, ◌>>=◌,
}
use incubator_hugegraph_ai.Execution.Status.{PlanReply, missing_operation_kinds, get_record}
use incubator_hugegraph_ai.WriteExecutor.{
  WriteAdapter, missing_kinds, kinds_listed, is_none, execute_claimed, resumable, resumable_row,
  retryable_row, retryable_operations, claim_and_resume, resume, both,
}
use incubator_hugegraph_ai.WriteExecutor.Election.{election, IsElection}

-- An operation of which nothing is left to do, or that was reconciled as not applied.
pub data IsResumable (r : OperationRow) : Type 0 where
  was_applied : r.status ≡ PlanStatus.applied → IsResumable r
  was_already_applied : r.status ≡ PlanStatus.already_applied → IsResumable r
  was_reconciled : r.status ≡ PlanStatus.retryable_not_applied → r.reconciled ≡ true → IsResumable r

resumable_status :
    (s : PlanStatus)
    → member s
        (PlanStatus.applied ∷ PlanStatus.already_applied ∷ PlanStatus.retryable_not_applied ∷ [])
      ≡ true
    → (s ≡ PlanStatus.applied)
      ⊎ ((s ≡ PlanStatus.already_applied) ⊎ (s ≡ PlanStatus.retryable_not_applied))
resumable_status s h = ground arith

module _ (v : Services) (registry : Registry WriteAdapter) (lease_seconds : ℕ)
    (plan_id : String) where
  -- the world of `resume` when it claims the plan
  abbrev pub resuming : World → World
  resuming w = record w { store = (get_record v plan_id (get_plan v.loads plan_id w.store).1).1 }

  resumable_row-IsResumable :
      (r : OperationRow)
      → resumable_row v registry lease_seconds r ≡ true
      → (not (retryable_row v registry lease_seconds r) || r.reconciled) ≡ true
      → IsResumable r
  resumable_row-IsResumable r h k = elim (resumable_status r.status h) [
    | inl e ↦ was_applied e
    | inr (inl e) ↦ was_already_applied e
    | inr (inr e) ↦ was_reconciled e (ground (arith, e))
  ]

  rows-IsResumable :
      (status : PlanStatus) (rows : List OperationRow)
      → resumable v registry lease_seconds status rows ≡ true
      → ((r : OperationRow) → Memᴰ r rows → IsResumable r)
        × ((r : OperationRow) × Memᴰ r rows × (r.status ≡ PlanStatus.retryable_not_applied))
  unfolding resumable
  rows-IsResumable status rows h =
      let (x, m, e) = any_witness (retryable_row v registry lease_seconds) rows (ground arith) in
      (
        (λ r n.
            resumable_row-IsResumable r
              (all-mem (resumable_row v registry lease_seconds) n (ground arith))
              (all-mem
                (λ (y : OperationRow).
                  not (retryable_row v registry lease_seconds y) || y.reconciled)
                n (ground arith))),
        (x, m, same_status_sound x.status _ e),
      )

  -- What a `resume` that sends a request found.
  pub record Resuming (w : World) : Type 0 where
    pub plan : WritePlan
    pub stored : PlanRecord
    pub found : (get_plan v.loads plan_id w.store).0 ≡ ok (some plan)
    pub recorded : (get_record v plan_id (get_plan v.loads plan_id w.store).1).0 ≡ ok (some stored)
    pub reconciled : resumable v registry lease_seconds plan.status stored.operations ≡ true
    pub all_resumable : (r : OperationRow) → Memᴰ r stored.operations → IsResumable r
    pub left_over :
        (r : OperationRow) × Memᴰ r stored.operations
        × (r.status ≡ PlanStatus.retryable_not_applied)
    pub adapted :
        is_none (
          missing_kinds registry
            (retryable_operations v registry lease_seconds stored.operations plan.operations))
        ≡ true
    pub election : IsElection v registry lease_seconds plan_id true (resuming w)

  resume_claimed :
      (m : Result (WritePlan × Bool)) (w : World) (owner : String)
      → ((plan : WritePlan) × (m ≡ ok (plan, true)))
        ⊎ ((continue {B = PlanReply} m w (λ claimed.
              if claimed.1
              then execute_claimed v registry lease_seconds claimed.0
                  (PlanStatus.retryable_not_applied ∷ [])
                  owner
              else raise (
                  Error.plan_transition_error
                    "resumable plan could not be exclusively leased"))).1.dispatched
            ≡ w.dispatched)
  resume_claimed (ok (p, true)) w owner = inl (p, refl)
  resume_claimed (ok (p, false)) w owner = inr refl
  resume_claimed (err e) w owner = inr refl

  claim_and_resume_elects :
      (w : World)
      → IsElection v registry lease_seconds plan_id true w
        ⊎ ((claim_and_resume v registry lease_seconds plan_id w).1.dispatched ≡ w.dispatched)
  unfolding claim_and_resume
  claim_and_resume_elects w =
      elim (resume_claimed (election v registry lease_seconds plan_id true w).0
        (record w {
          store = (election v registry lease_seconds plan_id true w).1;
          readings = suc w.readings;
          draws = suc w.draws;
        })
        (v.uuid w.draws)) [
          | inl (p, e) ↦ inl (record { plan = p; elected = e })
          | inr same ↦ inr same
        ]

  -- the rest of `resume` once it has read the plan and its record
  abbrev resume_at : WritePlan → PlanRecord → Action PlanReply
  resume_at plan r =
      if not (resumable v registry lease_seconds plan.status r.operations)
      then raise (
          Error.plan_transition_error
            "resume requires reconciled operations whose remaining state is RETRYABLE_NOT_APPLIED")
      else let missing =
          missing_kinds registry
            (retryable_operations v registry lease_seconds r.operations plan.operations) in
        if not (is_none missing)
        then pure (
            envelope_err ErrorType.feature_disabled
              (missing_operation_kinds (kinds_listed missing)))
        else claim_and_resume v registry lease_seconds plan_id

  resume_at_elects :
      (w : World) (plan : WritePlan) (r : PlanRecord)
      → (get_plan v.loads plan_id w.store).0 ≡ ok (some plan)
      → (get_record v plan_id (get_plan v.loads plan_id w.store).1).0 ≡ ok (some r)
      → ((resume_at plan r (resuming w)).1.dispatched ≡ w.dispatched) ⊎ Resuming w
  resume_at_elects w plan r found recorded =
      let missing =
        missing_kinds registry
          (retryable_operations v registry lease_seconds r.operations plan.operations) in
      elim (Bool-cases (resumable v registry lease_seconds plan.status r.operations)) [
        | inr undecided ↦ rw undecided (inl refl)
        | inl decided ↦ elim (Bool-cases (is_none missing)) [
          | inr lacking ↦ rw (decided, lacking) (inl refl)
          | inl adapted ↦ elim (claim_and_resume_elects (resuming w)) [
            | inl chosen ↦ inr (record {
              plan = plan;
              stored = r;
              found = found;
              recorded = recorded;
              reconciled = decided;
              all_resumable = (rows-IsResumable plan.status r.operations decided).0;
              left_over = (rows-IsResumable plan.status r.operations decided).1;
              adapted = adapted;
              election = chosen;
            })
            | inr same ↦ rw (decided, adapted) (inl same)
          ]
        ]
      ]

  -- the rest of `resume` on what it has read
  abbrev resume_both : Option WritePlan → Option PlanRecord → Action PlanReply
  resume_both found stored = elim (both v registry lease_seconds found stored) [
    | none ↦
        raise
          (Error.plan_transition_error "resume requires a reconciled RETRYABLE_NOT_APPLIED plan")
    | some (plan, r) ↦ resume_at plan r
  ]

  resume_recorded :
      (found : Option WritePlan) (m : Result (Option PlanRecord)) (w : World)
      → (get_plan v.loads plan_id w.store).0 ≡ ok found
      → (get_record v plan_id (get_plan v.loads plan_id w.store).1).0 ≡ m
      → ((continue {B = PlanReply} m (resuming w) (resume_both found)).1.dispatched ≡ w.dispatched)
        ⊎ Resuming w
  resume_recorded found (err e) w e1 e2 = inl refl
  resume_recorded none (ok r) w e1 e2 = inl refl
  resume_recorded (some plan) (ok none) w e1 e2 = inl refl
  resume_recorded (some plan) (ok (some r)) w e1 e2 = resume_at_elects w plan r e1 e2

  resume_found :
      (m : Result (Option WritePlan)) (w : World)
      → (get_plan v.loads plan_id w.store).0 ≡ m
      → ((continue {B = PlanReply} m
            (record w { store = (get_plan v.loads plan_id w.store).1 })
            (λ found. query v (λ s. get_record v plan_id s) >>= resume_both found)).1.dispatched
          ≡ w.dispatched)
        ⊎ Resuming w
  resume_found (err e) w e1 = inl refl
  resume_found (ok found) w e1 = resume_recorded found _ w e1 refl

  -- A call of `resume` sends no request, unless it found a plan whose operations are all applied,
  -- already applied or reconciled as not applied, one at least being not applied, with an adapter
  -- for every one to be replayed, and `claim_plan` elected this very call.
  pub resume_elects :
      (w : World)
      → ((resume v registry lease_seconds plan_id w).1.dispatched ≡ w.dispatched) ⊎ Resuming w
  unfolding resume
  resume_elects w = resume_found _ w refl
