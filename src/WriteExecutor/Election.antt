-- ===== src/WriteExecutor/Election.antt =====
-- An execution is elected, and a resumed one was reconciled.
use incubator_hugegraph_ai.Prelude.{
  ℕ, suc, String, ◌≡◌, ◌⊎◌, refl, ◌∙◌, is_some, Bool, true, false, not, ◌&&◌, Option, none, some,
  [], ◌∷◌, Bool-cases, inl, inr, if◌then◌else◌, ltb, Outcome, Error, Result, ok, err,
}
use incubator_hugegraph_ai.Envelope.{ErrorType, envelope_err}
use incubator_hugegraph_ai.WritePlan.Status.{PlanStatus, same_status}
use incubator_hugegraph_ai.WritePlan.Plan.{WritePlan}
use incubator_hugegraph_ai.PlanStore.Rows.{Store}
use incubator_hugegraph_ai.PlanStore.Plans.{PlanRecord, get_plan}
use incubator_hugegraph_ai.PlanStore.Claims.{claim_plan}
use incubator_hugegraph_ai.Execution.Registry.{Registry}
use incubator_hugegraph_ai.Execution.World.{
  World, Services, Action, pure, continue, caught, read_clock, ◌>>=◌,
}
use incubator_hugegraph_ai.Execution.Status.{
  PlanReply, nothing, missing_operation_kinds, get_record, status_clock, status_reply, status,
  confirmation_reply, confirmation_result,
}
use incubator_hugegraph_ai.WriteExecutor.{
  WriteAdapter, missing_kinds, kinds_listed, is_none, execute_claimed, claim_and_execute, expire,
  confirm, resume,
}

-- an action that sends no request
abbrev pub Quiet : {A : Type 0} → Action A → Type 0
Quiet m = (w : World) → (m w).1.dispatched ≡ w.dispatched

continue-Quiet :
    {A B : Type 0} (r : Result A) (w : World) (f : A → Action B)
    → ((a : A) → Quiet (f a))
    → (continue r w f).1.dispatched ≡ w.dispatched
continue-Quiet (ok a) w f h = h a w
continue-Quiet (err e) w f h = refl

module _ (v : Services) where
  status_clock-Quiet : (found : Option PlanRecord) → Quiet (status_clock v found)
  status_clock-Quiet none w = refl
  status_clock-Quiet (some r) w =
      elim (Bool-cases
        (same_status r.row.status PlanStatus.executing && is_some r.row.lease_expires_at)) [
          | inl timed ↦ rw timed refl
          | inr untimed ↦ rw untimed refl
        ]

  status-Quiet : (plan_id : String) → Quiet (status v plan_id)
  unfolding status
  status-Quiet plan_id w =
      continue-Quiet (get_record v plan_id w.store).0
        (record w { store = (get_record v plan_id w.store).1 })
        (λ found. status_clock v found >>= λ now. pure (status_reply now found))
        (λ found w'.
          continue-Quiet (status_clock v found w').0 (status_clock v found w').1
            (λ now. pure (status_reply now found)) (λ now w''. refl)
          ∙ status_clock-Quiet found w')

  confirmation_result-Quiet : (plan_id : String) → Quiet (confirmation_result v plan_id)
  unfolding confirmation_result
  confirmation_result-Quiet plan_id w =
      continue-Quiet (status v plan_id w).0 (status v plan_id w).1
        (λ r. pure (confirmation_reply r)) (λ r w'. refl)
      ∙ status-Quiet plan_id w

module _ (v : Services) (registry : Registry WriteAdapter) (lease_seconds : ℕ)
    (plan_id : String) where
  -- A call of `claim_plan` at a world, with the token that the world draws next.
  abbrev pub election : Bool → World → Outcome Store (WritePlan × Bool)
  election resume w =
      let owner = v.uuid w.draws in
      claim_plan v.loads (v.clock w.readings) plan_id (some owner) owner lease_seconds resume
        w.store

  -- A world at which the call elects its caller.
  pub record IsElection (resume : Bool) (w : World) : Type 0 where
    pub plan : WritePlan
    pub elected : (election resume w).0 ≡ ok (plan, true)

  claimed_quiet :
      (m : Result (WritePlan × Bool)) (w : World) (owner : String)
      → ((plan : WritePlan) × (m ≡ ok (plan, true)))
        ⊎ ((let (r, w') = caught m w in
              continue r w' (λ claimed. elim claimed [
                | none ↦ confirmation_result v plan_id
                | some (plan, elected) ↦
                    if elected
                    then execute_claimed v registry lease_seconds plan
                        (PlanStatus.issued ∷ [])
                        owner
                    else confirmation_result v plan_id
              ])).1.dispatched
            ≡ w.dispatched)
  claimed_quiet (ok (p, true)) w owner = inl (p, refl)
  claimed_quiet (ok (p, false)) w owner = inr (confirmation_result-Quiet v plan_id w)
  claimed_quiet (err (Error.plan_transition_error m)) w owner =
      inr (confirmation_result-Quiet v plan_id w)
  claimed_quiet (err (Error.value_error m)) w owner = inr refl
  claimed_quiet (err (Error.integrity_error m)) w owner = inr refl
  claimed_quiet (err Error.assertion_error) w owner = inr refl
  claimed_quiet (err Error.attribute_error) w owner = inr refl
  claimed_quiet (err Error.confirmation_already_used_error) w owner = inr refl
  claimed_quiet (err Error.confirmation_not_issued_error) w owner = inr refl
  claimed_quiet (err Error.confirmation_plan_mismatch_error) w owner = inr refl
  claimed_quiet (err Error.confirmation_plan_expired_error) w owner = inr refl
  claimed_quiet (err Error.confirmation_store_unavailable_error) w owner = inr refl
  claimed_quiet (err (Error.plan_store_unavailable_error m)) w owner = inr refl
  claimed_quiet (err (Error.runtime_error m)) w owner = inr refl
  claimed_quiet (err (Error.key_error m)) w owner = inr refl
  claimed_quiet (err Error.overflow_error) w owner = inr refl

  claim_and_execute_elects :
      (w : World)
      → IsElection false w
        ⊎ ((claim_and_execute v registry lease_seconds plan_id w).1.dispatched ≡ w.dispatched)
  unfolding claim_and_execute
  claim_and_execute_elects w =
      elim (claimed_quiet (election false w).0
        (record w { store = (election false w).1; readings = suc w.readings; draws = suc w.draws })
        (v.uuid w.draws)) [
          | inl (p, e) ↦ inl (record { plan = p; elected = e })
          | inr same ↦ inr same
        ]

  expire-Quiet : Quiet (expire v registry lease_seconds plan_id)
  unfolding expire
  expire-Quiet w = continue-Quiet _ _ _ (λ _ w'. confirmation_result-Quiet v plan_id w')

  -- the world of `confirm` when it claims the plan
  abbrev pub confirming : World → World
  confirming w = record w {
    store = (get_plan v.loads plan_id w.store).1;
    readings = suc w.readings;
  }

  -- What a `confirm` that sends a request found.
  pub record Confirming (w : World) : Type 0 where
    pub plan : WritePlan
    pub found : (get_plan v.loads plan_id w.store).0 ≡ ok (some plan)
    pub in_time :
        (ltb plan.expires_at (v.clock w.readings) && same_status plan.status PlanStatus.issued)
        ≡ false
    pub adapted : is_none (missing_kinds registry plan.operations) ≡ true
    pub election : IsElection false (confirming w)

  -- the rest of `confirm` once it has read the plan and the clock
  abbrev confirm_at : ℕ → WritePlan → Action PlanReply
  confirm_at now plan =
      if ltb plan.expires_at now && same_status plan.status PlanStatus.issued
      then expire v registry lease_seconds plan_id
      else if not (is_none (missing_kinds registry plan.operations))
      then pure (
          envelope_err ErrorType.feature_disabled
            (missing_operation_kinds (kinds_listed (missing_kinds registry plan.operations))))
      else claim_and_execute v registry lease_seconds plan_id

  confirm_at_elects :
      (w : World) (plan : WritePlan)
      → (get_plan v.loads plan_id w.store).0 ≡ ok (some plan)
      → ((confirm_at (v.clock w.readings) plan (confirming w)).1.dispatched ≡ w.dispatched)
        ⊎ Confirming w
  confirm_at_elects w plan found =
      elim (Bool-cases
        (ltb plan.expires_at (v.clock w.readings) && same_status plan.status PlanStatus.issued)) [
          | inl over ↦ rw over (inl (expire-Quiet (confirming w)))
          | inr in_time ↦ elim (Bool-cases (is_none (missing_kinds registry plan.operations))) [
            | inr lacking ↦ rw (in_time, lacking) (inl refl)
            | inl adapted ↦ elim (claim_and_execute_elects (confirming w)) [
              | inl chosen ↦ inr (record {
                plan = plan;
                found = found;
                in_time = in_time;
                adapted = adapted;
                election = chosen;
              })
              | inr same ↦ rw (in_time, adapted) (inl same)
            ]
          ]
        ]

  confirm_found :
      (m : Result (Option WritePlan)) (w : World)
      → (get_plan v.loads plan_id w.store).0 ≡ m
      → ((continue {B = PlanReply} m
            (record w { store = (get_plan v.loads plan_id w.store).1 })
            (λ found. elim found [
              | none ↦ pure (envelope_err ErrorType.not_found nothing)
              | some plan ↦ read_clock v >>= λ now. confirm_at now plan
            ])).1.dispatched
          ≡ w.dispatched)
        ⊎ Confirming w
  confirm_found (err e) w found = inl refl
  confirm_found (ok none) w found = inl refl
  confirm_found (ok (some plan)) w found = confirm_at_elects w plan found

  -- A call of `confirm` sends no request, unless it found the plan, not both issued and past its
  -- expiry, with an adapter for every kind of operation, and `claim_plan` elected this very call.
  pub confirm_elects :
      (w : World)
      → ((confirm v registry lease_seconds plan_id w).1.dispatched ≡ w.dispatched) ⊎ Confirming w
  unfolding confirm
  confirm_elects w = confirm_found _ w refl
