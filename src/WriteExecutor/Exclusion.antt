-- ===== src/WriteExecutor/Exclusion.antt =====
-- While one execution holds the lease of a plan, no other sends a request.
use incubator_hugegraph_ai.Prelude.{
  ℕ, suc, String, ◌≡◌, Bool, true, false, Option, some, arith, inl, inr, after, Outcome, ok, err,
}
use incubator_hugegraph_ai.PlanStore.Rows.{PlanRow, Store, find_plan, lease_available}
use incubator_hugegraph_ai.PlanStore.Claims.{lease_live}
use incubator_hugegraph_ai.PlanStore.Legacy.{prepare}
use incubator_hugegraph_ai.PlanStore.Plans.{PlanRecord, get_plan, get_plan_record}
use incubator_hugegraph_ai.PlanStore.Prepared.{Keeps, Keeps-trans, prepare-Keeps}
use incubator_hugegraph_ai.PlanStore.Leases.{claim_plan-Elected, get_plan-Keeps}
use incubator_hugegraph_ai.Execution.Registry.{Registry}
use incubator_hugegraph_ai.Execution.World.{World, Services}
use incubator_hugegraph_ai.Execution.Status.{get_record}
use incubator_hugegraph_ai.WriteExecutor.{WriteAdapter, confirm, resume}
use incubator_hugegraph_ai.WriteExecutor.Election.{IsElection, confirming, confirm_elects}
use incubator_hugegraph_ai.WriteExecutor.Resumption.{resuming, resume_elects}

get_record-Keeps :
    (v : Services) (plan_id : String) (s : Store) → Keeps s (get_record v plan_id s).1
unfolding get_record
get_record-Keeps v plan_id s = settled (prepare v.loads s) (prepare-Keeps v.loads s)
  where
    settled :
        (m : Outcome Store (Unit {0}))
        → Keeps s m.1
        → Keeps s
            (after {B = Option PlanRecord} m (λ _ s'. (ok (get_plan_record plan_id s'), s'))).1
    settled (ok _, t) k = k
    settled (err e, t) k = k

module _ (v : Services) (registry : Registry WriteAdapter) (lease_seconds : ℕ)
    (plan_id : String) where
  -- An election is not won where the plan is under a lease.
  lost :
      (resumed : Bool) (row : PlanRow) (w : World) (s : Store)
      → find_plan plan_id s ≡ some row
      → lease_live (v.clock w.readings) row.lease_expires_at ≡ true
      → Keeps s w.store
      → IsElection v registry lease_seconds plan_id resumed w
      → ⊥
  lost resumed row w s f live kept won =
      let a =
        claim_plan-Elected v.loads (v.clock w.readings) plan_id (some (v.uuid w.draws))
          (v.uuid w.draws) lease_seconds resumed w.store won.elected in
      leased a.row ((prepare-Keeps v.loads w.store).plan plan_id row (kept.plan plan_id row f))
        a.found a.open_lease
    where
      leased :
          (y : PlanRow) {o : Option PlanRow}
          → o ≡ some row
          → o ≡ some y
          → lease_available (v.clock w.readings) y.lease_expires_at ≡ true
          → ⊥
      leased y e g k = ground arith

  -- If a plan is under a lease that still runs at the next two readings of the clock, `confirm` and
  -- `resume` send no request for it.
  pub leased_sends_nothing :
      (row : PlanRow) (w : World)
      → find_plan plan_id w.store ≡ some row
      → lease_live (v.clock w.readings) row.lease_expires_at ≡ true
      → lease_live (v.clock (suc w.readings)) row.lease_expires_at ≡ true
      → ((confirm v registry lease_seconds plan_id w).1.dispatched ≡ w.dispatched)
        × ((resume v registry lease_seconds plan_id w).1.dispatched ≡ w.dispatched)
  leased_sends_nothing row w f live still_live =
      let read = get_plan-Keeps v.loads plan_id w.store in
      (
        elim (confirm_elects v registry lease_seconds plan_id w) [
          | inl quiet ↦ quiet
          | inr c ↦ absurd (
              lost false row (confirming v registry lease_seconds plan_id w) w.store f still_live
                read c.election)
        ],
        elim (resume_elects v registry lease_seconds plan_id w) [
          | inl quiet ↦ quiet
          | inr c ↦ absurd (
              lost true row (resuming v registry lease_seconds plan_id w) w.store f live
                (Keeps-trans read (get_record-Keeps v plan_id (get_plan v.loads plan_id w.store).1))
                c.election)
        ],
      )
