-- ===== src/PlanStore/Leases.antt =====
-- At most one executor holds a plan while its lease runs.
use incubator_hugegraph_ai.Prelude.{
  ℕ, ◌+◌, ◌<◌, String, ◌≡◌, ◌≢◌, refl, sym, ap, ◌∙◌, subst, Bool, true, false, ◌&&◌, Option, none,
  some, arith, find-update, find_satisfies, count_where, update_where, Bool-cases, Option-cases,
  inl, inr, leb, Error, ok, err, after, after-eq-ok, Outcome, ◌==◌,
}
use incubator_hugegraph_ai.WritePlan.Status.{PlanStatus, same_status, same_status_refl, member}
use incubator_hugegraph_ai.WritePlan.Value.{Value}
use incubator_hugegraph_ai.WritePlan.Plan.{WritePlan}
use incubator_hugegraph_ai.PlanStore.Rows.{PlanRow, Store, is_plan, find_plan, lease_available}
use incubator_hugegraph_ai.PlanStore.Legacy.{prepare}
use incubator_hugegraph_ai.PlanStore.Plans.{get_plan, returning_plan, read_plan}
use incubator_hugegraph_ai.PlanStore.Claims.{
  claimable_plan, claimed_status, first_time, claim_row, claim_plan, claim_prepared, return_claimed,
  token_or,
}
use incubator_hugegraph_ai.PlanStore.Prepared.{Keeps, prepare-Keeps}

-- the row of a plan once it is claimed
abbrev pub claimed_row : ℕ → String → ℕ → PlanRow → PlanRow
claimed_row now owner lease_seconds r = record r {
  status = claimed_status r.status;
  confirmed_at = some (first_time r.confirmed_at now);
  lease_owner = some owner;
  lease_expires_at = some (now + lease_seconds);
}

-- An election: the plan was open to the caller, and is now leased to it.
pub record Elected (now : ℕ) (plan_id owner : String) (lease_seconds : ℕ) (resume : Bool)
    (s s' : Store) : Type 0 where
  pub row : PlanRow
  pub found : find_plan plan_id s ≡ some row
  pub open_status : member row.status (claimable_plan resume) ≡ true
  pub open_lease : lease_available now row.lease_expires_at ≡ true
  pub leased : find_plan plan_id s' ≡ some (claimed_row now owner lease_seconds row)

abbrev claim_update : ℕ → String → ℕ → PlanStatus → PlanRow → PlanRow
claim_update now owner lease_seconds current r = record r {
  status = claimed_status current;
  confirmed_at = some (first_time r.confirmed_at now);
  lease_owner = some owner;
  lease_expires_at = some (now + lease_seconds);
}

abbrev claim_test : ℕ → Bool → PlanRow → Bool
claim_test now resume row =
    member row.status (claimable_plan resume) && lease_available now row.lease_expires_at

abbrev claim_matches : ℕ → String → PlanRow → PlanRow → Bool
claim_matches now plan_id row r =
    is_plan plan_id r && same_status r.status row.status && lease_available now r.lease_expires_at

module _ (now : ℕ) (plan_id owner : String) (lease_seconds : ℕ) (resume : Bool) (s : Store) where
  claim_row_missing :
      find_plan plan_id s ≡ none
      → claim_row now plan_id owner lease_seconds resume s
        ≡ (err (Error.plan_transition_error "plan was not found"), s)
  unfolding claim_row
  claim_row_missing f = rw (f, claim_row)

  claim_row_closed :
      (row : PlanRow)
      → find_plan plan_id s ≡ some row
      → claim_test now resume row ≡ false
      → claim_row now plan_id owner lease_seconds resume s ≡ (ok false, s)
  unfolding claim_row
  claim_row_closed row f t = rw (f, claim_row) (rw t)

  claim_row_open :
      (row : PlanRow)
      → find_plan plan_id s ≡ some row
      → claim_test now resume row ≡ true
      → claim_row now plan_id owner lease_seconds resume s ≡ (
        ok (count_where (claim_matches now plan_id row) s.plans == 1),
        record s {
          plans =
              update_where
                (claim_matches now plan_id row)
                (claim_update now owner lease_seconds row.status)
                s.plans;
        },
      )
  unfolding claim_row
  claim_row_open row f t = rw (f, claim_row) (rw t)

  claimed-found :
      (row : PlanRow)
      → find_plan plan_id s ≡ some row
      → claim_test now resume row ≡ true
      → find_plan plan_id (claim_row now plan_id owner lease_seconds resume s).1
        ≡ some (claimed_row now owner lease_seconds row)
  claimed-found row f t = rw (claim_row_open row f t) (
      rw
        (
          find-update (is_plan plan_id) (claim_matches now plan_id row)
              (claim_update now owner lease_seconds row.status) s.plans (λ x. ground arith),
          f,
        )
        (ground (arith, find_satisfies (is_plan plan_id) s.plans f, same_status_refl row.status)))

  pub claim_row-Elected :
      (claim_row now plan_id owner lease_seconds resume s).0 ≡ ok true
      → Elected now plan_id owner lease_seconds resume s
          (claim_row now plan_id owner lease_seconds resume s).1
  claim_row-Elected h = elim (Option-cases (find_plan plan_id s)) [
    | inl missing ↦ absurd (cc (rw (claim_row_missing missing) at h))
    | inr (row, f) ↦ elim (Bool-cases (claim_test now resume row)) [
      | inr closed ↦ absurd (cc (rw (claim_row_closed row f closed) at h))
      | inl open_now ↦ record {
        row = row;
        found = f;
        open_status = ground arith;
        open_lease = ground arith;
        leased = claimed-found row f open_now;
      }
    ]
  ]

  -- While a lease runs, a claim elects nobody and changes nothing.
  pub claim_row-leased :
      (row : PlanRow)
      → find_plan plan_id s ≡ some row
      → lease_available now row.lease_expires_at ≡ false
      → claim_row now plan_id owner lease_seconds resume s ≡ (ok false, s)
  claim_row-leased row f l = claim_row_closed row f (ground arith)

module _ (loads : String → Option Value) where
  pub get_plan-Keeps : (plan_id : String) (s : Store) → Keeps s (get_plan loads plan_id s).1
  unfolding get_plan
  get_plan-Keeps plan_id s = settled (prepare loads s) (prepare-Keeps loads s)
    where
      settled :
          (m : Outcome Store (Unit {0}))
          → Keeps s m.1
          → Keeps s (after m (λ _ s'. (read_plan plan_id s', s'))).1
      settled (ok _, t) k = k
      settled (err e, t) k = k

  pub returning_plan-Keeps :
      (plan_id message : String) (s : Store) → Keeps s (returning_plan loads plan_id message s).1
  unfolding returning_plan
  returning_plan-Keeps plan_id message s =
      settled (get_plan loads plan_id s) (get_plan-Keeps plan_id s)
    where
      settled :
          (m : Outcome Store (Option WritePlan))
          → Keeps s m.1
          → Keeps s
              (after m (λ found s'. elim found [
                | none ↦ (err (Error.plan_transition_error message), s')
                | some p ↦ (ok p, s')
              ])).1
      settled (ok none, t) k = k
      settled (ok (some p), t) k = k
      settled (err e, t) k = k

  return_claimed-ok :
      (plan_id : String) (claimed : Bool) (s : Store) {r : WritePlan × Bool}
      → (return_claimed loads plan_id claimed s).0 ≡ ok r
      → (r.1 ≡ claimed) × Keeps s (return_claimed loads plan_id claimed s).1
  unfolding return_claimed
  return_claimed-ok plan_id claimed s h =
      settled (returning_plan loads plan_id "plan disappeared after claim" s)
        (returning_plan-Keeps plan_id "plan disappeared after claim" s) h
    where
      settled :
          (m : Outcome Store WritePlan)
          → Keeps s m.1
          → {r : WritePlan × Bool}
          → (after {B = WritePlan × Bool} m (λ plan s3. (ok (plan, claimed), s3))).0 ≡ ok r
          → (r.1 ≡ claimed)
            × Keeps s (after {B = WritePlan × Bool} m (λ plan s3. (ok (plan, claimed), s3))).1
      settled (ok p, t) k h = (ground arith, k)
      settled (err e, t) k h = absurd (cc h)

  claim_prepared-Elected :
      (now : ℕ) (plan_id owner : String) (lease_seconds : ℕ) (resume : Bool) (s : Store)
      {plan : WritePlan}
      → (claim_prepared loads now plan_id owner lease_seconds resume s).0 ≡ ok (plan, true)
      → Elected now plan_id owner lease_seconds resume s
          (claim_prepared loads now plan_id owner lease_seconds resume s).1
  unfolding claim_prepared
  claim_prepared-Elected now plan_id owner ls resume s h =
      let m = claim_row now plan_id owner ls resume s in
      let (claimed, e, e2) = after-eq-ok m (return_claimed loads plan_id) h in
      let (same, kept) = return_claimed-ok plan_id claimed m.1 (rw e2 at h) in
      let elected = claim_row-Elected now plan_id owner ls resume s (cc (e, same)) in
      record {
        row = elected.row;
        found = elected.found;
        open_status = elected.open_status;
        open_lease = elected.open_lease;
        leased = rw e2 (kept.plan plan_id _ elected.leased);
      }

  claim_plan_runs :
      (now : ℕ) (plan_id : String) (owner : Option String) (fresh : String) (lease_seconds : ℕ)
      (resume : Bool) (s : Store) {r : WritePlan × Bool}
      → (claim_plan loads now plan_id owner fresh lease_seconds resume s).0 ≡ ok r
      → claim_plan loads now plan_id owner fresh lease_seconds resume s
        ≡ claim_prepared loads now plan_id
            (token_or owner fresh)
            lease_seconds
            resume
            (prepare loads s).1
  unfolding claim_plan
  claim_plan_runs now plan_id owner fresh ls resume s h = elim (Bool-cases (leb ls 0)) [
    | inl bad ↦ absurd (cc (rw bad at h))
    | inr good ↦
        let (_, e, e2) =
          after-eq-ok (prepare loads s)
            (λ _ t. claim_prepared loads now plan_id (token_or owner fresh) ls resume t)
            (rw good at h) in
        rw good e2
  ]

  -- A call of `claim_plan` that elects its caller found the plan open to it, with no lease running,
  -- and leaves it leased to the caller's token, executing unless it was partial.
  pub claim_plan-Elected :
      (now : ℕ) (plan_id : String) (owner : Option String) (fresh : String) (lease_seconds : ℕ)
      (resume : Bool) (s : Store) {plan : WritePlan}
      → (claim_plan loads now plan_id owner fresh lease_seconds resume s).0 ≡ ok (plan, true)
      → Elected now plan_id
          (token_or owner fresh)
          lease_seconds
          resume
          (prepare loads s).1
          (claim_plan loads now plan_id owner fresh lease_seconds resume s).1
  claim_plan-Elected now plan_id owner fresh ls resume s h =
      let e = claim_plan_runs now plan_id owner fresh ls resume s h in
      subst
        (λ (o : Outcome Store (WritePlan × Bool)).
          Elected now plan_id (token_or owner fresh) ls resume (prepare loads s).1 o.1)
        (sym e)
        (claim_prepared-Elected now plan_id (token_or owner fresh) ls resume (prepare loads s).1
          (sym (ap (λ (o : Outcome Store (WritePlan × Bool)). o.0) e) ∙ h))

  -- On the store that an election left, no other call of `claim_plan` elects anybody before the
  -- lease runs out, whether it confirms or resumes, and whatever token it brings.
  pub one_executor :
      (now : ℕ) (plan_id : String) (owner : Option String) (fresh : String) (lease_seconds : ℕ)
      (resume : Bool) (s : Store) {plan : WritePlan}
      → (claim_plan loads now plan_id owner fresh lease_seconds resume s).0 ≡ ok (plan, true)
      → (now' : ℕ) (owner' : Option String) (fresh' : String) (lease_seconds' : ℕ) (resume' : Bool)
      → now' < now + lease_seconds
      → (plan' : WritePlan)
      → (claim_plan loads now' plan_id owner' fresh' lease_seconds' resume'
          (claim_plan loads now plan_id owner fresh lease_seconds resume s).1).0
        ≢ ok (plan', true)
  one_executor now plan_id owner fresh ls resume s h now' owner' fresh' ls' resume' early plan'
        again =
      let s' = (claim_plan loads now plan_id owner fresh ls resume s).1 in
      let first = claim_plan-Elected now plan_id owner fresh ls resume s h in
      let second = claim_plan-Elected now' plan_id owner' fresh' ls' resume' s' again in
      still_leased (claimed_row now (token_or owner fresh) ls first.row) second.row
        ((prepare-Keeps loads s').plan plan_id _ first.leased) second.found refl early
        second.open_lease
    where
      still_leased :
          (a b : PlanRow)
          → find_plan plan_id
              (prepare loads (claim_plan loads now plan_id owner fresh ls resume s).1).1
            ≡ some a
          → find_plan plan_id
              (prepare loads (claim_plan loads now plan_id owner fresh ls resume s).1).1
            ≡ some b
          → a.lease_expires_at ≡ some (now + ls)
          → now' < now + ls
          → lease_available now' b.lease_expires_at ≡ true
          → ⊥
      still_leased a b e f g l o = ground arith
