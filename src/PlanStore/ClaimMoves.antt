-- ===== src/PlanStore/ClaimMoves.antt =====
-- The moves of plans under claim_plan, claim_operation, begin_reconcile and transition_plan.
use incubator_hugegraph_ai.Prelude.{
  ℕ, String, ◌≡◌, refl, sym, subst, Bool, true, false, not, ◌&&◌, Option, none, some, [], ◌∷◌,
  if◌then◌else◌, if_lem, ◌==◌, count_where, Outcome, err, Error, Bool-cases, Option-cases, inl, inr,
  arith,
}
use incubator_hugegraph_ai.WritePlan.Status.{
  PlanStatus, can_transition, same_status, same_status_sound, member,
}
use incubator_hugegraph_ai.WritePlan.Lifecycle.{Reach, here, next}
use incubator_hugegraph_ai.PlanStore.Rows.{
  PlanRow, OperationRow, Store, is_plan, find_plan, find_operation, lease_available,
}
use incubator_hugegraph_ai.PlanStore.Plans.{transition_row}
use incubator_hugegraph_ai.PlanStore.Claims.{
  token_or, text_of, owned_by, lease_live, claimable_operation, claimable_plan, claimed_status,
  claim_row, start_attempt, claim_operation_row,
}
use incubator_hugegraph_ai.PlanStore.Reconciliation.{fence}
use incubator_hugegraph_ai.PlanStore.Moves.{Moves, Moves-refl, update-Moves}

both_of : (a b : Bool) → (a && b) ≡ true → (a ≡ true) × (b ≡ true)
both_of a b h = (ground arith, ground arith)

middle : (a b c : Bool) → (a && b && c) ≡ true → b ≡ true
middle a b c h = ground arith

legal_from :
    (st expected target : PlanStatus)
    → same_status st expected ≡ true
    → can_transition expected target ≡ true
    → Reach st target
legal_from st expected target e h =
    subst (λ (t : PlanStatus). Reach t target) (sym (same_status_sound st expected e)) (next here h)

pub transition_row-Moves :
    (now : ℕ) (plan_id : String) (expected target : PlanStatus) (s : Store)
    → can_transition expected target ≡ true
    → Moves s (transition_row now plan_id expected target s).1
unfolding transition_row
transition_row-Moves now plan_id expected target s h =
    let matches : PlanRow → Bool = λ r. is_plan plan_id r && same_status r.status expected in
    elim (Bool-cases (count_where matches s.plans == 1)) [
      | inl e ↦ rw e (
          update-Moves s _ matches _ refl (λ x. refl)
            (λ i r g q. legal_from r.status expected target (both_of (is_plan plan_id r) _ q).1 h))
      | inr e ↦ rw e (Moves-refl s)
    ]

claim_legal :
    (resume : Bool) (st : PlanStatus)
    → member st (claimable_plan resume) ≡ true
    → Reach st (claimed_status st)
unfolding can_transition
claim_legal resume PlanStatus.issued h = next here refl
claim_legal resume PlanStatus.retryable_not_applied h = next here refl
claim_legal resume PlanStatus.partial h = here
claim_legal resume PlanStatus.executing h = here
claim_legal true PlanStatus.applied h = absurd (cc h)
claim_legal false PlanStatus.applied h = absurd (cc h)
claim_legal true PlanStatus.already_applied h = absurd (cc h)
claim_legal false PlanStatus.already_applied h = absurd (cc h)
claim_legal true PlanStatus.rejected h = absurd (cc h)
claim_legal false PlanStatus.rejected h = absurd (cc h)
claim_legal true PlanStatus.conflict h = absurd (cc h)
claim_legal false PlanStatus.conflict h = absurd (cc h)
claim_legal true PlanStatus.unknown h = absurd (cc h)
claim_legal false PlanStatus.unknown h = absurd (cc h)
claim_legal true PlanStatus.legacy_unknown h = absurd (cc h)
claim_legal false PlanStatus.legacy_unknown h = absurd (cc h)
claim_legal true PlanStatus.expired h = absurd (cc h)
claim_legal false PlanStatus.expired h = absurd (cc h)

pub claim_row-Moves :
    (now : ℕ) (plan_id owner : String) (lease_seconds : ℕ) (resume : Bool) (s : Store)
    → Moves s (claim_row now plan_id owner lease_seconds resume s).1
unfolding claim_row
claim_row-Moves now plan_id owner lease_seconds resume s =
    elim (Option-cases (find_plan plan_id s)) [
      | inl e ↦ rw (e, claim_row) (Moves-refl s)
      | inr (row, e) ↦
          let free = lease_available now row.lease_expires_at in
          elim (Bool-cases (member row.status (claimable_plan resume) && free)) [
            | inl c ↦
                rw (e, claim_row)
                  (rw c (
                    update-Moves s _ _ _ refl (λ x. refl)
                      (λ i r g q.
                        subst (λ (st : PlanStatus). Reach st (claimed_status row.status))
                          (sym (
                            same_status_sound r.status row.status
                              (middle (is_plan plan_id r) _ _ q)))
                          (claim_legal resume row.status (both_of _ free c).0))))
            | inr c ↦ rw (e, claim_row) (rw c (Moves-refl s))
          ]
    ]

pub fence-Moves : (now : ℕ) (plan_id : String) (s : Store) → Moves s (fence now plan_id s).1
unfolding fence can_transition
fence-Moves now plan_id s = elim (Option-cases (find_plan plan_id s)) [
  | inl e ↦ rw (e, fence) (Moves-refl s)
  | inr (row, e) ↦
      let P : Outcome Store (Unit {0}) → Type 0 = λ o. Moves s o.1 in
      rw (e, fence)
        (if_lem P (not (lease_available now row.lease_expires_at)) (λ a. Moves-refl s)
          (λ a.
            if_lem P (same_status row.status PlanStatus.executing)
              (λ b.
                update-Moves s _ _ _ refl (λ x. refl)
                  (λ i r g q.
                    legal_from r.status PlanStatus.executing PlanStatus.unknown
                      (middle (is_plan plan_id r) _ _ q) refl))
              (λ b.
                if_lem P
                  (member row.status
                    (PlanStatus.unknown ∷ PlanStatus.legacy_unknown ∷ PlanStatus.partial ∷ []))
                  (λ c. update-Moves s _ _ _ refl (λ x. refl) (λ i r g q. here))
                  (λ c. Moves-refl s))))
]

start_attempt-Moves :
    (now : ℕ) (plan_id operation_id owner token : String) (lease_seconds : ℕ) (row : OperationRow)
    (s : Store)
    → Moves s (start_attempt now plan_id operation_id owner token lease_seconds row s).1
unfolding start_attempt
start_attempt-Moves now plan_id operation_id owner token lease_seconds row s =
    let renews : PlanRow → Bool =
      λ r. is_plan plan_id r && owned_by owner r.lease_owner && lease_live now r.lease_expires_at in
    if_lem (λ (o : Outcome Store ℕ). Moves s o.1) (count_where renews s.plans == 1)
      (λ a. update-Moves s _ renews _ refl (λ x. refl) (λ i r g q. here)) (λ a. Moves-refl s)

pub claim_operation_row-Moves :
    (now : ℕ) (plan_id operation_id : String) (owner_token : Option String) (token : String)
    (lease_seconds : ℕ) (s : Store)
    → Moves s (claim_operation_row now plan_id operation_id owner_token token lease_seconds s).1
unfolding claim_operation_row
claim_operation_row-Moves now plan_id operation_id owner_token token lease_seconds s =
    let P : Outcome Store ℕ → Type 0 = λ o. Moves s o.1 in
    elim (Option-cases (find_plan plan_id s)) [
      | inl e ↦ rw (e, claim_operation_row) (Moves-refl s)
      | inr (plan, e) ↦
          let owner = token_or owner_token (text_of plan.lease_owner) in
          rw (e, claim_operation_row)
            (if_lem P (not (lease_live now plan.lease_expires_at)) (λ a. Moves-refl s)
              (λ a.
                if_lem P (not (owned_by owner plan.lease_owner)) (λ b. Moves-refl s)
                  (λ b.
                    elim (find_operation plan_id operation_id s)
                      as (λ o. P (elim o [
                        | none ↦ (err (Error.plan_transition_error "operation is not claimable"), s)
                        | some row ↦
                            if not (member row.status claimable_operation)
                            then (err (Error.plan_transition_error "operation is not claimable"), s)
                            else start_attempt now plan_id operation_id owner token lease_seconds
                                row s
                      ])) [
                        | none ↦ Moves-refl s
                        | some row ↦
                            if_lem P (not (member row.status claimable_operation))
                              (λ c. Moves-refl s)
                              (λ c.
                                start_attempt-Moves now plan_id operation_id owner token
                                  lease_seconds row s)
                      ])))
    ]
