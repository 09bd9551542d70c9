-- ===== src/PlanStore/Attempts.antt =====
-- What a claimed operation is, and which receipts it goes on to refuse.
use incubator_hugegraph_ai.Prelude.{
  ℕ, suc, ◌+◌, String, ◌≡◌, ◌≢◌, refl, sym, ap, ◌∙◌, subst, Bool, true, false, ◌&&◌, Option, none,
  some, arith, find-update, find_satisfies, update_where, count_where, Bool-cases, Option-cases,
  inl, inr, Error, ok, err, Outcome, if◌then◌else◌, ◌==◌, not,
}
use incubator_hugegraph_ai.WritePlan.Status.{PlanStatus, member}
use incubator_hugegraph_ai.PlanStore.Rows.{
  PlanRow, OperationRow, Store, is_plan, is_operation, find_plan, find_operation,
}
use incubator_hugegraph_ai.PlanStore.Claims.{
  lease_live, owned_by, token_or, text_of, claimable_operation, start_attempt, claim_operation_row,
}

abbrev pub attempted_row : ℕ → String → OperationRow → OperationRow
attempted_row now token r = record r {
  status = PlanStatus.executing;
  attempt = suc r.attempt;
  attempt_token = some token;
  reconciled = false;
  updated_at = now;
}

-- A started attempt: the lease that allowed it, the operation before and after.
pub record Started (now : ℕ) (plan_id operation_id : String) (owner_token : Option String)
    (token : String) (lease_seconds : ℕ) (s s' : Store) (attempt : ℕ) : Type 0 where
  pub plan : PlanRow
  pub operation : OperationRow
  pub found_plan : find_plan plan_id s ≡ some plan
  pub leased : lease_live now plan.lease_expires_at ≡ true
  pub owned : owned_by (token_or owner_token (text_of plan.lease_owner)) plan.lease_owner ≡ true
  pub found_operation : find_operation plan_id operation_id s ≡ some operation
  pub claimable : member operation.status claimable_operation ≡ true
  pub next_attempt : attempt ≡ suc operation.attempt
  pub started : find_operation plan_id operation_id s' ≡ some (attempted_row now token operation)
  pub renewed :
      find_plan plan_id s' ≡ some (record plan { lease_expires_at = some (now + lease_seconds) })

module _ (now : ℕ) (plan_id operation_id : String) (owner_token : Option String) (token : String)
    (lease_seconds : ℕ) (s : Store) where
  abbrev renews : String → PlanRow → Bool
  renews owner r =
      is_plan plan_id r && owned_by owner r.lease_owner && lease_live now r.lease_expires_at

  start_ok :
      (owner : String) (row : OperationRow) {n : ℕ}
      → (start_attempt now plan_id operation_id owner token lease_seconds row s).0 ≡ ok n
      → (n ≡ suc row.attempt)
        × (start_attempt now plan_id operation_id owner token lease_seconds row s ≡ (
          ok (suc row.attempt),
          record s {
            operations =
                update_where
                  (is_operation plan_id operation_id)
                  (λ (r : OperationRow). record r {
                    status = PlanStatus.executing;
                    attempt = suc row.attempt;
                    attempt_token = some token;
                    reconciled = false;
                    updated_at = now;
                  })
                  s.operations;
            plans =
                update_where
                  (renews owner)
                  (λ (r : PlanRow). record r { lease_expires_at = some (now + lease_seconds) })
                  s.plans;
          },
        ))
  unfolding start_attempt
  start_ok owner row h = elim (Bool-cases (count_where (renews owner) s.plans == 1)) [
    | inl one ↦ (cc (rw one at h), rw one refl)
    | inr other ↦ absurd (cc (rw other at h))
  ]

  claim_missing :
      find_plan plan_id s ≡ none
      → (claim_operation_row now plan_id operation_id owner_token token lease_seconds s).0
        ≡ err (Error.plan_transition_error "executor lease is absent or expired")
  unfolding claim_operation_row
  claim_missing f = rw (f, claim_operation_row)

  -- the guards of `claim_operation` on the rows that it reads
  abbrev guarded : PlanRow → Option OperationRow → Outcome Store ℕ
  guarded plan found =
      let owner = token_or owner_token (text_of plan.lease_owner) in
      if not (lease_live now plan.lease_expires_at)
      then (err (Error.plan_transition_error "executor lease is absent or expired"), s)
      else if not (owned_by owner plan.lease_owner)
      then (err (Error.plan_transition_error "executor lease owner did not match"), s)
      else elim found [
        | none ↦ (err (Error.plan_transition_error "operation is not claimable"), s)
        | some row ↦
            if not (member row.status claimable_operation)
            then (err (Error.plan_transition_error "operation is not claimable"), s)
            else start_attempt now plan_id operation_id owner token lease_seconds row s
      ]

  claim_guarded :
      (plan : PlanRow) (found : Option OperationRow)
      → find_plan plan_id s ≡ some plan
      → find_operation plan_id operation_id s ≡ found
      → claim_operation_row now plan_id operation_id owner_token token lease_seconds s
        ≡ guarded plan found
  unfolding claim_operation_row
  claim_guarded plan found f g = rw (f, claim_operation_row) (rw g refl)

  guarded_lost : (plan : PlanRow) {n : ℕ} → (guarded plan none).0 ≢ ok n
  guarded_lost plan h = ground arith

  guarded_ok :
      (plan : PlanRow) (row : OperationRow) {n : ℕ}
      → (guarded plan (some row)).0 ≡ ok n
      → (lease_live now plan.lease_expires_at ≡ true)
        × (owned_by (token_or owner_token (text_of plan.lease_owner)) plan.lease_owner ≡ true)
        × (member row.status claimable_operation ≡ true)
        × (guarded plan (some row)
            ≡ start_attempt now plan_id operation_id
                (token_or owner_token (text_of plan.lease_owner))
                token
                lease_seconds
                row
                s)
  guarded_ok plan row h = ground arith

  abbrev start_row : OperationRow → OperationRow → OperationRow
  start_row row r = record r {
    status = PlanStatus.executing;
    attempt = suc row.attempt;
    attempt_token = some token;
    reconciled = false;
    updated_at = now;
  }

  abbrev renew_row : PlanRow → PlanRow
  renew_row r = record r { lease_expires_at = some (now + lease_seconds) }

  abbrev started_store : String → OperationRow → Store
  started_store owner row = record s {
    operations = update_where (is_operation plan_id operation_id) (start_row row) s.operations;
    plans = update_where (renews owner) renew_row s.plans;
  }

  started_store-Started :
      (plan : PlanRow) (row : OperationRow)
      → let owner = token_or owner_token (text_of plan.lease_owner) in
        find_plan plan_id s ≡ some plan
        → find_operation plan_id operation_id s ≡ some row
        → lease_live now plan.lease_expires_at ≡ true
        → owned_by owner plan.lease_owner ≡ true
        → member row.status claimable_operation ≡ true
        → Started now plan_id operation_id owner_token token lease_seconds s
            (started_store owner row)
            (suc row.attempt)
  started_store-Started plan row f g live own open_row = record {
    plan = plan;
    operation = row;
    found_plan = f;
    leased = live;
    owned = own;
    found_operation = g;
    claimable = open_row;
    next_attempt = refl;
    started =
        rw
          (
            find-update (is_operation plan_id operation_id) (is_operation plan_id operation_id)
                (start_row row) s.operations (λ x. ground arith),
            g,
          )
          (ground (arith, find_satisfies (is_operation plan_id operation_id) s.operations g));
    renewed =
        rw
          (
            find-update (is_plan plan_id) (renews (token_or owner_token (text_of plan.lease_owner)))
                renew_row s.plans (λ x. ground arith),
            f,
          )
          (ground (arith, find_satisfies (is_plan plan_id) s.plans f));
  }

  -- A call of `claim_operation` that returns a number met a live lease of its owner and a claimable
  -- operation. The number is one more than the attempts before; it leaves the operation executing
  -- under the new attempt and its token, and the lease renewed.
  pub claim_starts_attempt :
      {n : ℕ}
      → (claim_operation_row now plan_id operation_id owner_token token lease_seconds s).0 ≡ ok n
      → Started now plan_id operation_id owner_token token lease_seconds s
          (claim_operation_row now plan_id operation_id owner_token token lease_seconds s).1
          n
  claim_starts_attempt h = elim (Option-cases (find_plan plan_id s)) [
    | inl f ↦ absurd (cc (claim_missing f))
    | inr (p, f) ↦ elim (Option-cases (find_operation plan_id operation_id s)) [
      | inl g ↦
          absurd (
            guarded_lost p (sym (ap (λ (x : Outcome Store ℕ). x.0) (claim_guarded p none f g)) ∙ h))
      | inr (o, g) ↦ started_by p o f g h
    ]
  ]
    where
      started_by :
          (p : PlanRow) (o : OperationRow) {n : ℕ}
          → find_plan plan_id s ≡ some p
          → find_operation plan_id operation_id s ≡ some o
          → (claim_operation_row now plan_id operation_id owner_token token lease_seconds s).0
            ≡ ok n
          → Started now plan_id operation_id owner_token token lease_seconds s
              (claim_operation_row now plan_id operation_id owner_token token lease_seconds s).1
              n
      started_by p o {n} f g h =
          let owner = token_or owner_token (text_of p.lease_owner) in
          let e = claim_guarded p (some o) f g in
          let h1 = sym (ap (λ (x : Outcome Store ℕ). x.0) e) ∙ h in
          let (live, own, open_row, e2) = guarded_ok p o h1 in
          let h2 = sym (ap (λ (x : Outcome Store ℕ). x.0) e2) ∙ h1 in
          let (is_next, e3) = start_ok owner o h2 in
          subst
            (λ (x : Outcome Store ℕ).
              Started now plan_id operation_id owner_token token lease_seconds s x.1 n)
            (sym (e ∙ e2 ∙ e3))
            (subst
              (λ (k : ℕ).
                Started now plan_id operation_id owner_token token lease_seconds s
                  (started_store owner o) k)
              (sym is_next) (started_store-Started p o f g live own open_row))
