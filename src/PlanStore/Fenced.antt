-- ===== src/PlanStore/Fenced.antt =====
-- `begin_reconcile` shuts the executor out.
use incubator_hugegraph_ai.Prelude.{
  ℕ, String, ◌≡◌, ◌≢◌, refl, sym, ap, ◌∙◌, subst, Bool, true, ◌&&◌, Option, none, some, List, [],
  ◌∷◌, arith, Bool-cases, inl, inr, find-update, find_satisfies, update_where, if◌then◌else◌,
  Outcome, Error, ok, err, not,
}
use incubator_hugegraph_ai.WritePlan.Status.{PlanStatus, same_status, member}
use incubator_hugegraph_ai.WritePlan.Value.{Values}
use incubator_hugegraph_ai.WritePlan.Plan.{ApplyReceipt}
use incubator_hugegraph_ai.PlanStore.Rows.{PlanRow, Store, is_plan, find_plan, lease_available}
use incubator_hugegraph_ai.PlanStore.Claims.{lease_live, claim_operation_row}
use incubator_hugegraph_ai.PlanStore.Receipts.{record_receipt_rows}
use incubator_hugegraph_ai.PlanStore.Reconciliation.{fence}
use incubator_hugegraph_ai.PlanStore.Accepted.{record_receipt_rows-Accepted}
use incubator_hugegraph_ai.PlanStore.Attempts.{claim_starts_attempt}

-- the statuses of a plan that `begin_reconcile` takes from its executor
abbrev pub fenceable : List PlanStatus
fenceable =
    PlanStatus.executing ∷ PlanStatus.unknown ∷ PlanStatus.legacy_unknown ∷ PlanStatus.partial ∷ []

abbrev expired_execution : ℕ → String → PlanRow → Bool
expired_execution now plan_id r =
    is_plan plan_id r
    && same_status r.status PlanStatus.executing
    && lease_available now r.lease_expires_at

abbrev cut_off : PlanRow → PlanRow
cut_off r = record r { status = PlanStatus.unknown; lease_owner = none; lease_expires_at = none }

abbrev release : PlanRow → PlanRow
release r = record r { lease_owner = none; lease_expires_at = none }

module _ (now : ℕ) (plan_id : String) (s : Store) where
  abbrev fence_found : PlanRow → Outcome Store (Unit {0})
  fence_found row =
      if not (lease_available now row.lease_expires_at)
      then (err (Error.plan_transition_error "execution lease is still active"), s)
      else if same_status row.status PlanStatus.executing
      then (
        ok tt,
        record s { plans = update_where (expired_execution now plan_id) cut_off s.plans },
      )
      else if member row.status
          (PlanStatus.unknown ∷ PlanStatus.legacy_unknown ∷ PlanStatus.partial ∷ [])
      then (ok tt, record s { plans = update_where (is_plan plan_id) release s.plans })
      else (ok tt, s)

  fence_runs :
      (row : PlanRow) → find_plan plan_id s ≡ some row → fence now plan_id s ≡ fence_found row
  unfolding fence
  fence_runs row f = rw (f, fence) refl

  cut_off-found :
      (row : PlanRow)
      → find_plan plan_id s ≡ some row
      → same_status row.status PlanStatus.executing ≡ true
      → lease_available now row.lease_expires_at ≡ true
      → find_plan plan_id
          (record s { plans = update_where (expired_execution now plan_id) cut_off s.plans })
        ≡ some (cut_off row)
  cut_off-found row f e l =
      rw
        (
          find-update (is_plan plan_id) (expired_execution now plan_id) cut_off s.plans
              (λ x. ground arith),
          f,
        )
        (ground (arith, find_satisfies (is_plan plan_id) s.plans f))

  release-found :
      (row : PlanRow)
      → find_plan plan_id s ≡ some row
      → find_plan plan_id (record s { plans = update_where (is_plan plan_id) release s.plans })
        ≡ some (release row)
  release-found row f =
      rw (find-update (is_plan plan_id) (is_plan plan_id) release s.plans (λ x. ground arith), f)
        (ground (arith, find_satisfies (is_plan plan_id) s.plans f))

  found_released :
      (row : PlanRow)
      → find_plan plan_id s ≡ some row
      → member row.status fenceable ≡ true
      → (fence_found row).0 ≡ ok tt
      → (row' : PlanRow) × (find_plan plan_id (fence_found row).1 ≡ some row')
        × (row'.lease_expires_at ≡ none)
  found_released row f m h = elim (Bool-cases (lease_available now row.lease_expires_at)) [
    | inr live ↦ absurd (cc (rw live at h))
    | inl over ↦ elim (Bool-cases (same_status row.status PlanStatus.executing)) [
      | inl running ↦ rw (over, running) (cut_off row, cut_off-found row f running over, refl)
      | inr idle ↦
          let open_row : member row.status
                (PlanStatus.unknown ∷ PlanStatus.legacy_unknown ∷ PlanStatus.partial ∷ [])
              ≡ true =
            ground arith in
          rw (over, idle, open_row) (release row, release-found row f, refl)
    ]
  ]

  -- A fenced plan that was executing, unknown or partial has no lease.
  fence-released :
      (row : PlanRow)
      → find_plan plan_id s ≡ some row
      → member row.status fenceable ≡ true
      → (fence now plan_id s).0 ≡ ok tt
      → (row' : PlanRow) × (find_plan plan_id (fence now plan_id s).1 ≡ some row')
        × (row'.lease_expires_at ≡ none)
  fence-released row f m h =
      let e = fence_runs row f in
      subst
        (λ (x : Outcome Store (Unit {0})).
          (row' : PlanRow) × (find_plan plan_id x.1 ≡ some row') × (row'.lease_expires_at ≡ none))
        (sym e) (found_released row f m (sym (ap (λ (x : Outcome Store (Unit {0})). x.0) e) ∙ h))

  -- On the store that fencing by `begin_reconcile` left, where the plan was executing, partial or
  -- unknown, no executor can start an attempt of it or have a receipt for it accepted, whatever
  -- tokens it brings.
  pub fenced_out :
      (row : PlanRow)
      → find_plan plan_id s ≡ some row
      → member row.status fenceable ≡ true
      → (fence now plan_id s).0 ≡ ok tt
      → (now' : ℕ) (operation_id : String) (owner : Option String)
      → ((token : String) (lease_seconds n : ℕ)
          → (claim_operation_row now' plan_id operation_id owner token lease_seconds
              (fence now plan_id s).1).0
            ≢ ok n)
        × ((sort : Values → Values) (receipt : ApplyReceipt) (token : Option String)
            → (record_receipt_rows sort now' receipt plan_id operation_id owner token
                (fence now plan_id s).1).0
              ≢ ok tt)
  fenced_out row f m h now' operation_id owner =
      let s' = (fence now plan_id s).1 in
      let (free, g, l) = fence-released row f m h in
      (
        λ token ls n k.
            let claim = claim_starts_attempt now' plan_id operation_id owner token ls s' k in
            no_lease free claim.plan g claim.found_plan l claim.leased,
        λ sort receipt token k.
            let seen =
              record_receipt_rows-Accepted sort now' receipt plan_id operation_id owner token s'
                k in
            no_lease free seen.plan g seen.found_plan l seen.leased,
      )
    where
      no_lease :
          (a b : PlanRow) {o : Option PlanRow}
          → o ≡ some a
          → o ≡ some b
          → a.lease_expires_at ≡ none
          → lease_live now' b.lease_expires_at ≡ true
          → ⊥
      no_lease a b e f l k = ground arith
