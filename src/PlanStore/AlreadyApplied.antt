-- ===== src/PlanStore/AlreadyApplied.antt =====
-- The receipt that finds the last operation of a partial plan already applied.
use incubator_hugegraph_ai.Prelude.{
  ℕ, String, ◌≡◌, ◌≢◌, ◌⊎◌, refl, sym, ap, ◌∙◌, subst, Bool, true, false, ◌&&◌, Option, some, List,
  [], ◌∷◌, map, arith, ok, Outcome, Memᴰ, all, select, update_where, updated, find_satisfies,
  Bool-cases, inl, inr, str_eq_iff, leb,
}
use incubator_hugegraph_ai.WritePlan.Status.{
  ApplyStatus, PlanStatus, same_status, same_status_sound, can_transition, to_plan_status,
  to_apply_status,
}
use incubator_hugegraph_ai.WritePlan.Aggregate.{is_success, is_status, aggregate_plan_status}
use incubator_hugegraph_ai.WritePlan.Value.{Values}
use incubator_hugegraph_ai.WritePlan.Plan.{ApplyReceipt}
use incubator_hugegraph_ai.PlanStore.Rows.{
  PlanRow, OperationRow, Store, find_plan, find_operation, text_or, number_or, is_operation,
  of_plan, operations_of, insert_by_ordinal, order_by_ordinal,
}
use incubator_hugegraph_ai.PlanStore.Receipts.{
  aggregate_persisted_statuses, completed, pending, receives, received, write_receipt,
  record_receipt_rows, settle, fits,
}
use incubator_hugegraph_ai.PlanStore.Fencing.{joined, receive-fits, receive_settles}

all-insert :
    (p : OperationRow → Bool) (r : OperationRow) (rs : List OperationRow)
    → all p (insert_by_ordinal r rs) ≡ (p r && all p rs)
unfolding insert_by_ordinal all
all-insert p r [] = refl
all-insert p r (x ∷ xs) = ground (arith, all-insert p r xs, Bool-cases (leb r.ordinal x.ordinal))

all-order :
    (p : OperationRow → Bool) (rs : List OperationRow) → all p (order_by_ordinal rs) ≡ all p rs
unfolding order_by_ordinal all
all-order p [] = refl
all-order p (r ∷ rs) = rw (all-insert p r (order_by_ordinal rs), all-order p rs) refl

all-select-update :
    (p w q : OperationRow → Bool) (f : OperationRow → OperationRow) (rs : List OperationRow)
    → ((r : OperationRow) → Memᴰ r rs → w (updated q f r) ≡ true → p (updated q f r) ≡ true)
    → all p (select w (update_where q f rs)) ≡ true
unfolding all select update_where
all-select-update p w q f [] h = refl
all-select-update p w q f (r ∷ rs) h =
    let rest = all-select-update p w q f rs (λ x m. h x (Memᴰ.tail m)) in
    elim (Bool-cases (w (updated q f r))) [
      | inl mine ↦ rw mine (ground (arith, h r (Memᴰ.head refl) mine, rest))
      | inr other ↦ rw other rest
    ]

abbrev is_done : OperationRow → Bool
is_done r = same_status r.status PlanStatus.already_applied

abbrev status_in : OperationRow → PlanStatus
status_in r = r.status

done_statuses :
    (rows : List OperationRow)
    → all is_done rows ≡ true
    → (pending (map status_in rows) ≡ false)
      × (all is_success (completed (map status_in rows)) ≡ true)
      × (all (is_status ApplyStatus.already_applied) (completed (map status_in rows)) ≡ true)
unfolding all pending completed to_apply_status
done_statuses [] h = (refl, refl, refl)
done_statuses (r ∷ rows) h =
    let same : r.status ≡ PlanStatus.already_applied =
      same_status_sound r.status _ (ground arith) in
    rw same (done_statuses rows (ground arith))

aggregate_done :
    (rows : List OperationRow)
    → all is_done rows ≡ true
    → (aggregate_persisted_statuses (map status_in rows) ≡ PlanStatus.issued)
      ⊎ (aggregate_persisted_statuses (map status_in rows) ≡ PlanStatus.already_applied)
unfolding aggregate_persisted_statuses aggregate_plan_status
aggregate_done rows h =
    let (p, s, a) = done_statuses rows h in
    rw p (done_aggregate (completed (map status_in rows)) s a)
  where
    done_aggregate :
        (ss : List ApplyStatus)
        → all is_success ss ≡ true
        → all (is_status ApplyStatus.already_applied) ss ≡ true
        → (aggregate_plan_status ss ≡ PlanStatus.issued)
          ⊎ (aggregate_plan_status ss ≡ PlanStatus.already_applied)
    done_aggregate [] s a = inl refl
    done_aggregate (x ∷ ss) s a = inr (rw (s, a) refl)

module _ (sort : Values → Values) (now : ℕ) (receipt : ApplyReceipt) (plan_id operation_id : String)
    (owner_token attempt_token : Option String) (s : Store) where
  settle_blocked :
      (after_receipt : Store)
      → all is_done (operations_of plan_id after_receipt) ≡ true
      → (settle sort receipt plan_id PlanStatus.partial s after_receipt).0 ≢ ok tt
  unfolding settle can_transition
  settle_blocked t h e = ground (arith, aggregate_done (operations_of plan_id t) h)

  received_done :
      (token : Option String) (r : OperationRow)
      → receipt.status ≡ ApplyStatus.already_applied
      → (r.status ≡ PlanStatus.already_applied)
        ⊎ (receives plan_id operation_id receipt.attempt token r ≡ true)
      → is_done (
          updated
            (receives plan_id operation_id receipt.attempt token)
            (received sort receipt (number_or receipt.committed_at 0))
            r)
        ≡ true
  unfolding to_plan_status
  received_done token r found (inr hit) = rw hit (rw found refl)
  received_done token r found (inl done) =
      elim (Bool-cases (receives plan_id operation_id receipt.attempt token r)) [
        | inl hit ↦ rw hit (rw found refl)
        | inr miss ↦ rw miss (rw done refl)
      ]

  same_plan :
      (token : Option String) (r : OperationRow)
      → of_plan plan_id (
          updated
            (receives plan_id operation_id receipt.attempt token)
            (received sort receipt (number_or receipt.committed_at 0))
            r)
        ≡ of_plan plan_id r
  same_plan token r = ground arith

  all_done :
      (token : Option String)
      → receipt.status ≡ ApplyStatus.already_applied
      → ((r : OperationRow)
          → Memᴰ r s.operations
          → r.plan_id ≡ plan_id
          → (r.status ≡ PlanStatus.already_applied)
            ⊎ (receives plan_id operation_id receipt.attempt token r ≡ true))
      → all is_done
          (operations_of plan_id (write_receipt sort receipt plan_id operation_id token s))
        ≡ true
  unfolding operations_of write_receipt
  all_done token found rest =
      all-order is_done _
      ∙ all-select-update is_done (of_plan plan_id)
          (receives plan_id operation_id receipt.attempt token)
          (received sort receipt (number_or receipt.committed_at 0)) s.operations
          (λ r m e.
            received_done token r found
              (rest r m ((str_eq_iff r.plan_id plan_id).0 (sym (same_plan token r) ∙ e))))

  fits-receives :
      (o : OperationRow) (p : PlanRow) (owner token : Option String)
      → find_operation plan_id operation_id s ≡ some o
      → fits now receipt owner token o p ≡ true
      → receives plan_id operation_id receipt.attempt token o ≡ true
  unfolding fits
  fits-receives o p owner token f h =
      ground (arith, find_satisfies (is_operation plan_id operation_id) s.operations f)

  -- Where a plan is partial, and all its operations are already applied but the one that a receipt
  -- is for, the receipt that finds this one already applied too is refused, whatever the tokens
  -- and the clock.
  pub last_already_applied_is_refused :
      (o : OperationRow) (p : PlanRow)
      → find_operation plan_id operation_id s ≡ some o
      → find_plan plan_id s ≡ some p
      → p.status ≡ PlanStatus.partial
      → ((r : OperationRow)
          → Memᴰ r s.operations
          → r.plan_id ≡ plan_id
          → (r.status ≡ PlanStatus.already_applied) ⊎ (r ≡ o))
      → receipt.status ≡ ApplyStatus.already_applied
      → (record_receipt_rows sort now receipt plan_id operation_id owner_token attempt_token s).0
        ≢ ok tt
  last_already_applied_is_refused o p f g partial others found h =
      let token = text_or attempt_token (text_or receipt.attempt_token o.attempt_token) in
      let e = joined sort now receipt plan_id operation_id owner_token attempt_token s o p f g in
      let h1 = sym (ap (λ (x : Outcome Store (Unit {0})). x.0) e) ∙ h in
      let fit =
        receive-fits sort now receipt plan_id operation_id owner_token attempt_token s o p h1 in
      let hit = fits-receives o p (text_or owner_token p.lease_owner) token f fit in
      let e2 =
        receive_settles sort now receipt plan_id operation_id owner_token attempt_token s o p h1 in
      let h2 = sym (ap (λ (x : Outcome Store (Unit {0})). x.0) e2) ∙ h1 in
      let done = all_done token found (λ r m mine. elim (others r m mine) [
        | inl already ↦ inl already
        | inr same ↦ inr (rw same hit)
      ]) in
      settle_blocked (write_receipt sort receipt plan_id operation_id token s) done (
        subst
          (λ (c : PlanStatus).
            (settle sort receipt plan_id c s
              (write_receipt sort receipt plan_id operation_id token s)).0
            ≡ ok tt)
          partial h2)
