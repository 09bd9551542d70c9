-- ===== src/PlanStore/Fencing.antt =====
-- Which receipts the store accepts, and what an accepted one does.
use incubator_hugegraph_ai.Prelude.{
  ℕ, String, ◌≡◌, ◌⊎◌, refl, subst, after, sym, ap, ◌∙◌, true, Option, none, some, arith,
  Option-cases, inl, inr, Error, ok, err, Outcome,
}
use incubator_hugegraph_ai.WritePlan.Value.{Value, Values}
use incubator_hugegraph_ai.WritePlan.Plan.{ApplyReceipt}
use incubator_hugegraph_ai.PlanStore.Rows.{
  PlanRow, OperationRow, Store, find_plan, find_operation, text_or,
}
use incubator_hugegraph_ai.PlanStore.Legacy.{prepare}
use incubator_hugegraph_ai.PlanStore.Prepared.{Keeps, Keeps-refl, prepare-Keeps}
use incubator_hugegraph_ai.PlanStore.Receipts.{
  addressed, fits, write_receipt, settle, receive, record_receipt_rows, record_receipt,
}

module _ (sort : Values → Values) (now : ℕ) (receipt : ApplyReceipt) (plan_id operation_id : String)
    (owner_token attempt_token : Option String) (s : Store) where
  abbrev pub outcome : Outcome Store (Unit {0})
  outcome = record_receipt_rows sort now receipt plan_id operation_id owner_token attempt_token s

  pub joined :
      (o : OperationRow) (p : PlanRow)
      → find_operation plan_id operation_id s ≡ some o
      → find_plan plan_id s ≡ some p
      → outcome ≡ receive sort now receipt plan_id operation_id owner_token attempt_token o p s
  unfolding record_receipt_rows
  joined o p f g = rw (f, record_receipt_rows) (rw (g, record_receipt_rows))

  pub no_operation :
      find_operation plan_id operation_id s ≡ none
      → outcome ≡ (err (Error.plan_transition_error "operation receipt target was not found"), s)
  unfolding record_receipt_rows
  no_operation f = rw (f, record_receipt_rows)

  pub no_plan :
      (o : OperationRow)
      → find_operation plan_id operation_id s ≡ some o
      → find_plan plan_id s ≡ none
      → outcome ≡ (err (Error.plan_transition_error "operation receipt target was not found"), s)
  unfolding record_receipt_rows
  no_plan o f g = rw (f, record_receipt_rows) (rw (g, record_receipt_rows))

  -- A receipt that raises has changed nothing.
  receive_atomic :
      (o : OperationRow) (p : PlanRow) {e : Error}
      → (receive sort now receipt plan_id operation_id owner_token attempt_token o p s).0 ≡ err e
      → (receive sort now receipt plan_id operation_id owner_token attempt_token o p s).1 ≡ s
  unfolding receive settle
  receive_atomic o p h = ground arith

  -- A transaction that raises leaves the prepared database as it was.
  rows_unchanged : {e : Error} → outcome.0 ≡ err e → outcome.1 ≡ s
  rows_unchanged h = elim (Option-cases (find_operation plan_id operation_id s)) [
    | inl f ↦ cc (no_operation f)
    | inr (o, f) ↦ elim (Option-cases (find_plan plan_id s)) [
      | inl g ↦ cc (no_plan o f g)
      | inr (p, g) ↦
          let e = joined o p f g in
          ap (λ (t : Outcome Store (Unit {0})). t.1) e
          ∙ receive_atomic o p (sym (ap (λ (t : Outcome Store (Unit {0})). t.0) e) ∙ h)
    ]
  ]

  pub receive-fits :
      (o : OperationRow) (p : PlanRow)
      → (receive sort now receipt plan_id operation_id owner_token attempt_token o p s).0 ≡ ok tt
      → fits now receipt
          (text_or owner_token p.lease_owner)
          (text_or attempt_token (text_or receipt.attempt_token o.attempt_token))
          o
          p
        ≡ true
  unfolding receive
  receive-fits o p h = ground arith

  pub receive_settles :
      (o : OperationRow) (p : PlanRow)
      → (receive sort now receipt plan_id operation_id owner_token attempt_token o p s).0 ≡ ok tt
      → let token = text_or attempt_token (text_or receipt.attempt_token o.attempt_token) in
        receive sort now receipt plan_id operation_id owner_token attempt_token o p s
        ≡ settle sort receipt plan_id p.status s
            (write_receipt sort receipt plan_id operation_id token s)
  unfolding receive
  receive_settles o p h = ground arith

-- A method of two parts changes nothing after its first part if the second is atomic.
after-unchanged :
    {A B : Type 0} {e : Error} (m : Outcome Store A) (k : A → Store → Outcome Store B)
    → ((a : A) (s : Store) → (k a s).0 ≡ err e → (k a s).1 ≡ s)
    → (after m k).0 ≡ err e
    → (after m k).1 ≡ m.1
after-unchanged (ok a, s) k atomic h = atomic a s h
after-unchanged (err x, s) k atomic h = refl

module _ (loads : String → Option Value) (sort : Values → Values) (now : ℕ) (receipt : ApplyReceipt)
    (owner_token attempt_token : Option String) (s : Store) where
  abbrev pub recording : Outcome Store (Unit {0})
  recording = record_receipt loads sort now receipt owner_token attempt_token s

  unaddressed : addressed receipt.plan_id receipt.operation_id ≡ none → recording.1 ≡ s
  unfolding record_receipt
  unaddressed a = rw (a, record_receipt) refl

  prepared :
      (plan_id operation_id : String)
      → addressed receipt.plan_id receipt.operation_id ≡ some (plan_id, operation_id)
      → recording
        ≡ after (prepare loads s) (λ _ s'.
          record_receipt_rows sort now receipt plan_id operation_id owner_token attempt_token s')
  unfolding record_receipt
  prepared plan_id operation_id a = rw (a, record_receipt) refl

  -- A receipt that `record_receipt` refuses, for whatever reason, changes nothing but what `prepare`
  -- does: where the receipt lacks its plan or operation id, the database is as it was, and otherwise
  -- it is as `prepare` left it. Either way every plan and operation found before is found unchanged.
  pub refused_unchanged :
      {e : Error}
      → (record_receipt loads sort now receipt owner_token attempt_token s).0 ≡ err e
      → (((addressed receipt.plan_id receipt.operation_id ≡ none)
            × ((record_receipt loads sort now receipt owner_token attempt_token s).1 ≡ s))
          ⊎ ((record_receipt loads sort now receipt owner_token attempt_token s).1
              ≡ (prepare loads s).1))
        × Keeps s (record_receipt loads sort now receipt owner_token attempt_token s).1
  refused_unchanged {e} h = elim (Option-cases (addressed receipt.plan_id receipt.operation_id)) [
    | inl a ↦ (inl (a, unaddressed a), subst (Keeps s) (sym (unaddressed a)) (Keeps-refl s))
    | inr ((p, o), a) ↦
        let same = left_by_prepare p o a in
        (inr same, subst (Keeps s) (sym same) (prepare-Keeps loads s))
  ]
    where
      left_by_prepare :
          (p o : String)
          → addressed receipt.plan_id receipt.operation_id ≡ some (p, o)
          → recording.1 ≡ (prepare loads s).1
      left_by_prepare p o a =
          let m = prepared p o a in
          ap (λ (x : Outcome Store (Unit {0})). x.1) m
          ∙ after-unchanged (prepare loads s)
              (λ _ s'. record_receipt_rows sort now receipt p o owner_token attempt_token s')
              (λ _ s'. rows_unchanged sort now receipt p o owner_token attempt_token s')
              (sym (ap (λ (x : Outcome Store (Unit {0})). x.0) m) ∙ h)
