-- ===== src/PlanStore/Stale.antt =====
-- `claim_operation` and then `record_receipt`: the receipts of an attempt that is over.
use incubator_hugegraph_ai.Prelude.{
  ℕ, String, ◌≡◌, sym, ap, subst, true, Option, some, arith, ok, ◌==◌, suc,
}
use incubator_hugegraph_ai.WritePlan.Value.{Values}
use incubator_hugegraph_ai.WritePlan.Plan.{ApplyReceipt}
use incubator_hugegraph_ai.PlanStore.Rows.{OperationRow, Store, text_or, same_text}
use incubator_hugegraph_ai.PlanStore.Claims.{claim_operation_row}
use incubator_hugegraph_ai.PlanStore.Receipts.{record_receipt_rows}
use incubator_hugegraph_ai.PlanStore.Accepted.{record_receipt_rows-Accepted}
use incubator_hugegraph_ai.PlanStore.Attempts.{claim_starts_attempt, attempted_row}

-- Right after an operation is claimed, a receipt is accepted for it only with the attempt number of
-- that claim, and only if the token that counts is the one of the claim. The token that counts is
-- the one that the call gives, else the receipt's own, else the stored one; an empty text counts as
-- not given.
pub only_the_latest_attempt :
    (now : ℕ) (plan_id operation_id : String) (owner_token : Option String) (token : String)
    (lease_seconds : ℕ) (s : Store) {n : ℕ}
    → (claim_operation_row now plan_id operation_id owner_token token lease_seconds s).0 ≡ ok n
    → (sort : Values → Values) (now' : ℕ) (receipt : ApplyReceipt) (owner' token' : Option String)
    → (record_receipt_rows sort now' receipt plan_id operation_id owner' token'
        (claim_operation_row now plan_id operation_id owner_token token lease_seconds s).1).0
      ≡ ok tt
    → (receipt.attempt ≡ n)
      × (same_text (some token) (text_or token' (text_or receipt.attempt_token (some token)))
          ≡ true)
only_the_latest_attempt now plan_id operation_id owner_token token ls s {n} h sort now' receipt
      owner' token' h' =
    let s' = (claim_operation_row now plan_id operation_id owner_token token ls s).1 in
    let claim = claim_starts_attempt now plan_id operation_id owner_token token ls s h in
    let seen =
      record_receipt_rows-Accepted sort now' receipt plan_id operation_id owner' token' s' h' in
    same_row claim.operation seen.operation claim.started seen.found_operation claim.next_attempt
      seen.same_attempt seen.fenced
  where
    same_row :
        (x y : OperationRow) {o : Option OperationRow}
        → o ≡ some (attempted_row now token x)
        → o ≡ some y
        → n ≡ suc x.attempt
        → (y.attempt == receipt.attempt) ≡ true
        → same_text y.attempt_token (text_or token' (text_or receipt.attempt_token y.attempt_token))
          ≡ true
        → (receipt.attempt ≡ n)
          × (same_text (some token) (text_or token' (text_or receipt.attempt_token (some token)))
              ≡ true)
    same_row x y e f next same fence =
        let g : attempted_row now token x ≡ y = cc in
        (
          ground (arith, ap (λ (r : OperationRow). r.attempt) g),
          subst
              (λ (r : OperationRow).
                same_text r.attempt_token
                  (text_or token' (text_or receipt.attempt_token r.attempt_token))
                ≡ true)
              (sym g) fence,
        )
