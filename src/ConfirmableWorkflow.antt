-- ===== src/ConfirmableWorkflow.antt =====
-- hugegraph-mcp/hugegraph_mcp/confirmable_workflow.py: dry run, plan hash and confirmation.
-- An error reply is its kind and the reason that its details give; messages and suggestions are not
-- modelled. The configuration is read once per call.
pub mod Confirmed
use incubator_hugegraph_ai.Prelude.{
  ℕ, String, Bool, true, false, not, ◌||◌, Option, none, some, str_eq, ltb, if◌then◌else◌, Outcome,
  Error, Result, ok, err,
}
use incubator_hugegraph_ai.Envelope.{ErrorType, Reply, envelope_ok, envelope_err}
use incubator_hugegraph_ai.WritePlan.Status.{PlanStatus, same_status}
use incubator_hugegraph_ai.WritePlan.Value.{Value}
use incubator_hugegraph_ai.ConfirmationStore.{
  ConfirmationDb, OperationView, has_consumed, issue, issued_payload, consume, record_outcome,
  operation_for_nonce, operation_for_plan,
}
use incubator_hugegraph_ai.Guard.{McpConfig, is_readonly}
use incubator_hugegraph_ai.PlanHash.{
  PlanContext, PlanSubject, Expiry, seconds, malformed, infinite, Verification, valid, invalid,
  verify_plan_hash,
}

pub record Refusal : Type 0 where
  pub error_type : ErrorType
  pub reason : String

abbrev pub refuse : ErrorType → String → Refusal
refuse t reason = record { error_type = t; reason = reason }

-- the handlers of `issue_plan`
abbrev issue_handler : Result (Unit {0}) → Result (Option Refusal)
issue_handler (ok _) = ok none
issue_handler (err Error.confirmation_plan_expired_error) =
    ok
      (some (refuse ErrorType.plan_expired "The generated plan TTL is outside the allowed window."))
issue_handler (err Error.confirmation_plan_mismatch_error) = ok (
    some (refuse ErrorType.plan_hash_mismatch "The nonce is already bound to another issued plan."))
issue_handler (err Error.confirmation_store_unavailable_error) =
    ok (some (refuse ErrorType.server_error "Confirmation state is unavailable."))
issue_handler (err e) = err e

-- What the store holds for a plan, or why it is refused.
pub data Answer : Type 0 where
  payload_of : Option Value → Answer
  refused : Refusal → Answer

-- the handlers of `load_issued_plan`
abbrev load_handler : Result (Option Value) → Result Answer
load_handler (ok payload) = ok (payload_of payload)
load_handler (err Error.confirmation_not_issued_error) = ok (
    refused (
      refuse ErrorType.plan_hash_mismatch
        "No server-issued dry-run plan matches this confirmation."))
load_handler (err Error.confirmation_plan_mismatch_error) = ok (
    refused (
      refuse ErrorType.plan_hash_mismatch
        "The confirmation does not match the server-issued plan."))
load_handler (err Error.confirmation_plan_expired_error) =
    ok (refused (refuse ErrorType.plan_expired "The server-issued plan has expired."))
load_handler (err Error.confirmation_store_unavailable_error) =
    ok (refused (refuse ErrorType.server_error "Confirmation state is unavailable."))
load_handler (err e) = err e

-- the handlers of `verify_and_consume_issued_plan`
abbrev consume_handler : Result (Option Value) → Result Answer
consume_handler (ok payload) = ok (payload_of payload)
consume_handler (err Error.confirmation_already_used_error) = ok (
    refused (
      refuse ErrorType.plan_already_used
        "This confirmation has already been used. Inspect the target state and run dry_run again."))
consume_handler (err Error.confirmation_not_issued_error) = ok (
    refused (
      refuse ErrorType.plan_hash_mismatch
        "No server-issued dry-run plan matches this confirmation."))
consume_handler (err Error.confirmation_plan_mismatch_error) = ok (
    refused (
      refuse ErrorType.plan_hash_mismatch
        "The confirmation does not match the server-issued plan."))
consume_handler (err Error.confirmation_plan_expired_error) =
    ok (refused (refuse ErrorType.plan_expired "The server-issued plan has expired."))
consume_handler (err Error.confirmation_store_unavailable_error) = ok (
    refused (
      refuse ErrorType.server_error
        "Confirmation state is unavailable. The write was blocked before execution."))
consume_handler (err e) = err e

-- `not text`
abbrev is_blank : Option String → Bool
is_blank none = true
is_blank (some t) = str_eq t ""

-- `nonce or ""`, and `int(expires_at or 0)` of an expiry that was verified
abbrev pub nonce_or_empty : Option String → String
nonce_or_empty none = ""
nonce_or_empty (some t) = t

abbrev pub seconds_or_zero : Option Expiry → ℕ
seconds_or_zero (some (seconds n)) = n
seconds_or_zero _ = 0

-- What `get_write_status` shows: `OperationView` without the plan.
pub record PublicOutcome : Type 0 where
  pub plan_hash : String
  pub status : PlanStatus
  pub receipt : Option Value
  pub updated_at : ℕ
  pub reconciliation_required : Option Bool

unfoldable pub public_outcome : OperationView → PublicOutcome
public_outcome o =
    let executing = same_status o.status PlanStatus.executing in
    record {
      plan_hash = o.plan_hash;
      status = if executing then PlanStatus.unknown else o.status;
      receipt = o.receipt;
      updated_at = o.updated_at;
      reconciliation_required = if executing then some true else none;
    }

abbrev outcome_handler : Result (Unit {0}) → Result Bool
outcome_handler (ok _) = ok true
outcome_handler (err Error.confirmation_not_issued_error) = ok false
outcome_handler (err Error.confirmation_store_unavailable_error) = ok false
outcome_handler (err e) = err e

-- `record_write_outcome`
unfoldable pub record_write_outcome :
    ℕ → String → PlanStatus → String → ConfirmationDb → Outcome ConfirmationDb Bool
record_write_outcome now plan_hash status receipt_json db =
    let (r, db') = record_outcome now plan_hash status receipt_json db in (outcome_handler r, db')

module _ (digest : String → String) (loads : String → Option Value) where
  -- `issue_plan`
  unfoldable pub issue_plan :
      ℕ
      → PlanContext
      → String
      → Option String
      → ConfirmationDb
      → Outcome ConfirmationDb (Option Refusal)
  issue_plan now context plan_hash payload_json db =
      let (r, db') =
        issue digest loads now context.nonce plan_hash context.expires_at payload_json db in
      (issue_handler r, db')

  -- `load_issued_plan`
  unfoldable pub load_issued_plan :
      ℕ → Option String → Option String → Option Expiry → ConfirmationDb → Result Answer
  load_issued_plan now (some nonce) (some plan_hash) (some (seconds n)) db =
      if str_eq nonce "" || str_eq plan_hash ""
      then ok
          (refused (refuse ErrorType.plan_hash_mismatch "Plan confirmation fields are incomplete."))
      else if ltb n now
      then ok (refused (refuse ErrorType.plan_expired "The server-issued plan has expired."))
      else load_handler (issued_payload digest loads now nonce plan_hash n db).0
  load_issued_plan now given plan_hash (some _) db = ok (
      refused (
        refuse ErrorType.plan_hash_mismatch (
          if is_blank given || is_blank plan_hash
          then "Plan confirmation fields are incomplete."
          else "Plan expiry is invalid.")))
  load_issued_plan now given plan_hash none db =
      ok (refused (refuse ErrorType.plan_hash_mismatch "Plan confirmation fields are incomplete."))

  -- `operation_for_nonce` with its handler in `replayed_plan_error`
  abbrev known_operation : Result (Option OperationView) → Option OperationView
  known_operation (ok o) = o
  known_operation (err _) = none

  abbrev is_unresolved : Option OperationView → Bool
  is_unresolved none = false
  is_unresolved (some o) =
      same_status o.status PlanStatus.executing || same_status o.status PlanStatus.unknown

  -- `replayed_plan_error`
  unfoldable pub replayed_plan_error : Option String → ConfirmationDb → Option Refusal
  replayed_plan_error nonce db =
      if not (has_consumed digest loads nonce db)
      then none
      else if is_unresolved (known_operation (operation_for_nonce loads digest nonce db))
      then some (
          refuse ErrorType.write_outcome_unknown
            "The prior write attempt has no confirmed outcome; reconcile before retrying.")
      else some (
          refuse ErrorType.plan_already_used
            "This confirmation has already been used. Inspect the target state and run dry_run again.")

  -- `get_write_status`
  unfoldable pub get_write_status : String → ConfirmationDb → Reply PublicOutcome String
  unfolding public_outcome
  get_write_status plan_hash db = elim (operation_for_plan loads (some plan_hash) db) [
    | err _ ↦ envelope_err ErrorType.server_error "Write status storage is unavailable."
    | ok none ↦
        envelope_err ErrorType.not_found "No persisted write operation matches this plan hash."
    | ok (some o) ↦ envelope_ok (public_outcome o)
  ]

  module _ (hash : PlanContext → String) where
    -- the rest of `verify_and_consume_issued_plan` once the hash was checked; `now` is the clock of
    -- `consume`
    unfoldable pub consume_verified :
        McpConfig
        → ℕ
        → String
        → Option String
        → Option Expiry
        → Result Verification
        → ConfirmationDb
        → Outcome ConfirmationDb Answer
    consume_verified cfg now submitted given expires_at (err e) db = (err e, db)
    consume_verified cfg now submitted given expires_at (ok (invalid t reason)) db =
        (ok (refused (refuse t reason)), db)
    consume_verified cfg now submitted given expires_at (ok valid) db =
        if is_readonly cfg
        then (
          ok (
              refused (
                refuse ErrorType.readonly_violation
                  "Write confirmation is disabled in readonly mode.")),
          db,
        )
        else let (r, db') =
            consume digest loads now (nonce_or_empty given) submitted (seconds_or_zero expires_at)
              db in
          (consume_handler r, db')

    -- `verify_and_consume_issued_plan`: `now` is the clock of `verify_plan_hash`, `later` that of
    -- `consume`
    unfoldable pub verify_and_consume_issued_plan :
        McpConfig
        → ℕ
        → ℕ
        → String
        → PlanSubject
        → Option String
        → Option Expiry
        → ConfirmationDb
        → Outcome ConfirmationDb Answer
    unfolding consume_verified
    verify_and_consume_issued_plan cfg now later submitted subject nonce expires_at db =
        consume_verified cfg later submitted nonce expires_at
          (verify_plan_hash hash cfg now submitted subject nonce expires_at) db
