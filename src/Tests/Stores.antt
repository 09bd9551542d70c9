-- ===== src/Tests/Stores.antt =====
-- Runs of the theorems on the plan store.
use incubator_hugegraph_ai.Prelude.{
  ℕ, ◌+◌, String, ◌≡◌, ◌≢◌, ◌⊎◌, refl, ap, Memᴰ, inl, inr, Bool, true, false, Option, none, some,
  List, [], ◌∷◌, arith, ok, err, Error,
}
use incubator_hugegraph_ai.WritePlan.Status.{ApplyStatus, PlanStatus}
use incubator_hugegraph_ai.WritePlan.Plan.{WritePlan, ApplyReceipt}
use incubator_hugegraph_ai.PlanStore.Rows.{PlanRow, OperationRow, Store, same_text, text_or}
use incubator_hugegraph_ai.PlanStore.Legacy.{prepare}
use incubator_hugegraph_ai.PlanStore.Prepared.{Keeps, prepare-Keeps}
use incubator_hugegraph_ai.PlanStore.Claims.{claim_plan, claim_operation_row}
use incubator_hugegraph_ai.PlanStore.Leases.{one_executor}
use incubator_hugegraph_ai.PlanStore.Receipts.{addressed, record_receipt, record_receipt_rows}
use incubator_hugegraph_ai.PlanStore.Reconciliation.{fence}
use incubator_hugegraph_ai.PlanStore.Fencing.{refused_unchanged}
use incubator_hugegraph_ai.PlanStore.Accepted.{
  Accepted, record_receipt_rows-Accepted, accepted_once,
}
use incubator_hugegraph_ai.PlanStore.Stale.{only_the_latest_attempt}
use incubator_hugegraph_ai.PlanStore.AlreadyApplied.{last_already_applied_is_refused}
use incubator_hugegraph_ai.PlanStore.Fenced.{fenced_out}
use incubator_hugegraph_ai.Tests.Data.{
  stored_plan, same_values, load_text_only, operation_at, saved, leased_row, running, answer,
}

prepare-Keeps_example : Keeps saved (prepare load_text_only saved).1
prepare-Keeps_example = prepare-Keeps load_text_only saved

abbrev executing_plan : WritePlan
executing_plan = record stored_plan { status = PlanStatus.executing }

elected_ok :
    (claim_plan load_text_only 100 "wp1" (some "owner") "fresh" 300 false saved).0
    ≡ ok (executing_plan, true)
unfolding claim_plan prepare incubator_hugegraph_ai.WritePlan.Plan.new_operation_plan
    incubator_hugegraph_ai.PlanStore.Claims.claim_prepared
    incubator_hugegraph_ai.PlanStore.Claims.return_claimed
    incubator_hugegraph_ai.PlanStore.Legacy.find_last
    incubator_hugegraph_ai.PlanStore.Legacy.insert_operation
    incubator_hugegraph_ai.PlanStore.Legacy.insert_plan
    incubator_hugegraph_ai.PlanStore.Legacy.migrate_legacy_plan
    incubator_hugegraph_ai.PlanStore.Legacy.sorted_set
    incubator_hugegraph_ai.PlanStore.Plans.rehydrate
    incubator_hugegraph_ai.PlanStore.Plans.decode_operation
    incubator_hugegraph_ai.PlanStore.Plans.decode_operations
    incubator_hugegraph_ai.PlanStore.Plans.decode_target
    incubator_hugegraph_ai.PlanStore.Plans.get_plan_record
    incubator_hugegraph_ai.PlanStore.Plans.read_plan incubator_hugegraph_ai.PlanStore.Plans.get_plan
    incubator_hugegraph_ai.PlanStore.Plans.returning_plan
    incubator_hugegraph_ai.PlanStore.Rows.operations_of
    incubator_hugegraph_ai.PlanStore.Rows.order_by_ordinal
    incubator_hugegraph_ai.PlanStore.Rows.insert_by_ordinal
    incubator_hugegraph_ai.WritePlan.Plan.new_write_plan
    incubator_hugegraph_ai.WritePlan.Plan.check_operations
    incubator_hugegraph_ai.WritePlan.Encoding.operation_to_dict
    incubator_hugegraph_ai.WritePlan.Encoding.target_to_dict
    incubator_hugegraph_ai.WritePlan.Encoding.plan_to_dict
    incubator_hugegraph_ai.PlanStore.Claims.claim_row
    incubator_hugegraph_ai.PlanStore.Legacy.migrate_hashes
    incubator_hugegraph_ai.WritePlan.Value.freeze_mapping
    incubator_hugegraph_ai.WritePlan.Value.freeze
    incubator_hugegraph_ai.WritePlan.Value.thaw_mapping incubator_hugegraph_ai.WritePlan.Value.thaw
    incubator_hugegraph_ai.WritePlan.Value.thaw_items
    incubator_hugegraph_ai.WritePlan.Value.freeze_items incubator_hugegraph_ai.Prelude.find
    incubator_hugegraph_ai.Prelude.str_eq incubator_hugegraph_ai.Prelude.select
    incubator_hugegraph_ai.Prelude.any incubator_hugegraph_ai.Prelude.all
    incubator_hugegraph_ai.Prelude.count_where incubator_hugegraph_ai.Prelude.update_where
elected_ok = refl

one_executor_example :
    (claim_plan load_text_only 200 "wp1" none "other" 300 true
      (claim_plan load_text_only 100 "wp1" (some "owner") "fresh" 300 false saved).1).0
    ≢ ok (executing_plan, true)
one_executor_example =
    one_executor load_text_only 100 "wp1" (some "owner") "fresh" 300 false saved
      {plan = executing_plan} elected_ok 200 none "other" 300 true (ground arith) executing_plan

started_ok : (claim_operation_row 200 "wp1" "op2" (some "owner") "token" 300 running).0 ≡ ok 1
unfolding claim_operation_row incubator_hugegraph_ai.Prelude.find
    incubator_hugegraph_ai.Prelude.str_eq incubator_hugegraph_ai.PlanStore.Claims.start_attempt
    incubator_hugegraph_ai.Prelude.count_where
started_ok = refl

second_answered :
    (record_receipt_rows same_values 250
      (answer ApplyStatus.applied "op2" 1)
      "wp1"
      "op2"
      none
      none
      (claim_operation_row 200 "wp1" "op2" (some "owner") "token" 300 running).1).0
    ≡ ok tt
unfolding record_receipt_rows claim_operation_row incubator_hugegraph_ai.Prelude.find
    incubator_hugegraph_ai.Prelude.str_eq incubator_hugegraph_ai.PlanStore.Claims.start_attempt
    incubator_hugegraph_ai.Prelude.count_where incubator_hugegraph_ai.Prelude.update_where
    incubator_hugegraph_ai.PlanStore.Receipts.receive incubator_hugegraph_ai.PlanStore.Receipts.fits
    incubator_hugegraph_ai.PlanStore.Receipts.settle
    incubator_hugegraph_ai.PlanStore.Receipts.aggregate_persisted_statuses
    incubator_hugegraph_ai.PlanStore.Rows.operations_of incubator_hugegraph_ai.Prelude.select
    incubator_hugegraph_ai.PlanStore.Receipts.write_receipt incubator_hugegraph_ai.Prelude.any
second_answered = refl

only_the_latest_attempt_example :
    ((answer ApplyStatus.applied "op2" 1).attempt ≡ 1)
    × (same_text (some "token") (text_or none (text_or (some "token") (some "token"))) ≡ true)
only_the_latest_attempt_example =
    only_the_latest_attempt 200 "wp1" "op2" (some "owner") "token" 300 running {n = 1} started_ok
      same_values 250 (answer ApplyStatus.applied "op2" 1) none none second_answered

accepted_ok :
    (record_receipt_rows same_values 250
      (answer ApplyStatus.applied "op1" 1)
      "wp1"
      "op1"
      (some "owner")
      (some "token")
      running).0
    ≡ ok tt
unfolding record_receipt_rows incubator_hugegraph_ai.Prelude.find
    incubator_hugegraph_ai.Prelude.str_eq incubator_hugegraph_ai.PlanStore.Receipts.receive
    incubator_hugegraph_ai.PlanStore.Receipts.fits incubator_hugegraph_ai.Prelude.count_where
    incubator_hugegraph_ai.PlanStore.Receipts.settle
    incubator_hugegraph_ai.PlanStore.Receipts.aggregate_persisted_statuses
    incubator_hugegraph_ai.PlanStore.Rows.operations_of incubator_hugegraph_ai.Prelude.select
    incubator_hugegraph_ai.PlanStore.Receipts.write_receipt
    incubator_hugegraph_ai.Prelude.update_where incubator_hugegraph_ai.Prelude.any
accepted_ok = refl

record_receipt_rows-Accepted_example :
    Accepted same_values 250
      (answer ApplyStatus.applied "op1" 1)
      "wp1"
      "op1"
      (some "owner")
      (some "token")
      running
      (record_receipt_rows same_values 250
        (answer ApplyStatus.applied "op1" 1)
        "wp1"
        "op1"
        (some "owner")
        (some "token")
        running).1
record_receipt_rows-Accepted_example =
    record_receipt_rows-Accepted same_values 250 (answer ApplyStatus.applied "op1" 1) "wp1" "op1"
      (some "owner") (some "token") running accepted_ok

accepted_once_example :
    (record_receipt_rows same_values 260
      (answer ApplyStatus.conflict "op1" 1)
      "wp1"
      "op1"
      (some "owner")
      (some "token")
      (record_receipt_rows same_values 250
        (answer ApplyStatus.applied "op1" 1)
        "wp1"
        "op1"
        (some "owner")
        (some "token")
        running).1).0
    ≢ ok tt
accepted_once_example =
    accepted_once same_values 250 (answer ApplyStatus.applied "op1" 1) "wp1" "op1" (some "owner")
      (some "token") running accepted_ok 260 (answer ApplyStatus.conflict "op1" 1) (some "owner")
      (some "token")

late_refused :
    (record_receipt load_text_only same_values 500
      (answer ApplyStatus.applied "op1" 1)
      (some "owner")
      (some "token")
      running).0
    ≡ err (Error.plan_transition_error "stale or unfenced operation receipt")
unfolding record_receipt incubator_hugegraph_ai.Prelude.str_eq prepare record_receipt_rows
    incubator_hugegraph_ai.Prelude.find incubator_hugegraph_ai.PlanStore.Legacy.migrate_hashes
    incubator_hugegraph_ai.PlanStore.Receipts.receive incubator_hugegraph_ai.PlanStore.Receipts.fits
late_refused = refl

refused_unchanged_example :
    (((addressed (some "wp1") (some "op1") ≡ none)
        × ((record_receipt load_text_only same_values 500
              (answer ApplyStatus.applied "op1" 1)
              (some "owner")
              (some "token")
              running).1
            ≡ running))
      ⊎ ((record_receipt load_text_only same_values 500
            (answer ApplyStatus.applied "op1" 1)
            (some "owner")
            (some "token")
            running).1
          ≡ (prepare load_text_only running).1))
    × Keeps running
        (record_receipt load_text_only same_values 500
          (answer ApplyStatus.applied "op1" 1)
          (some "owner")
          (some "token")
          running).1
refused_unchanged_example =
    refused_unchanged load_text_only same_values 500 (answer ApplyStatus.applied "op1" 1)
      (some "owner") (some "token") running
      {e = Error.plan_transition_error "stale or unfenced operation receipt"} late_refused

abbrev last_one : OperationRow
last_one = record (operation_at 1 "op2") {
  status = PlanStatus.executing;
  attempt = 1;
  attempt_token = some "token";
}

-- the first operation was already applied, and the second is in flight
abbrev half_done : Store
half_done = record running {
  plans = record leased_row { status = PlanStatus.partial } ∷ [];
  operations =
      record (operation_at 0 "op1") { status = PlanStatus.already_applied; attempt = 1 }
      ∷ last_one
      ∷ [];
}

all_but_last :
    (r : OperationRow)
    → Memᴰ r half_done.operations
    → r.plan_id ≡ "wp1"
    → (r.status ≡ PlanStatus.already_applied) ⊎ (r ≡ last_one)
all_but_last r (Memᴰ.head e) mine = inl (ap (λ (x : OperationRow). x.status) e)
all_but_last r (Memᴰ.tail (Memᴰ.head e)) mine = inr e
all_but_last r (Memᴰ.tail (Memᴰ.tail m)) mine = elim m [ ]

last_already_applied_is_refused_example :
    (record_receipt_rows same_values 250
      (answer ApplyStatus.already_applied "op2" 1)
      "wp1"
      "op2"
      (some "owner")
      (some "token")
      half_done).0
    ≢ ok tt
unfolding incubator_hugegraph_ai.Prelude.find incubator_hugegraph_ai.Prelude.str_eq
last_already_applied_is_refused_example =
    last_already_applied_is_refused same_values 250 (answer ApplyStatus.already_applied "op2" 1)
      "wp1" "op2" (some "owner") (some "token") half_done last_one
      (record leased_row { status = PlanStatus.partial }) refl refl refl all_but_last refl

fenced_ok : (fence 500 "wp1" running).0 ≡ ok tt
unfolding fence incubator_hugegraph_ai.Prelude.find incubator_hugegraph_ai.Prelude.str_eq
fenced_ok = refl

fenced_out_example :
    ((token : String) (lease_seconds n : ℕ)
      → (claim_operation_row 510 "wp1" "op2"
          (some "owner")
          token
          lease_seconds
          (fence 500 "wp1" running).1).0
        ≢ ok n)
    × ((sort : _) (receipt : ApplyReceipt) (token : Option String)
        → (record_receipt_rows sort 510 receipt "wp1" "op2"
            (some "owner")
            token
            (fence 500 "wp1" running).1).0
          ≢ ok tt)
unfolding fence incubator_hugegraph_ai.Prelude.find incubator_hugegraph_ai.Prelude.str_eq
fenced_out_example =
    fenced_out 500 "wp1" running leased_row refl refl fenced_ok 510 "op2" (some "owner")
