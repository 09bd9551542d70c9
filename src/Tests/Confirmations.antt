-- ===== src/Tests/Confirmations.antt =====
-- Runs of the theorems on the confirmation ledger and the workflow on it.
use incubator_hugegraph_ai.Prelude.{
  ℕ, String, ◌≡◌, ◌≢◌, refl, inl, inr, Bool, true, false, Option, none, some, List, [], ◌∷◌, arith,
  ok, err,
}
use incubator_hugegraph_ai.WritePlan.Value.{Value, str}
use incubator_hugegraph_ai.ConfirmationStore.{ConfirmationDb, issue, consume}
use incubator_hugegraph_ai.ConfirmationStore.SingleUse.{consume_call, perform_all, single_use}
use incubator_hugegraph_ai.ConfirmationStore.Issuing.{
  IsJustified, new_row, consume-issue, consume-IsJustified,
}
use incubator_hugegraph_ai.PlanHash.{PlanContext, Expiry, seconds, build_plan_context, context_of}
use incubator_hugegraph_ai.Guard.{McpConfig}
use incubator_hugegraph_ai.ConfirmableWorkflow.{
  payload_of, issue_plan, verify_and_consume_issued_plan,
}
use incubator_hugegraph_ai.ConfirmableWorkflow.Confirmed.{
  Confirmation, confirmed_is_issued, readonly_consumes_nothing, confirmed_once, confirm-issue,
}
use incubator_hugegraph_ai.Tests.Plans.{writable_config, subject, shown_hash}

-- stand-ins for SHA-256 and `json.loads`
abbrev pub same_digest : String → String
same_digest s = s

abbrev pub load_str : String → Option Value
load_str t = some (str t)

abbrev no_rows : ConfirmationDb
no_rows = record { issued = []; consumed = []; operations = [] }

issued_ok : (issue same_digest load_str 100 "n" "d" 700 (some "p") no_rows).0 ≡ ok tt
unfolding issue incubator_hugegraph_ai.Prelude.find
    incubator_hugegraph_ai.ConfirmationStore.upsert_issued incubator_hugegraph_ai.Prelude.any
    incubator_hugegraph_ai.ConfirmationStore.cleanup_expired
    incubator_hugegraph_ai.Prelude.delete_where incubator_hugegraph_ai.Prelude.str_eq
issued_ok = refl

abbrev one_row : ConfirmationDb
one_row = record {
  issued =
      new_row same_digest load_str 100 "n" "d" 700 (some "p")
      ∷ new_row same_digest load_str 100 "m" "e" 700 (some "q")
      ∷ [];
  consumed = [];
  operations = [];
}

abbrev payload : Option Value
payload = some (str "p")

consume-issue_example :
    (consume same_digest load_str 200 "n" "d" 700
      (issue same_digest load_str 100 "n" "d" 700 (some "p") no_rows).1).0
    ≡ ok payload
unfolding incubator_hugegraph_ai.Prelude.any
consume-issue_example =
    consume-issue same_digest load_str 100 200 "n" "d" 700 "p" (str "p") no_rows issued_ok
      (ground arith) refl refl refl

consumed_ok : (consume same_digest load_str 200 "n" "d" 700 one_row).0 ≡ ok payload
unfolding consume incubator_hugegraph_ai.ConfirmationStore.consume_cleaned
    incubator_hugegraph_ai.Prelude.any incubator_hugegraph_ai.ConfirmationStore.cleanup_expired
    incubator_hugegraph_ai.Prelude.delete_where incubator_hugegraph_ai.Prelude.find
    incubator_hugegraph_ai.Prelude.str_eq incubator_hugegraph_ai.ConfirmationStore.check_issued
    incubator_hugegraph_ai.ConfirmationStore.take_confirmation
consumed_ok = refl

consume-IsJustified_example : IsJustified same_digest load_str 200 "n" "d" 700 one_row
consume-IsJustified_example =
    consume-IsJustified same_digest load_str 200 "n" "d" 700 one_row {payload = payload} consumed_ok

single_use_example :
    (consume same_digest load_str 300 "n" "d" 700 (
      perform_all same_digest load_str
        (consume_call 250 "m" "e" 700 ∷ [])
        (consume same_digest load_str 200 "n" "d" 700 one_row).1)).0
    ≢ ok payload
single_use_example =
    single_use same_digest load_str 200 "n" "d" 700 one_row {payload = payload} consumed_ok
      (consume_call 250 "m" "e" 700 ∷ []) 300 "n" "d" 700 (inl refl) payload

confirmed_ok :
    (verify_and_consume_issued_plan same_digest load_str shown_hash writable_config 150 200 "d"
      subject
      (some "n")
      (some (seconds 700))
      one_row).0
    ≡ ok (payload_of payload)
unfolding verify_and_consume_issued_plan incubator_hugegraph_ai.PlanHash.verify_plan_hash
    incubator_hugegraph_ai.Prelude.str_eq context_of consume
    incubator_hugegraph_ai.ConfirmationStore.consume_cleaned incubator_hugegraph_ai.Prelude.any
    incubator_hugegraph_ai.ConfirmationStore.cleanup_expired
    incubator_hugegraph_ai.Prelude.delete_where incubator_hugegraph_ai.Prelude.find
    incubator_hugegraph_ai.ConfirmationStore.check_issued
    incubator_hugegraph_ai.ConfirmationStore.take_confirmation
confirmed_ok = refl

confirmed_is_issued_example :
    Confirmation same_digest load_str shown_hash writable_config 150 200 "d" subject
      (some "n")
      (some (seconds 700))
      one_row
      (verify_and_consume_issued_plan same_digest load_str shown_hash writable_config 150 200 "d"
        subject
        (some "n")
        (some (seconds 700))
        one_row).1
      payload
confirmed_is_issued_example =
    confirmed_is_issued same_digest load_str shown_hash writable_config 150 200 "d" subject
      (some "n") (some (seconds 700)) one_row {payload = payload} confirmed_ok

confirmed_once_example :
    (verify_and_consume_issued_plan same_digest load_str shown_hash writable_config 250 300 "d"
      subject
      (some "n")
      (some (seconds 700))
      (perform_all same_digest load_str
        (consume_call 250 "m" "e" 700 ∷ [])
        (verify_and_consume_issued_plan same_digest load_str shown_hash writable_config 150 200 "d"
          subject
          (some "n")
          (some (seconds 700))
          one_row).1)).0
    ≢ ok (payload_of payload)
confirmed_once_example =
    confirmed_once same_digest load_str shown_hash writable_config 150 200 "d" subject (some "n")
      (some (seconds 700)) one_row {payload = payload} confirmed_ok
      (consume_call 250 "m" "e" 700 ∷ []) writable_config 250 300 subject (some "n")
      (some (seconds 700)) payload

abbrev readonly_config : McpConfig
readonly_config = record writable_config { readonly = true }

readonly_consumes_nothing_example :
    ((verify_and_consume_issued_plan same_digest load_str shown_hash readonly_config 150 200
        "readonly" subject
        (some "n")
        (some (seconds 700))
        one_row).1
      ≡ one_row)
    × ((p : Option Value)
        → (verify_and_consume_issued_plan same_digest load_str shown_hash readonly_config 150 200
            "readonly" subject
            (some "n")
            (some (seconds 700))
            one_row).0
          ≢ ok (payload_of p))
readonly_consumes_nothing_example =
    readonly_consumes_nothing same_digest load_str shown_hash readonly_config 150 200 "readonly"
      subject (some "n") (some (seconds 700)) one_row refl

abbrev built : PlanContext × String
built = build_plan_context shown_hash writable_config 100 subject none "n" 600

built_issued : (issue_plan same_digest load_str 100 built.0 built.1 (some "p") no_rows).0 ≡ ok none
unfolding issue_plan issue build_plan_context context_of incubator_hugegraph_ai.Prelude.find
    incubator_hugegraph_ai.ConfirmationStore.upsert_issued incubator_hugegraph_ai.Prelude.any
    incubator_hugegraph_ai.ConfirmationStore.cleanup_expired
    incubator_hugegraph_ai.Prelude.delete_where incubator_hugegraph_ai.Prelude.str_eq
built_issued = refl

confirm-issue_example :
    (verify_and_consume_issued_plan same_digest load_str shown_hash writable_config 150 200 built.1
      subject
      (some built.0.nonce)
      (some (seconds built.0.expires_at))
      (issue_plan same_digest load_str 100 built.0 built.1 (some "p") no_rows).1).0
    ≡ ok (payload_of payload)
unfolding build_plan_context context_of incubator_hugegraph_ai.Prelude.any
confirm-issue_example =
    confirm-issue same_digest load_str shown_hash writable_config writable_config 100 100 150 200
      subject none "n" 600 "p" (str "p") no_rows built_issued refl refl refl refl refl refl refl
      refl refl (ground arith) (ground arith)
