-- ===== src/ConfirmationStore.antt =====
-- hugegraph-mcp/hugegraph_mcp/confirmation_store.py: the ledger of single-use confirmations.
-- A table is a list of rows. The clock is the argument `now`; `digest` is the SHA-256 of a nonce and
-- `loads` is `json.loads`, none where it raises. Failures of the disk are not modelled, and a
-- database that does not exist is one with empty tables.
pub mod SingleUse
pub mod Issuing
use incubator_hugegraph_ai.Prelude.{
  ℕ, ◌+◌, String, Bool, true, false, not, ◌||◌, ◌&&◌, Option, none, some, List, [], ◌∷◌, ◌++◌,
  str_eq, ltb, leb, ◌==◌, if◌then◌else◌, any, find, update_where, count_where, delete_where,
  Outcome, Error, Result, ok, err, ◌>>=◌,
}
use incubator_hugegraph_ai.WritePlan.Status.{PlanStatus}
use incubator_hugegraph_ai.WritePlan.Value.{Value}

pub record IssuedRow : Type 0 where
  pub nonce_digest : String
  pub plan_hash : String
  pub expires_at : ℕ
  pub issued_at : ℕ
  pub plan_payload_json : Option String

pub record ConsumedRow : Type 0 where
  pub nonce_digest : String
  pub plan_hash : String
  pub expires_at : ℕ
  pub consumed_at : ℕ

pub record OperationRow : Type 0 where
  pub plan_hash : String
  pub nonce_digest : String
  pub plan_payload_json : Option String
  pub status : PlanStatus
  pub receipt_json : Option String
  pub updated_at : ℕ

pub record ConfirmationDb : Type 0 where
  pub issued : List IssuedRow
  pub consumed : List ConsumedRow
  pub operations : List OperationRow

abbrev pub default_plan_ttl_seconds : ℕ
default_plan_ttl_seconds = 600

abbrev pub issued_for : String → IssuedRow → Bool
issued_for d r = str_eq r.nonce_digest d

abbrev pub consumed_for : String → ConsumedRow → Bool
consumed_for d r = str_eq r.nonce_digest d

-- the two keys of `write_operations`
abbrev pub clashes : String → String → OperationRow → Bool
clashes plan_hash d r = str_eq r.plan_hash plan_hash || str_eq r.nonce_digest d

-- `_cleanup_expired`
unfoldable pub cleanup_expired : ℕ → ConfirmationDb → ConfirmationDb
cleanup_expired now db = record db {
  consumed = delete_where (λ (r : ConsumedRow). ltb r.expires_at now) db.consumed;
  issued = delete_where (λ (r : IssuedRow). ltb r.expires_at now) db.issued;
}

-- `INSERT … ON CONFLICT(nonce_digest) DO UPDATE … WHERE plan_hash = excluded.plan_hash`
unfoldable pub upsert_issued : IssuedRow → List IssuedRow → List IssuedRow
upsert_issued new rows =
    if any (issued_for new.nonce_digest) rows
    then update_where
        (λ (r : IssuedRow). issued_for new.nonce_digest r && str_eq r.plan_hash new.plan_hash)
        (λ _. new) rows
    else rows ++ new ∷ []

abbrev pub same_payload : Option String → Option String → Bool
same_payload none none = true
same_payload (some a) (some b) = str_eq a b
same_payload _ _ = false

-- `row != (plan_hash, expires_at, payload_json)`
abbrev pub row_differs : Option IssuedRow → IssuedRow → Bool
row_differs none new = true
row_differs (some r) new = not (
    str_eq r.plan_hash new.plan_hash
    && (r.expires_at == new.expires_at)
    && same_payload r.plan_payload_json new.plan_payload_json)

-- what `json.loads(payload_json) if payload_json is not None else None` returns or raises
abbrev pub load_payload :
    (String → Option Value) → Option String → ConfirmationDb → Outcome ConfirmationDb (Option Value)
load_payload loads none db = (ok none, db)
load_payload loads (some text) db = elim (loads text) [
  | none ↦ (err Error.confirmation_store_unavailable_error, db)
  | some v ↦ (ok (some v), db)
]

module _ (digest : String → String) (loads : String → Option Value) where
  -- `has_consumed`
  unfoldable pub has_consumed : Option String → ConfirmationDb → Bool
  has_consumed none db = false
  has_consumed (some nonce) db =
      not (str_eq nonce "") && any (consumed_for (digest nonce)) db.consumed

  -- `issue`
  unfoldable pub issue :
      ℕ → String → String → ℕ → Option String → ConfirmationDb → Outcome ConfirmationDb (Unit {0})
  issue now nonce plan_hash expires_at payload_json db =
      let new : IssuedRow = record {
        nonce_digest = digest nonce;
        plan_hash = plan_hash;
        expires_at = expires_at;
        issued_at = now;
        plan_payload_json = payload_json;
      } in
      let cleaned = cleanup_expired now db in
      let written = upsert_issued new cleaned.issued in
      if leb expires_at now || ltb (now + default_plan_ttl_seconds) expires_at
      then (err Error.confirmation_plan_expired_error, db)
      else if row_differs (find (issued_for (digest nonce)) written) new
      then (err Error.confirmation_plan_mismatch_error, cleaned)
      else (ok tt, record cleaned { issued = written })

  -- the checks of `issued_payload` and `consume` on the row that was found
  unfoldable pub check_issued : ℕ → String → ℕ → IssuedRow → Option Error
  check_issued now plan_hash expires_at r =
      if not (str_eq r.plan_hash plan_hash) || not (r.expires_at == expires_at)
      then some Error.confirmation_plan_mismatch_error
      else if ltb r.expires_at now || ltb (r.issued_at + default_plan_ttl_seconds) r.expires_at
      then some Error.confirmation_plan_expired_error
      else none

  -- `issued_payload`
  unfoldable pub issued_payload :
      ℕ → String → String → ℕ → ConfirmationDb → Outcome ConfirmationDb (Option Value)
  issued_payload now nonce plan_hash expires_at db =
      elim (find (issued_for (digest nonce)) db.issued) [
        | none ↦ (err Error.confirmation_not_issued_error, db)
        | some r ↦ elim (check_issued now plan_hash expires_at r) [
          | some e ↦ (err e, db)
          | none ↦ load_payload loads r.plan_payload_json db
        ]
      ]

  -- the row that `consume` inserts into `write_operations`
  abbrev pub attempt_row : ℕ → String → String → IssuedRow → OperationRow
  attempt_row now nonce plan_hash r = record {
    plan_hash = plan_hash;
    nonce_digest = digest nonce;
    plan_payload_json = r.plan_payload_json;
    status = PlanStatus.executing;
    receipt_json = none;
    updated_at = now;
  }

  -- the two inserts and the delete of `consume`
  unfoldable pub taken : ℕ → String → String → ℕ → IssuedRow → ConfirmationDb → ConfirmationDb
  taken now nonce plan_hash expires_at r db = record {
    issued = delete_where (issued_for (digest nonce)) db.issued;
    consumed =
        db.consumed
        ++ (record {
          nonce_digest = digest nonce;
          plan_hash = plan_hash;
          expires_at = expires_at;
          consumed_at = now;
        })
          ∷ [];
    operations = db.operations ++ attempt_row now nonce plan_hash r ∷ [];
  }

  -- the transaction of `consume`: a clash with a key of `write_operations` raises and rolls back
  unfoldable pub take_confirmation :
      ℕ → String → String → ℕ → IssuedRow → ConfirmationDb → Outcome ConfirmationDb (Option Value)
  take_confirmation now nonce plan_hash expires_at r db =
      if any (clashes plan_hash (digest nonce)) db.operations
      then (err Error.confirmation_already_used_error, db)
      else load_payload loads r.plan_payload_json (taken now nonce plan_hash expires_at r db)

  -- `consume`, once `_cleanup_expired` has committed
  unfoldable pub consume_cleaned :
      ℕ → String → String → ℕ → ConfirmationDb → Outcome ConfirmationDb (Option Value)
  consume_cleaned now nonce plan_hash expires_at db =
      if any (consumed_for (digest nonce)) db.consumed
      then (err Error.confirmation_already_used_error, db)
      else elim (find (issued_for (digest nonce)) db.issued) [
        | none ↦ (err Error.confirmation_not_issued_error, db)
        | some r ↦ elim (check_issued now plan_hash expires_at r) [
          | some e ↦ (err e, db)
          | none ↦ take_confirmation now nonce plan_hash expires_at r db
        ]
      ]

  -- `consume`
  unfoldable pub consume :
      ℕ → String → String → ℕ → ConfirmationDb → Outcome ConfirmationDb (Option Value)
  consume now nonce plan_hash expires_at db =
      consume_cleaned now nonce plan_hash expires_at (cleanup_expired now db)

-- `record_outcome`
unfoldable pub record_outcome :
    ℕ → String → PlanStatus → String → ConfirmationDb → Outcome ConfirmationDb (Unit {0})
record_outcome now plan_hash status receipt_json db =
    let matches : OperationRow → Bool = λ r. str_eq r.plan_hash plan_hash in
    if count_where matches db.operations == 1
    then (
      ok tt,
      record db {
        operations =
            update_where matches
              (λ (r : OperationRow). record r {
                status = status;
                receipt_json = some receipt_json;
                updated_at = now;
              })
              db.operations;
      },
    )
    else (err Error.confirmation_not_issued_error, db)

-- What `_operation_row` shows of a row.
pub record OperationView : Type 0 where
  pub plan_hash : String
  pub status : PlanStatus
  pub plan : Option Value
  pub receipt : Option Value
  pub updated_at : ℕ

-- `json.loads(text) if text else None`
abbrev pub load_text : (String → Option Value) → Option String → Result (Option Value)
load_text loads none = ok none
load_text loads (some text) = if str_eq text "" then ok none else elim (loads text) [
  | none ↦ err Error.confirmation_store_unavailable_error
  | some v ↦ ok (some v)
]

module _ (loads : String → Option Value) where
  -- `_operation_row`
  unfoldable pub operation_row :
      (OperationRow → Bool) → ConfirmationDb → Result (Option OperationView)
  operation_row matches db = elim (find matches db.operations) [
    | none ↦ ok none
    | some r ↦ do
      plan ← load_text loads r.plan_payload_json
      receipt ← load_text loads r.receipt_json
      ok (
          some (record {
            plan_hash = r.plan_hash;
            status = r.status;
            plan = plan;
            receipt = receipt;
            updated_at = r.updated_at;
          }))
  ]

  -- `operation_for_nonce`
  unfoldable pub operation_for_nonce :
      (String → String) → Option String → ConfirmationDb → Result (Option OperationView)
  operation_for_nonce digest none db = ok none
  operation_for_nonce digest (some nonce) db =
      if str_eq nonce ""
      then ok none
      else operation_row (λ (r : OperationRow). str_eq r.nonce_digest (digest nonce)) db

  -- `operation_for_plan`
  unfoldable pub operation_for_plan : Option String → ConfirmationDb → Result (Option OperationView)
  operation_for_plan none db = ok none
  operation_for_plan (some plan_hash) db =
      if str_eq plan_hash ""
      then ok none
      else operation_row (λ (r : OperationRow). str_eq r.plan_hash plan_hash) db
