-- ===== src/PlanStore/Legacy.antt =====
-- `prepare` of plan_store.py: the schema version, and the import of legacy confirmations.
-- `loads` is `json.loads`, none where it raises. A legacy status is one that this version knows, so
-- the handler for an unknown text never runs.
use Prim.Native.String.{compare}
use Prim.Native.Nat.{Ordering}
use incubator_hugegraph_ai.Prelude.{
  ℕ, ◌++◌, String, Bool, true, false, ◌||◌, ◌&&◌, not, ◌==◌, Option, none, some, List, [], ◌∷◌, map,
  str_eq, ltb, if◌then◌else◌, any, Outcome, Error, ok, err,
}
use incubator_hugegraph_ai.WritePlan.Status.{PlanStatus}
use incubator_hugegraph_ai.WritePlan.Value.{Value, none_value, str, mapping, end, field}
use incubator_hugegraph_ai.ConfirmationStore
use incubator_hugegraph_ai.ConfirmationStore.{ConfirmationDb, IssuedRow, ConsumedRow}
use incubator_hugegraph_ai.PlanStore.Rows.{
  PlanRow, OperationRow, Store, schema_version, is_plan, number_or,
}

-- `legacy_plan_id` and `legacy_operation_id`
abbrev pub legacy_plan_id : String → String
legacy_plan_id plan_hash = Prim.Native.String.◌++◌ "wp_legacy_" plan_hash

abbrev pub legacy_operation_id : String → String
legacy_operation_id plan_hash = Prim.Native.String.◌++◌ "op_legacy_" plan_hash

-- `_safe_json`
abbrev pub safe_json : (String → Option Value) → Option String → Value × Bool
safe_json loads none = (none_value, true)
safe_json loads (some text) = elim (loads text) [ none ↦ (none_value, false) | some v ↦ (v, true) ]

-- `_legacy_status`
unfoldable pub legacy_status :
    Option ConfirmationStore.OperationRow → Option ConsumedRow → Bool → Bool → PlanStatus
legacy_status operation consumed payload_valid receipt_valid =
    if not payload_valid || not receipt_valid then PlanStatus.legacy_unknown else elim operation [
      | some o ↦ o.status
      | none ↦ elim consumed [ some c ↦ PlanStatus.legacy_unknown | none ↦ PlanStatus.issued ]
    ]

-- `INSERT OR IGNORE INTO write_plans`
unfoldable pub insert_plan : PlanRow → List PlanRow → List PlanRow
insert_plan r rows = if any (is_plan r.plan_id) rows then rows else rows ++ r ∷ []

-- the keys of `write_operations`: the operation's id, and the plan's id with the ordinal
abbrev pub same_keys : OperationRow → OperationRow → Bool
same_keys r x =
    str_eq x.operation_id r.operation_id || (str_eq x.plan_id r.plan_id && (x.ordinal == r.ordinal))

-- `INSERT OR IGNORE INTO write_operations`
unfoldable pub insert_operation : OperationRow → List OperationRow → List OperationRow
insert_operation r rows = if any (same_keys r) rows then rows else rows ++ r ∷ []

-- `first or second`, where both may be missing
abbrev first_text : Option String → Option String → Option String
first_text none d = d
first_text (some t) d = some t

-- a sorted set of texts
unfoldable pub insert_sorted : String → List String → List String
insert_sorted t [] = t ∷ []
insert_sorted t (x ∷ xs) =
    let rest = insert_sorted t xs in
    elim (compare t x) [ Ordering.lt ↦ t ∷ x ∷ xs | Ordering.eq ↦ x ∷ xs | Ordering.gt ↦ x ∷ rest ]

unfoldable pub sorted_set : List String → List String
unfolding insert_sorted
sorted_set [] = []
sorted_set (t ∷ ts) = insert_sorted t (sorted_set ts)

-- the row that a dict built from the table holds under a key: the last one
unfoldable pub find_last {ℓ} : {A : Type ℓ} → (A → Bool) → List A → Option A
find_last p [] = none
find_last p (x ∷ xs) = elim (find_last p xs) [
  | some y ↦ some y
  | none ↦ if p x then some x else none
]

module _ (loads : String → Option Value) where
  -- `_migrate_legacy_plan`
  unfoldable pub migrate_legacy_plan :
      String
      → Option IssuedRow
      → Option ConsumedRow
      → Option ConfirmationStore.OperationRow
      → Store
      → Store
  unfolding legacy_status insert_plan insert_operation
  migrate_legacy_plan plan_hash issued consumed operation s =
      let payload_text : Option String =
        first_text (elim operation [ none ↦ none | some o ↦ o.plan_payload_json ])
          (elim issued [ none ↦ none | some i ↦ i.plan_payload_json ]) in
      let receipt_text : Option String = elim operation [ none ↦ none | some o ↦ o.receipt_json ] in
      let (payload, payload_valid) = safe_json loads payload_text in
      let (receipt, receipt_valid) = safe_json loads receipt_text in
      let status = legacy_status operation consumed payload_valid receipt_valid in
      let issued_at : Option ℕ = elim issued [ none ↦ none | some i ↦ some i.issued_at ] in
      let consumed_at : Option ℕ = elim consumed [ none ↦ none | some c ↦ some c.consumed_at ] in
      let updated_at : Option ℕ = elim operation [ none ↦ none | some o ↦ some o.updated_at ] in
      let issued_expiry : Option ℕ = elim issued [ none ↦ none | some i ↦ some i.expires_at ] in
      let consumed_expiry : Option ℕ = elim consumed [ none ↦ none | some c ↦ some c.expires_at ] in
      let created_at = number_or issued_at (number_or consumed_at (number_or updated_at 0)) in
      let stored_receipt : Option Value =
        if not payload_valid || not receipt_valid
        then some (mapping (field "reason_code" (str "CORRUPT_LEGACY_STATE") end))
        else elim receipt [ none_value ↦ none | v ↦ some v ] in
      record s {
        plans =
            insert_plan
              (record {
                plan_id = legacy_plan_id plan_hash;
                tool_name = "legacy";
                graph_target_json = end;
                principal = "legacy";
                payload_json = payload;
                payload_digest = plan_hash;
                schema_fingerprint = none;
                status = status;
                created_at = created_at;
                expires_at = number_or issued_expiry (number_or consumed_expiry created_at);
                confirmed_at = consumed_at;
                lease_owner = none;
                lease_expires_at = none;
              })
              s.plans;
        operations =
            insert_operation
              (record {
                operation_id = legacy_operation_id plan_hash;
                plan_id = legacy_plan_id plan_hash;
                ordinal = 0;
                kind = "LEGACY_CONFIRMATION";
                payload_json = payload;
                status = status;
                attempt = elim consumed [ none ↦ 0 | some c ↦ 1 ];
                receipt_json = stored_receipt;
                updated_at = number_or updated_at created_at;
                attempt_token = none;
                reconciled = false;
              })
              s.operations;
      }

  abbrev legacy_hashes : ConfirmationDb → List String
  legacy_hashes db = sorted_set (
      map (λ (r : IssuedRow). r.plan_hash) db.issued
      ++ (map (λ (r : ConsumedRow). r.plan_hash) db.consumed
          ++ map (λ (r : ConfirmationStore.OperationRow). r.plan_hash) db.operations))

  -- the loop of `_migrate_legacy` over the plan hashes
  unfoldable pub migrate_hashes : List String → Store → Store
  unfolding find_last
  migrate_hashes [] s = s
  migrate_hashes (h ∷ hs) s = migrate_hashes hs (
      migrate_legacy_plan h (find_last (λ (r : IssuedRow). str_eq r.plan_hash h) s.legacy.issued)
        (find_last (λ (r : ConsumedRow). str_eq r.plan_hash h) s.legacy.consumed)
        (find_last (λ (r : ConfirmationStore.OperationRow). str_eq r.plan_hash h)
          s.legacy.operations)
        s)

  -- `prepare`
  unfoldable pub prepare : Store → Outcome Store (Unit {0})
  unfolding sorted_set
  prepare s =
      if ltb schema_version s.user_version
      then (err (Error.plan_store_unavailable_error "schema is newer than supported"), s)
      else (
        ok tt,
        migrate_hashes (legacy_hashes s.legacy) (record s { user_version = schema_version }),
      )
