-- ===== src/PlanStore/Prepared.antt =====
-- `prepare` only adds rows: what the store held before is found again.
use incubator_hugegraph_ai.Prelude.{
  String, ◌≡◌, Bool, Option, some, List, [], ◌∷◌, any, find, find-append, Bool-cases, inl, inr, ltb,
}
use incubator_hugegraph_ai.WritePlan.Value.{Value}
use incubator_hugegraph_ai.ConfirmationStore
use incubator_hugegraph_ai.ConfirmationStore.{IssuedRow, ConsumedRow}
use incubator_hugegraph_ai.PlanStore.Rows.{
  PlanRow, OperationRow, Store, schema_version, find_plan, find_operation, is_plan, is_operation,
}
use incubator_hugegraph_ai.PlanStore.Legacy.{
  insert_plan, insert_operation, same_keys, migrate_legacy_plan, migrate_hashes, prepare,
}

-- What the first store finds by its keys, the second finds too.
pub record Keeps (s s' : Store) : Type 0 where
  pub plan :
      (plan_id : String) (r : PlanRow)
      → find_plan plan_id s ≡ some r
      → find_plan plan_id s' ≡ some r
  pub operation :
      (plan_id operation_id : String) (r : OperationRow)
      → find_operation plan_id operation_id s ≡ some r
      → find_operation plan_id operation_id s' ≡ some r

pub Keeps-refl : (s : Store) → Keeps s s
Keeps-refl s = record { plan = λ i r e. e; operation = λ i j r e. e }

pub Keeps-trans : {s t u : Store} → Keeps s t → Keeps t u → Keeps s u
Keeps-trans k l = record {
  plan = λ i r e. l.plan i r (k.plan i r e);
  operation = λ i j r e. l.operation i j r (k.operation i j r e);
}

found_in_plans :
    (p : PlanRow → Bool) (x : PlanRow) (rows : List PlanRow) {r : PlanRow}
    → find p rows ≡ some r
    → find p (insert_plan x rows) ≡ some r
unfolding insert_plan
found_in_plans p x rows e = elim (Bool-cases (any (is_plan x.plan_id) rows)) [
  | inl there ↦ rw there e
  | inr new ↦ rw (new, find-append p rows (x ∷ []), e)
]

found_in_operations :
    (p : OperationRow → Bool) (x : OperationRow) (rows : List OperationRow) {r : OperationRow}
    → find p rows ≡ some r
    → find p (insert_operation x rows) ≡ some r
unfolding insert_operation
found_in_operations p x rows e = elim (Bool-cases (any (same_keys x) rows)) [
  | inl there ↦ rw there e
  | inr new ↦ rw (new, find-append p rows (x ∷ []), e)
]

module _ (loads : String → Option Value) where
  migrate-Keeps :
      (h : String) (i : Option IssuedRow) (c : Option ConsumedRow)
      (o : Option ConfirmationStore.OperationRow) (s : Store)
      → Keeps s (migrate_legacy_plan loads h i c o s)
  unfolding migrate_legacy_plan
  migrate-Keeps h i c o s = record {
    plan = λ id r e. found_in_plans (is_plan id) _ s.plans e;
    operation = λ id j r e. found_in_operations (is_operation id j) _ s.operations e;
  }

  migrate_hashes-Keeps : (hs : List String) (s : Store) → Keeps s (migrate_hashes loads hs s)
  unfolding migrate_hashes
  migrate_hashes-Keeps [] s = Keeps-refl s
  migrate_hashes-Keeps (h ∷ hs) s =
      Keeps-trans (migrate-Keeps h _ _ _ s) (migrate_hashes-Keeps hs _)

  -- Whatever legacy state is imported, every plan and operation that the store held is kept.
  pub prepare-Keeps : (s : Store) → Keeps s (prepare loads s).1
  unfolding prepare
  prepare-Keeps s = elim (Bool-cases (ltb schema_version s.user_version)) [
    | inl newer ↦ rw newer (Keeps-refl s)
    | inr fine ↦ rw fine (start-Keeps s (migrate_hashes-Keeps _ _))
  ]
    where
      start-Keeps :
          (s : Store) {t : Store} → Keeps (record s { user_version = schema_version }) t → Keeps s t
      start-Keeps s k = record { plan = k.plan; operation = k.operation }
