-- ===== src/PlanStore/Plans.antt =====
-- `save_plan`, `get_plan_record`, `get_plan` and `transition_plan` of plan_store.py.
use incubator_hugegraph_ai.Prelude.{
  ℕ, suc, ◌++◌, String, Bool, false, ◌&&◌, not, ◌==◌, Option, none, some, List, [], ◌∷◌, str_eq,
  if◌then◌else◌, any, update_where, count_where, Outcome, Error, Result, ok, err, ◌>>=◌, after,
}
use incubator_hugegraph_ai.WritePlan.Status.{PlanStatus, same_status, can_transition}
use incubator_hugegraph_ai.WritePlan.Value.{
  Value, Values, Fields, none_value, str, list, mapping, nil, cons, get_field,
}
use incubator_hugegraph_ai.WritePlan.Plan.{
  GraphTarget, OperationPlan, WritePlan, new_operation_plan, new_write_plan,
}
use incubator_hugegraph_ai.WritePlan.Encoding.{target_to_dict, operation_to_dict, plan_to_dict}
use incubator_hugegraph_ai.PlanStore.Rows.{
  PlanRow, OperationRow, Store, is_plan, find_plan, operations_of,
}
use incubator_hugegraph_ai.PlanStore.Legacy.{prepare, same_keys}

-- `get_plan_record`: a plan's row with its operations in order
pub record PlanRecord : Type 0 where
  pub row : PlanRow
  pub operations : List OperationRow

unfoldable pub get_plan_record : String → Store → Option PlanRecord
get_plan_record plan_id s = elim (find_plan plan_id s) [
  | none ↦ none
  | some r ↦ some (record { row = r; operations = operations_of plan_id s })
]

-- `item[key]` where a text, a mapping, a list of texts or an optional text stands
abbrev pub as_text : Option Value → Result String
as_text (some (str t)) = ok t
as_text _ = err (Error.key_error "text")

abbrev pub as_mapping : Option Value → Result Fields
as_mapping (some (mapping fs)) = ok fs
as_mapping _ = err (Error.key_error "mapping")

abbrev pub texts_of : Values → Result (List String)
texts_of nil = ok []
texts_of (cons (str t) vs) = do ts ← texts_of vs; ok (t ∷ ts)
texts_of (cons _ vs) = err (Error.key_error "text")

-- `tuple(item.get(key) or ())`
abbrev pub as_texts : Option Value → Result (List String)
as_texts none = ok []
as_texts (some none_value) = ok []
as_texts (some (list vs)) = texts_of vs
as_texts _ = err (Error.key_error "list")

-- `item.get(key)`
abbrev pub as_optional_text : Option Value → Result (Option String)
as_optional_text none = ok none
as_optional_text (some none_value) = ok none
as_optional_text (some (str t)) = ok (some t)
as_optional_text _ = err (Error.key_error "text")

-- one operation of `get_plan`
unfoldable pub decode_operation : Value → Result OperationPlan
unfolding str_eq
decode_operation (mapping item) = do
  operation_id ← as_text (get_field "operation_id" item)
  kind ← as_text (get_field "kind" item)
  target ← as_mapping (get_field "target" item)
  expected_state ← as_mapping (get_field "expected_state" item)
  desired_state ← as_mapping (get_field "desired_state" item)
  depends_on ← as_texts (get_field "depends_on" item)
  idempotency_key ← as_optional_text (get_field "idempotency_key" item)
  new_operation_plan (record {
    operation_id = operation_id;
    kind = kind;
    target = target;
    expected_state = expected_state;
    desired_state = desired_state;
    depends_on = depends_on;
    idempotency_key = idempotency_key;
  })
decode_operation _ = err (Error.key_error "mapping")

unfoldable pub decode_operations : List OperationRow → Result (List OperationPlan)
decode_operations [] = ok []
decode_operations (r ∷ rs) = do
  o ← decode_operation r.payload_json
  os ← decode_operations rs
  ok (o ∷ os)

unfoldable pub decode_target : Fields → Result GraphTarget
unfolding str_eq
decode_target fs = do
  graph_url ← as_text (get_field "graph_url" fs)
  graph_name ← as_text (get_field "graph_name" fs)
  graphspace ← as_optional_text (get_field "graphspace" fs)
  ok (record { graph_url = graph_url; graph_name = graph_name; graphspace = graphspace })

-- the end of `get_plan`
unfoldable pub rehydrate : PlanRecord → Result WritePlan
rehydrate r = do
  operations ← decode_operations r.operations
  target ← decode_target r.row.graph_target_json
  new_write_plan (record {
    plan_id = r.row.plan_id;
    tool_name = r.row.tool_name;
    graph_target = target;
    principal = r.row.principal;
    operations = operations;
    payload_digest = r.row.payload_digest;
    schema_fingerprint = r.row.schema_fingerprint;
    status = r.row.status;
    created_at = r.row.created_at;
    expires_at = r.row.expires_at;
  })

-- `get_plan` on a prepared database
unfoldable pub read_plan : String → Store → Result (Option WritePlan)
read_plan plan_id s = elim (get_plan_record plan_id s) [
  | none ↦ ok none
  | some r ↦ if str_eq r.row.tool_name "legacy" then ok none else do p ← rehydrate r; ok (some p)
]

module _ (loads : String → Option Value) where
  unfoldable pub get_plan : String → Store → Outcome Store (Option WritePlan)
  get_plan plan_id s = after (prepare loads s) (λ _ s'. (read_plan plan_id s', s'))

  -- `plan = self.get_plan(plan_id)`, and the exception where it is gone
  unfoldable pub returning_plan : String → String → Store → Outcome Store WritePlan
  returning_plan plan_id message s = after (get_plan plan_id s) (λ found s'. elim found [
    | none ↦ (err (Error.plan_transition_error message), s')
    | some p ↦ (ok p, s')
  ])

-- the update of `transition_plan`; `now` is the database's clock
unfoldable pub transition_row :
    ℕ → String → PlanStatus → PlanStatus → Store → Outcome Store (Unit {0})
transition_row now plan_id expected target s =
    let matches : PlanRow → Bool = λ r. is_plan plan_id r && same_status r.status expected in
    let confirm : Option ℕ → Option ℕ = λ c.
      if same_status target PlanStatus.executing
      then elim c [ none ↦ some now | some t ↦ some t ]
      else c in
    if count_where matches s.plans == 1
    then (
      ok tt,
      record s {
        plans =
            update_where matches
              (λ (r : PlanRow). record r { status = target; confirmed_at = confirm r.confirmed_at })
              s.plans;
      },
    )
    else (
      err (Error.plan_transition_error "durable plan state did not match the expected state"),
      s,
    )

module _ (loads : String → Option Value) where
  -- `transition_plan`
  unfoldable pub transition_plan :
      ℕ → String → PlanStatus → PlanStatus → Store → Outcome Store WritePlan
  transition_plan now plan_id expected target s =
      if not (can_transition expected target)
      then (err (Error.plan_transition_error "illegal transition"), s)
      else after (prepare loads s) (λ _ s1.
        after (transition_row now plan_id expected target s1)
          (λ _ s2. returning_plan loads plan_id "plan disappeared after transition" s2))

module _ (sort : Values → Values) where
  abbrev pub operation_row_of : WritePlan → ℕ → OperationPlan → OperationRow
  operation_row_of p ordinal o = record {
    operation_id = o.operation_id;
    plan_id = p.plan_id;
    ordinal = ordinal;
    kind = o.kind;
    payload_json = mapping (operation_to_dict sort o);
    status = PlanStatus.issued;
    attempt = 0;
    receipt_json = none;
    updated_at = p.created_at;
    attempt_token = none;
    reconciled = false;
  }

  abbrev pub plan_row_of : WritePlan → PlanRow
  plan_row_of p = record {
    plan_id = p.plan_id;
    tool_name = p.tool_name;
    graph_target_json = target_to_dict p.graph_target;
    principal = p.principal;
    payload_json = mapping (plan_to_dict sort p);
    payload_digest = p.payload_digest;
    schema_fingerprint = p.schema_fingerprint;
    status = p.status;
    created_at = p.created_at;
    expires_at = p.expires_at;
    confirmed_at = none;
    lease_owner = none;
    lease_expires_at = none;
  }

  -- the loop of `save_plan`; a clash of keys raises
  unfoldable pub insert_operations :
      WritePlan → ℕ → List OperationPlan → List OperationRow → Result (List OperationRow)
  insert_operations p ordinal [] rows = ok rows
  insert_operations p ordinal (o ∷ os) rows =
      let r = operation_row_of p ordinal o in
      let rest = insert_operations p (suc ordinal) os (rows ++ r ∷ []) in
      if any (same_keys r) rows then err (Error.integrity_error "write_operations") else rest

  -- the transaction of `save_plan`
  unfoldable pub save_rows : WritePlan → Store → Outcome Store (Unit {0})
  save_rows p s =
      if any (is_plan p.plan_id) s.plans
      then (err (Error.integrity_error "write_plans"), s)
      else elim (insert_operations p 0 p.operations s.operations) [
        | err e ↦ (err e, s)
        | ok rows ↦ (ok tt, record s { plans = s.plans ++ plan_row_of p ∷ []; operations = rows })
      ]

  -- `save_plan`
  unfoldable pub save_plan : (String → Option Value) → WritePlan → Store → Outcome Store (Unit {0})
  save_plan loads p s = after (prepare loads s) (λ _ s'. save_rows p s')
