-- ===== src/Execution/Status.antt =====
-- `WriteExecutor.status` and `_confirmation_result` of write_executor.py.
use incubator_hugegraph_ai.Prelude.{
  ℕ, String, Bool, true, false, ◌||◌, ◌&&◌, is_some, Option, none, some, List, map, str_eq,
  if◌then◌else◌, after, ok, Outcome,
}
use incubator_hugegraph_ai.Envelope.{ErrorType, Reply, envelope_ok, envelope_err}
use incubator_hugegraph_ai.WritePlan.Status.{PlanStatus, same_status}
use incubator_hugegraph_ai.WritePlan.Value.{Value, Fields, mapping, end, field}
use incubator_hugegraph_ai.PlanStore.Rows.{OperationRow, Store, lease_available}
use incubator_hugegraph_ai.PlanStore.Legacy.{prepare}
use incubator_hugegraph_ai.PlanStore.Plans.{PlanRecord, get_plan_record}
use incubator_hugegraph_ai.Execution.World.{Services, Action, pure, query, read_clock, ◌>>=◌}

-- An operation as a client sees it: without its payload and its tokens.
pub record PublicOperation : Type 0 where
  pub operation_id : String
  pub ordinal : ℕ
  pub kind : String
  pub status : PlanStatus
  pub attempt : ℕ
  pub receipt : Option Value
  pub updated_at : ℕ

-- A plan as a client sees it: without its payload and its lease owner.
pub record PublicPlan : Type 0 where
  pub plan_id : String
  pub tool_name : String
  pub graph_target : Fields
  pub principal : String
  pub payload_digest : String
  pub schema_fingerprint : Option String
  pub status : PlanStatus
  pub created_at : ℕ
  pub expires_at : ℕ
  pub confirmed_at : Option ℕ
  pub lease_expires_at : Option ℕ
  pub reconciliation_required : Option Bool
  pub operations : List PublicOperation

pub data Details : Type 0 where
  nothing : Details
  missing_operation_kinds : List String → Details
  missing_operation_kind : String → Details
  reason_code : String → Details
  plan_details : PublicPlan → Details

-- the entries of a mapping but one
abbrev pub drop_field : String → Fields → Fields
drop_field key end = end
drop_field key (field k v fs) =
    let rest = drop_field key fs in if str_eq k key then rest else field k v rest

abbrev pub public_receipt : Option Value → Option Value
public_receipt (some (mapping fs)) = some (mapping (drop_field "attempt_token" fs))
public_receipt r = r

abbrev pub public_operation : OperationRow → PublicOperation
public_operation r = record {
  operation_id = r.operation_id;
  ordinal = r.ordinal;
  kind = r.kind;
  status = r.status;
  attempt = r.attempt;
  receipt = public_receipt r.receipt_json;
  updated_at = r.updated_at;
}

-- the status that is shown, and whether reconciliation is asked for
unfoldable pub shown_status : ℕ → PlanStatus → Option ℕ → PlanStatus × Option Bool
shown_status now PlanStatus.legacy_unknown lease = (PlanStatus.unknown, some true)
shown_status now PlanStatus.executing lease =
    if lease_available now lease
    then (PlanStatus.unknown, some true)
    else (PlanStatus.executing, some false)
shown_status now s lease = (s, none)

unfoldable pub public_plan : ℕ → PlanRecord → PublicPlan
unfolding shown_status
public_plan now r =
    let (status, required) = shown_status now r.row.status r.row.lease_expires_at in
    record {
      plan_id = r.row.plan_id;
      tool_name = r.row.tool_name;
      graph_target = r.row.graph_target_json;
      principal = r.row.principal;
      payload_digest = r.row.payload_digest;
      schema_fingerprint = r.row.schema_fingerprint;
      status = status;
      created_at = r.row.created_at;
      expires_at = r.row.expires_at;
      confirmed_at = r.row.confirmed_at;
      lease_expires_at = r.row.lease_expires_at;
      reconciliation_required = required;
      operations = map public_operation r.operations;
    }

abbrev pub PlanReply : Type 0
PlanReply = Reply PublicPlan Details

-- the reply of `status` to what the store holds
unfoldable pub status_reply : ℕ → Option PlanRecord → PlanReply
unfolding public_plan
status_reply now none = envelope_err ErrorType.not_found nothing
status_reply now (some r) = envelope_ok (public_plan now r)

-- the error type of `_confirmation_result`
abbrev pub outcome_error : PlanStatus → ErrorType
outcome_error PlanStatus.partial = ErrorType.partial_apply
outcome_error PlanStatus.conflict = ErrorType.write_conflict
outcome_error PlanStatus.rejected = ErrorType.flow_execution_failed
outcome_error PlanStatus.expired = ErrorType.plan_expired
outcome_error _ = ErrorType.write_outcome_unknown

-- the reply of `_confirmation_result` to the reply of `status`
unfoldable pub confirmation_reply : PlanReply → PlanReply
confirmation_reply (envelope_err t d) = envelope_err t d
confirmation_reply (envelope_ok p) =
    if same_status p.status PlanStatus.applied || same_status p.status PlanStatus.already_applied
    then envelope_ok p
    else envelope_err (outcome_error p.status) (plan_details p)

module _ (v : Services) where
  -- `get_plan_record`
  unfoldable pub get_record : String → Store → Outcome Store (Option PlanRecord)
  get_record plan_id s = after (prepare v.loads s) (λ _ s'. (ok (get_plan_record plan_id s'), s'))

  -- the reading of the clock that `status` compares with a lease; of a plan that is not executing,
  -- or has no lease, it reads none, and the reply does not depend on it
  abbrev pub status_clock : Option PlanRecord → Action ℕ
  status_clock none = pure 0
  status_clock (some r) =
      if same_status r.row.status PlanStatus.executing && is_some r.row.lease_expires_at
      then read_clock v
      else pure 0

  -- `status`
  unfoldable pub status : String → Action PlanReply
  unfolding get_record status_reply
  status plan_id = do
    found ← query v (λ s. get_record plan_id s)
    now ← status_clock found
    pure (status_reply now found)

  -- `_confirmation_result`
  unfoldable pub confirmation_result : String → Action PlanReply
  unfolding status confirmation_reply
  confirmation_result plan_id = do r ← status plan_id; pure (confirmation_reply r)
