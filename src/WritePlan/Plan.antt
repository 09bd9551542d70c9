-- ===== src/WritePlan/Plan.antt =====
-- The immutable records of write_plan.py and the checks that their construction makes.
-- Times are seconds since the epoch and attempts are counts: natural numbers, so the guards
-- against negative ones never fire.
use incubator_hugegraph_ai.Prelude.{
  ℕ, String, Bool, not, Option, none, some, List, [], ◌∷◌, ◌++◌, str_eq, leb, if◌then◌else◌, any,
  all, Result, Error, ok, err, ◌>>◌, raise_if,
}
use incubator_hugegraph_ai.WritePlan.Status.{ApplyStatus, PlanStatus}
use incubator_hugegraph_ai.WritePlan.Value.{Fields, freeze_mapping}

pub record GraphTarget : Type 0 where
  pub graph_url : String
  pub graph_name : String
  pub graphspace : Option String

pub record OperationPlan : Type 0 where
  pub operation_id : String
  pub kind : String
  pub target : Fields
  pub expected_state : Fields
  pub desired_state : Fields
  pub depends_on : List String
  pub idempotency_key : Option String

pub record WritePlan : Type 0 where
  pub plan_id : String
  pub tool_name : String
  pub graph_target : GraphTarget
  pub principal : String
  pub operations : List OperationPlan
  pub payload_digest : String
  pub schema_fingerprint : Option String
  pub status : PlanStatus
  pub created_at : ℕ
  pub expires_at : ℕ

pub record ApplyReceipt : Type 0 where
  pub status : ApplyStatus
  pub plan_id : Option String
  pub operation_id : Option String
  pub observed_state : Option Fields
  pub reason_code : Option String
  pub attempt : ℕ
  pub attempt_token : Option String
  pub reconciliation_required : Bool
  pub committed_at : Option ℕ
  pub operation : Option Fields
  pub reason : Option String

-- `item in items`
abbrev pub contains : List String → String → Bool
contains items item = any (λ i. str_eq i item) items

-- `OperationPlan.__post_init__`: the arguments as given, and the frozen operation
unfoldable pub new_operation_plan : OperationPlan → Result OperationPlan
new_operation_plan o = do
  raise_if (str_eq o.operation_id "") (Error.value_error "operation_id must be non-empty")
  raise_if (str_eq o.kind "") (Error.value_error "operation kind must be non-empty")
  ok (record o {
    target = freeze_mapping o.target;
    expected_state = freeze_mapping o.expected_state;
    desired_state = freeze_mapping o.desired_state;
  })

-- the loop of `WritePlan.__post_init__` over the operations
unfoldable pub check_operations : List String → List OperationPlan → Result (Unit {0})
check_operations seen [] = ok tt
check_operations seen (o ∷ os) =
    let rest = check_operations (seen ++ o.operation_id ∷ []) os in
    if contains seen o.operation_id
    then err (Error.value_error "duplicate operation_id")
    else if not (all (contains seen) o.depends_on)
    then err (Error.value_error "depends on an earlier operation")
    else rest

-- `WritePlan.__post_init__`
unfoldable pub new_write_plan : WritePlan → Result WritePlan
new_write_plan p = do
  raise_if (str_eq p.plan_id "") (Error.value_error "plan_id must be non-empty")
  raise_if (str_eq p.tool_name "") (Error.value_error "tool_name must be non-empty")
  check_operations [] p.operations
  raise_if (leb p.expires_at p.created_at)
      (Error.value_error "expires_at must be greater than created_at")
  ok p

abbrev freeze_state : Option Fields → Option Fields
freeze_state none = none
freeze_state (some fs) = some (freeze_mapping fs)

-- `ApplyReceipt.__post_init__`
unfoldable pub new_apply_receipt : ApplyReceipt → ApplyReceipt
new_apply_receipt r = record r {
  observed_state = freeze_state r.observed_state;
  operation = freeze_state r.operation;
}
