-- ===== src/Tests/Data.antt =====
-- A plan of two operations, its rows, and the services around it.
use incubator_hugegraph_ai.Prelude.{ℕ, String, true, false, Option, none, some, [], ◌∷◌}
use incubator_hugegraph_ai.WritePlan.Status.{ApplyStatus, PlanStatus}
use incubator_hugegraph_ai.WritePlan.Value.{Value, Values, str, bool, end, field}
use incubator_hugegraph_ai.WritePlan.Plan.{OperationPlan, WritePlan, ApplyReceipt}
use incubator_hugegraph_ai.PlanStore.Rows.{PlanRow, OperationRow, Store}
use incubator_hugegraph_ai.PlanStore.Plans.{plan_row_of, operation_row_of}
use incubator_hugegraph_ai.Execution.Registry.{Registry}
use incubator_hugegraph_ai.Execution.World.{World, Services}
use incubator_hugegraph_ai.WriteExecutor.{WriteAdapter, returned}

abbrev pub creation : String → OperationPlan
creation id = record {
  operation_id = id;
  kind = "CREATE_VERTEX";
  target = end;
  expected_state = field "exists" (bool false) end;
  desired_state = field "exists" (bool true) end;
  depends_on = [];
  idempotency_key = none;
}

abbrev pub stored_plan : WritePlan
stored_plan = record {
  plan_id = "wp1";
  tool_name = "manage_graph_data";
  graph_target = record {
    graph_url = "http://127.0.0.1:8080";
    graph_name = "hugegraph";
    graphspace = some "DEFAULT";
  };
  principal = "admin";
  operations = creation "op1" ∷ creation "op2" ∷ [];
  payload_digest = "d";
  schema_fingerprint = none;
  status = PlanStatus.issued;
  created_at = 10;
  expires_at = 600;
}

abbrev pub same_values : Values → Values
same_values vs = vs

abbrev pub load_text_only : String → Option Value
load_text_only t = some (str t)

abbrev pub operation_at : ℕ → String → OperationRow
operation_at n id = operation_row_of same_values stored_plan n (creation id)

abbrev pub stored_row : PlanRow
stored_row = plan_row_of same_values stored_plan

-- the store right after `save_plan`
abbrev pub saved : Store
saved = record {
  user_version = 3;
  plans = stored_row ∷ [];
  operations = operation_at 0 "op1" ∷ operation_at 1 "op2" ∷ [];
  legacy = record { issued = []; consumed = []; operations = [] };
}

-- the plan under a lease of the owner until 400, with one operation in flight
abbrev pub leased_row : PlanRow
leased_row = record stored_row {
  status = PlanStatus.executing;
  confirmed_at = some 100;
  lease_owner = some "owner";
  lease_expires_at = some 400;
}

abbrev pub in_flight : OperationRow
in_flight = record (operation_at 0 "op1") {
  status = PlanStatus.executing;
  attempt = 1;
  attempt_token = some "token";
}

abbrev pub running : Store
running = record saved {
  plans = leased_row ∷ [];
  operations = in_flight ∷ operation_at 1 "op2" ∷ [];
}

abbrev pub answer : ApplyStatus → String → ℕ → ApplyReceipt
answer status id attempt = record {
  status = status;
  plan_id = some "wp1";
  operation_id = some id;
  observed_state = none;
  reason_code = none;
  attempt = attempt;
  attempt_token = some "token";
  reconciliation_required = false;
  committed_at = some 200;
  operation = none;
  reason = none;
}

-- a clock that stands at 100, and one fresh token
abbrev pub services : Services
services = record {
  loads = load_text_only;
  sort = same_values;
  clock = λ _. 100;
  uuid = λ _. "token";
}

abbrev pub adapter : WriteAdapter
adapter plan o attempt n = returned (answer ApplyStatus.applied o.operation_id attempt)

abbrev pub adapters : Registry WriteAdapter
adapters = ("CREATE_VERTEX", adapter) ∷ []

abbrev pub start : World
start = record { store = saved; readings = 0; draws = 0; dispatched = [] }
