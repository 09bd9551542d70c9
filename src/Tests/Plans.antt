-- ===== src/Tests/Plans.antt =====
-- Runs of the theorems on statuses, plans, hashes and guards.
use incubator_hugegraph_ai.Prelude.{
  ℕ, ◌≤◌, String, ◌≡◌, ◌↔◌, ◌⊎◌, ◌≢◌, Option, Bool, true, false, none, some, List, [], ◌∷◌, Memᴰ,
  ok,
}
use incubator_hugegraph_ai.WritePlan.Status.{ApplyStatus, PlanStatus}
use incubator_hugegraph_ai.WritePlan.Value.{Value, str, list, nil, cons, end, field, freeze, thaw}
use incubator_hugegraph_ai.WritePlan.Freezing.{
  IsJson, json_list, json_cons, json_nil, json_str, thaw-freeze,
}
use incubator_hugegraph_ai.WritePlan.Aggregate.{is_success, aggregate_plan_status, applied_iff}
use incubator_hugegraph_ai.WritePlan.Plan.{OperationPlan, WritePlan, new_write_plan}
use incubator_hugegraph_ai.WritePlan.Construction.{IsWellFormed, new_write_plan_iff}
use incubator_hugegraph_ai.Guard.{
  McpConfig, Capability, guard, guard_grants, is_write_capability, is_readonly,
  has_safe_write_store,
}
use incubator_hugegraph_ai.WriteContract.{
  ConfirmationProtocol, ConfirmationResolution, resolved, resolve_confirmation_protocol,
  resolved_iff, deprecation,
}
use incubator_hugegraph_ai.PlanHash.{
  PlanContext, PlanSubject, seconds, valid, verify_plan_hash, verified_iff, graphspace_or_default,
  extra_or_empty,
}

abbrev labels : Value
labels = list (cons (str "person") (cons (str "city") nil))

labels-IsJson : IsJson labels
labels-IsJson = json_list (json_cons (json_str "person") (json_cons (json_str "city") json_nil))

thaw-freeze_example : thaw (λ vs. vs) (freeze labels) ≡ labels
thaw-freeze_example = thaw-freeze (λ vs. vs) labels labels-IsJson

abbrev two_outcomes : List ApplyStatus
two_outcomes = ApplyStatus.unknown ∷ ApplyStatus.applied ∷ []

abbrev swapped_outcomes : List ApplyStatus
swapped_outcomes = ApplyStatus.applied ∷ ApplyStatus.unknown ∷ []

applied_iff_example : (aggregate_plan_status two_outcomes ≡ PlanStatus.applied) ↔ (
    ((s : ApplyStatus) → Memᴰ s two_outcomes → is_success s ≡ true)
    × Memᴰ ApplyStatus.applied two_outcomes)
applied_iff_example = applied_iff two_outcomes

abbrev small_operation : OperationPlan
small_operation = record {
  operation_id = "op1";
  kind = "CREATE_VERTEX";
  target = end;
  expected_state = end;
  desired_state = field "label" (str "person") end;
  depends_on = [];
  idempotency_key = none;
}

abbrev small_plan : WritePlan
small_plan = record {
  plan_id = "wp1";
  tool_name = "manage_graph_data";
  graph_target = record {
    graph_url = "http://127.0.0.1:8080";
    graph_name = "hugegraph";
    graphspace = some "DEFAULT";
  };
  principal = "admin";
  operations = small_operation ∷ [];
  payload_digest = "d";
  schema_fingerprint = none;
  status = PlanStatus.issued;
  created_at = 10;
  expires_at = 20;
}

new_write_plan_iff_example : (new_write_plan small_plan ≡ ok small_plan) ↔ IsWellFormed small_plan
new_write_plan_iff_example = new_write_plan_iff small_plan

abbrev pub writable_config : McpConfig
writable_config = record {
  url = "http://127.0.0.1:8080";
  graph = "hugegraph";
  graphspace = none;
  user = "admin";
  readonly = false;
  plan_store_backend = "sqlite";
  write_instance_count = 1;
}

guard_grants_example : (guard Capability.data_write writable_config ≡ none) ↔ (
    (is_write_capability Capability.data_write ≡ false)
    ⊎ ((is_readonly writable_config ≡ false) × (has_safe_write_store writable_config ≡ true)))
guard_grants_example = guard_grants Capability.data_write writable_config

abbrev by_plan_id : ConfirmationResolution
by_plan_id = record {
  protocol = ConfirmationProtocol.canonical;
  plan_id = some "wp1";
  plan_hash = none;
  nonce = none;
  expires_at = none;
  warnings = [];
}

abbrev by_id : Option String
by_id = some "wp1"

abbrev no_text : Option String
no_text = none

abbrev no_time : Option ℕ
no_time = none

resolved_iff_example :
    (resolve_confirmation_protocol (some "wp1") none none none ≡ resolved by_plan_id) ↔ (
      ((t : String) × (by_id ≡ some t)
        × (t ≢ "")
        × (no_text ≡ none)
        × (no_text ≡ none)
        × (no_time ≡ none)
        × (by_plan_id ≡ record {
          protocol = ConfirmationProtocol.canonical;
          plan_id = some t;
          plan_hash = none;
          nonce = none;
          expires_at = none;
          warnings = [];
        }))
      ⊎ ((h : String) × (n : String) × (e : ℕ) × ((by_id ≡ none) ⊎ (by_id ≡ some ""))
          × (no_text ≡ some h)
          × (no_text ≡ some n)
          × (no_time ≡ some e)
          × (by_plan_id ≡ record {
            protocol = ConfirmationProtocol.legacy;
            plan_id = none;
            plan_hash = some h;
            nonce = some n;
            expires_at = some e;
            warnings = deprecation ∷ [];
          })))
resolved_iff_example = resolved_iff (some "wp1") none none none by_plan_id

abbrev pub subject : PlanSubject
subject = record {
  tool_name = "manage_graph_data";
  mode = "apply";
  payload_digest = "d";
  schema_hash = none;
  extra_context = none;
}

-- a stand-in for the hash that shows the payload and the graph
abbrev pub shown_hash : PlanContext → String
shown_hash c = if_readonly c.readonly c.payload_digest
  where
    if_readonly : Bool → String → String
    if_readonly true d = "readonly"
    if_readonly false d = d

verified_iff_example :
    (verify_plan_hash shown_hash writable_config 100 "d" subject (some "n") (some (seconds 700))
      ≡ ok valid)
    ↔ ((m : String) × (t : ℕ) × (some "n" ≡ some m)
        × (some (seconds 700) ≡ some (seconds t))
        × (100 ≤ t)
        × ("d"
            ≡ shown_hash (record {
              tool_name = subject.tool_name;
              mode = subject.mode;
              graph_url = writable_config.url;
              graph_name = writable_config.graph;
              graphspace = graphspace_or_default writable_config.graphspace;
              principal = writable_config.user;
              readonly = is_readonly writable_config;
              payload_digest = subject.payload_digest;
              schema_hash = subject.schema_hash;
              nonce = m;
              expires_at = t;
              extra_context = extra_or_empty subject.extra_context;
            })))
verified_iff_example =
    verified_iff shown_hash writable_config 100 "d" subject (some "n") (some (seconds 700))
