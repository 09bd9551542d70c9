-- ===== src/Tests/Lifecycles.antt =====
-- Instances of what is proved of the plan store's state machine.
use incubator_hugegraph_ai.Prelude.{◌≡◌, refl, false, none, some, [], ◌∷◌, List}
use incubator_hugegraph_ai.WritePlan.Lifecycle.{Reach}
use incubator_hugegraph_ai.PlanStore.Rows.{PlanRow, find_plan}
use incubator_hugegraph_ai.PlanStore.Refinement.{StoreCall, run_calls, store_refines_lifecycle}
use incubator_hugegraph_ai.Tests.Data.{load_text_only, same_values, saved, stored_row}

-- an executor that claims the plan and is lost, and a reconciler that fences it off
abbrev lost_executor : List StoreCall
lost_executor =
    StoreCall.claim 100 "wp1" none "owner" 300 false ∷ StoreCall.reconcile 500 "wp1" ∷ []

stored_found : find_plan "wp1" saved ≡ some stored_row
unfolding incubator_hugegraph_ai.Prelude.find incubator_hugegraph_ai.Prelude.str_eq
stored_found = refl

store_refines_lifecycle_example :
    (r' : PlanRow) × (find_plan "wp1" (run_calls load_text_only same_values lost_executor saved)
      ≡ some r')
    × Reach stored_row.status r'.status
store_refines_lifecycle_example =
    store_refines_lifecycle load_text_only same_values lost_executor saved "wp1" stored_row
      stored_found
