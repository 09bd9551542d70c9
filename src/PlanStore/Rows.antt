-- ===== src/PlanStore/Rows.antt =====
-- The tables of the SQLite plan store, plan_store.py. A text column that holds canonical JSON is
-- represented by the value that was serialised; the columns that later schema versions add are
-- there from the start, holding NULL and 0 as `ALTER TABLE` would put.
use incubator_hugegraph_ai.Prelude.{
  ℕ, String, Bool, true, false, ◌&&◌, Option, none, some, List, [], ◌∷◌, str_eq, leb, if◌then◌else◌,
  find, select,
}
use incubator_hugegraph_ai.WritePlan.Status.{PlanStatus}
use incubator_hugegraph_ai.WritePlan.Value.{Value, Fields}
use incubator_hugegraph_ai.ConfirmationStore.{ConfirmationDb}

pub record PlanRow : Type 0 where
  pub plan_id : String
  pub tool_name : String
  pub graph_target_json : Fields
  pub principal : String
  pub payload_json : Value
  pub payload_digest : String
  pub schema_fingerprint : Option String
  pub status : PlanStatus
  pub created_at : ℕ
  pub expires_at : ℕ
  pub confirmed_at : Option ℕ
  pub lease_owner : Option String
  pub lease_expires_at : Option ℕ

pub record OperationRow : Type 0 where
  pub operation_id : String
  pub plan_id : String
  pub ordinal : ℕ
  pub kind : String
  pub payload_json : Value
  pub status : PlanStatus
  pub attempt : ℕ
  pub receipt_json : Option Value
  pub updated_at : ℕ
  pub attempt_token : Option String
  pub reconciled : Bool

-- The database, and beside it the legacy one that `prepare` reads.
pub record Store : Type 0 where
  pub user_version : ℕ
  pub plans : List PlanRow
  pub operations : List OperationRow
  pub legacy : ConfirmationDb

abbrev pub schema_version : ℕ
schema_version = 3

abbrev pub is_plan : String → PlanRow → Bool
is_plan plan_id r = str_eq r.plan_id plan_id

abbrev pub of_plan : String → OperationRow → Bool
of_plan plan_id r = str_eq r.plan_id plan_id

abbrev pub is_operation : String → String → OperationRow → Bool
is_operation plan_id operation_id r = str_eq r.plan_id plan_id && str_eq r.operation_id operation_id

abbrev pub find_plan : String → Store → Option PlanRow
find_plan plan_id s = find (is_plan plan_id) s.plans

abbrev pub find_operation : String → String → Store → Option OperationRow
find_operation plan_id operation_id s = find (is_operation plan_id operation_id) s.operations

-- `lease_expires_at IS NULL OR lease_expires_at <= now`
abbrev pub lease_available : ℕ → Option ℕ → Bool
lease_available now none = true
lease_available now (some t) = leb t now

-- `ORDER BY ordinal`
unfoldable pub insert_by_ordinal : OperationRow → List OperationRow → List OperationRow
insert_by_ordinal r [] = r ∷ []
insert_by_ordinal r (x ∷ xs) =
    let rest = insert_by_ordinal r xs in if leb r.ordinal x.ordinal then r ∷ x ∷ xs else x ∷ rest

unfoldable pub order_by_ordinal : List OperationRow → List OperationRow
order_by_ordinal [] = []
order_by_ordinal (r ∷ rs) = insert_by_ordinal r (order_by_ordinal rs)

-- `SELECT * FROM write_operations WHERE plan_id = ? ORDER BY ordinal`
unfoldable pub operations_of : String → Store → List OperationRow
unfolding insert_by_ordinal order_by_ordinal
operations_of plan_id s = order_by_ordinal (select (of_plan plan_id) s.operations)

-- `value or default` on a text and on a number: the empty text and 0 count as missing
abbrev pub text_or : Option String → Option String → Option String
text_or none d = d
text_or (some t) d = if str_eq t "" then d else some t

abbrev pub number_or : Option ℕ → ℕ → ℕ
number_or none d = d
number_or (some n) d = if leb n 0 then d else n

-- `a != b` on optional texts, negated
abbrev pub same_text : Option String → Option String → Bool
same_text none none = true
same_text (some a) (some b) = str_eq a b
same_text _ _ = false
