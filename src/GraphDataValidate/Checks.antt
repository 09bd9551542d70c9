-- ===== src/GraphDataValidate/Checks.antt =====
-- The validation helpers of tools/graph_data_validate.py. A reason stands for the text of its
-- message, with what the text quotes.
use incubator_hugegraph_ai.Prelude.{
  ℕ, String, Bool, true, false, ◌&&◌, ◌||◌, Option, none, some, List, [], ◌∷◌, if◌then◌else◌, any,
}
use incubator_hugegraph_ai.GremlinPolicy.Characters.{Text, points, same}
use incubator_hugegraph_ai.GraphDataGremlin.Literal.{
  Json, null, bool, int, text, list, mapping, Entries, end, entry,
}
use incubator_hugegraph_ai.GraphDataGremlin.Queries.{get}
use incubator_hugegraph_ai.PropertyValidation.{Parsers, ValueFault, property_value_error}
use incubator_hugegraph_ai.GraphDataValidate.Schema.{lookup}

pub data Reason : Type 0 where
  operation_not_an_object : Reason
  unsupported_op : Reason
  missing_label : Reason
  set_not_supported : Reason
  undefined_vertex_label : Text → Reason
  undefined_edge_label : Text → Reason
  undefined_endpoint : String → Json → Reason
  mismatched_endpoint : String → Json → Reason
  not_an_object : String → Reason
  unknown_properties : String → List Text → Reason
  value_rejected : Text → ValueFault → Reason
  missing_primary_keys : String → List Text → Reason
  duplicate_identity : String → ℕ → Reason

abbrev pub among : Text → List Text → Bool
among name names = any (same name) names

-- `sorted(set(values) - allowed)`, not sorted
unfoldable pub unknown_keys : Bool → List Text → Entries → List Text
unfolding any
unknown_keys allow_id allowed end = []
unknown_keys allow_id allowed (entry k v es) =
    let rest = unknown_keys allow_id allowed es in
    if among k allowed || (allow_id && same k (points "id")) then rest else k ∷ rest

abbrev report_unknown : String → List Text → List Reason
report_unknown field [] = []
report_unknown field (k ∷ ks) = unknown_properties field (k ∷ ks) ∷ []

-- `_validate_field_map`
unfoldable pub validate_field_map : String → List Text → Bool → Entries → List Reason
unfolding get unknown_keys
validate_field_map field allowed allow_id operation = elim (get field operation) [
  | none ↦ []
  | some null ↦ []
  | some (mapping values) ↦ report_unknown field (unknown_keys allow_id allowed values)
  | some (bool _) ↦ not_an_object field ∷ []
  | some (int _) ↦ not_an_object field ∷ []
  | some (text _) ↦ not_an_object field ∷ []
  | some (list _) ↦ not_an_object field ∷ []
]

module _ (parsers : Parsers) where
  unfoldable pub value_reasons : (Text → Option (Text × Text)) → Entries → List Reason
  unfolding property_value_error
  value_reasons specs end = []
  value_reasons specs (entry name value es) =
      elim (property_value_error parsers value (specs name)) [
        | none ↦ value_reasons specs es
        | some fault ↦ value_rejected name fault ∷ value_reasons specs es
      ]

  -- `_validate_property_values`
  unfoldable pub validate_property_values : (Text → Option (Text × Text)) → Entries → List Reason
  unfolding get value_reasons
  validate_property_values specs operation = elim (get "properties" operation) [
    | some (mapping values) ↦ value_reasons specs values
    | none ↦ []
    | some null ↦ []
    | some (bool _) ↦ []
    | some (int _) ↦ []
    | some (text _) ↦ []
    | some (list _) ↦ []
  ]

-- `value not in (None, "")` of `value.get(…)`
abbrev pub is_set : Option Json → Bool
is_set none = false
is_set (some null) = false
is_set (some (text [])) = false
is_set (some _) = true

unfoldable pub missing_keys : List Text → Entries → List Text
unfolding lookup
missing_keys [] matched = []
missing_keys (pk ∷ pks) matched =
    let rest = missing_keys pks matched in if is_set (lookup pk matched) then rest else pk ∷ rest

abbrev report_missing : String → List Text → List Reason
report_missing field [] = []
report_missing field (k ∷ ks) = missing_primary_keys field (k ∷ ks) ∷ []

-- `_validate_primary_key_match`
unfoldable pub validate_primary_key_match : String → List Text → Entries → List Reason
unfolding get missing_keys
validate_primary_key_match field primary_keys operation = elim (get field operation) [
  | some (mapping matched) ↦
      if is_set (get "id" matched)
      then []
      else report_missing field (missing_keys primary_keys matched)
  | none ↦ not_an_object field ∷ []
  | some null ↦ not_an_object field ∷ []
  | some (bool _) ↦ not_an_object field ∷ []
  | some (int _) ↦ not_an_object field ∷ []
  | some (text _) ↦ not_an_object field ∷ []
  | some (list _) ↦ not_an_object field ∷ []
]
