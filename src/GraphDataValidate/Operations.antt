-- ===== src/GraphDataValidate/Operations.antt =====
-- `validate_graph_change_plan` of tools/graph_data_validate.py.
use incubator_hugegraph_ai.Prelude.{
  ℕ, suc, String, Bool, true, false, not, ◌&&◌, ◌||◌, Option, none, some, List, [], ◌∷◌, ◌++◌,
  if◌then◌else◌, str_eq, all, map,
}
use incubator_hugegraph_ai.GremlinPolicy.Characters.{Text, same}
use incubator_hugegraph_ai.GraphDataGremlin.Literal.{
  Json, null, bool, int, text, list, mapping, Items, nil, cons, Entries,
}
use incubator_hugegraph_ai.GraphDataGremlin.Queries.{get, get_either, is_op, is_true}
use incubator_hugegraph_ai.PropertyValidation.{Parsers}
use incubator_hugegraph_ai.GraphDataValidate.Schema.{
  lookup, property_names, primary_key_names, find_label, Schema, schema_of, json_equal,
}
use incubator_hugegraph_ai.GraphDataValidate.Checks.{
  Reason, operation_not_an_object, unsupported_op, missing_label, set_not_supported,
  undefined_vertex_label, undefined_edge_label, undefined_endpoint, mismatched_endpoint,
  duplicate_identity, validate_field_map, validate_property_values, is_set,
  validate_primary_key_match,
}

-- the key of `vertex_identities`: the label, the kind and the value as JSON
pub record Identity : Type 0 where
  pub label : Text
  pub kind : String
  pub value : Text

abbrev same_identity : Identity → Identity → Bool
same_identity a b = same a.label b.label && str_eq a.kind b.kind && same a.value b.value

unfoldable pub find_identity : Identity → List (Identity × ℕ) → Option ℕ
find_identity a [] = none
find_identity a ((b, i) ∷ rest) = if same_identity b a then some i else find_identity a rest

-- what the check of some operations adds to `errors` and `warnings`, and the identities after it;
-- a warning is an index and a vertex label with no primary keys
pub record Checked : Type 0 where
  pub errors : List (ℕ × Reason)
  pub warnings : List (ℕ × Text)
  pub identities : List (Identity × ℕ)

abbrev pub at_index : ℕ → List Reason → List (ℕ × Reason)
at_index i reasons = map (λ (r : Reason). (i, r)) reasons

abbrev pub no_reason : List Reason → Bool
no_reason [] = true
no_reason (_ ∷ _) = false

abbrev no_key : List Text → Bool
no_key [] = true
no_key (_ ∷ _) = false

abbrev or_null : Option Json → Json
or_null none = null
or_null (some v) = v

unfoldable pub key_values : List Text → Entries → Items
unfolding lookup
key_values [] properties = nil
key_values (pk ∷ pks) properties = cons (or_null (lookup pk properties)) (key_values pks properties)

abbrev has_keys : List Text → Entries → Bool
has_keys pks properties = all (λ pk. is_set (lookup pk properties)) pks

module _ (parsers : Parsers) (dumps : Json → Text) where
  -- `identities` of a creation
  unfoldable pub identities_of : Text → List Text → Entries → List Identity
  unfolding get all key_values
  identities_of label pks operation =
      (if is_set (get "id" operation)
        then record { label = label; kind = "id"; value = dumps (or_null (get "id" operation)) }
          ∷ []
        else [])
      ++ (elim (get "properties" operation) [
        | some (mapping properties) ↦
            if not (no_key pks) && has_keys pks properties
            then record {
              label = label;
              kind = "primary_key";
              value = dumps (list (key_values pks properties));
            }
              ∷ []
            else []
        | none ↦ []
        | some null ↦ []
        | some (bool _) ↦ []
        | some (int _) ↦ []
        | some (text _) ↦ []
        | some (list _) ↦ []
      ])

  -- the loop over the identities of one creation
  unfoldable pub claim_identities :
      ℕ → List Identity → List (Identity × ℕ) → List Reason × List (Identity × ℕ)
  unfolding find_identity
  claim_identities i [] taken = ([], taken)
  claim_identities i (a ∷ as_) taken = elim (find_identity a taken) [
    | some j ↦
        let (reasons, after) = claim_identities i as_ taken in
        (duplicate_identity a.kind j ∷ reasons, after)
    | none ↦ claim_identities i as_ ((a, i) ∷ taken)
  ]

  -- the checks of a vertex operation against its label
  unfoldable pub vertex_fields : Schema → Entries → Entries → List Reason
  unfolding validate_field_map validate_property_values property_names is_op
  vertex_fields schema label operation =
      validate_field_map "properties" (property_names label) false operation
      ++ ((if is_op operation "create_vertex"
            then validate_property_values parsers schema.specs operation
            else [])
          ++ validate_field_map "match" (property_names label) true operation)

  unfoldable pub check_vertex :
      Schema → ℕ → Text → Entries → List Reason → List (Identity × ℕ) → Checked
  unfolding find_label vertex_fields primary_key_names identities_of claim_identities
      validate_primary_key_match is_op
  check_vertex schema i name operation before taken = elim (find_label name schema.vertex_labels) [
    | none ↦ record {
      errors = at_index i (before ++ undefined_vertex_label name ∷ []);
      warnings = [];
      identities = taken;
    }
    | some label ↦
        let pks = primary_key_names label in
        let fields = vertex_fields schema label operation in
        let (duplicates, after) =
          if is_op operation "create_vertex" && no_reason fields
          then claim_identities i (identities_of name pks operation) taken
          else ([], taken) in
        record {
          errors = at_index i (
              before
              ++ (fields
                  ++ (duplicates
                      ++ (if is_op operation "delete_vertex"
                          then validate_primary_key_match "match" pks operation
                          else []))));
          warnings = if no_key pks then (i, name) ∷ [] else [];
          identities = after;
        }
  ]

  -- the label of an endpoint, where it is a vertex label of the schema
  unfoldable pub endpoint_label : Schema → Json → Option Entries
  unfolding find_label
  endpoint_label schema (text name) = find_label name schema.vertex_labels
  endpoint_label schema null = none
  endpoint_label schema (bool _) = none
  endpoint_label schema (int _) = none
  endpoint_label schema (list _) = none
  endpoint_label schema (mapping _) = none

  abbrev pub undefined_reasons : String → Json → Option Entries → List Reason
  undefined_reasons name label none = undefined_endpoint name label ∷ []
  undefined_reasons name label (some _) = []

  -- the endpoint that the edge label expects
  abbrev pub mismatch_reasons : String → Json → Json → List Reason
  mismatch_reasons name expected label =
      if is_true expected && is_true label && not (json_equal label expected)
      then mismatched_endpoint name expected ∷ []
      else []

  unfoldable pub match_reasons : String → Option Entries → Entries → List Reason
  unfolding validate_primary_key_match validate_field_map property_names primary_key_names
  match_reasons field none operation = []
  match_reasons field (some label) operation =
      validate_primary_key_match field (primary_key_names label) operation
      ++ validate_field_map field (property_names label) true operation

  -- the checks of an edge operation
  unfoldable pub edge_reasons : Schema → Entries → Entries → List Reason
  unfolding get_either is_true json_equal endpoint_label match_reasons validate_field_map
      validate_property_values property_names is_op
  edge_reasons schema label operation =
      let source = get_either "source_label" "outVLabel" operation in
      let target = get_either "target_label" "inVLabel" operation in
      undefined_reasons "source_label" source (endpoint_label schema source)
      ++ (undefined_reasons "target_label" target (endpoint_label schema target)
          ++ (mismatch_reasons "source_label" (get_either "source_label" "sourceLabel" label) source
              ++ (mismatch_reasons "target_label" (get_either "target_label" "targetLabel" label)
                    target
                  ++ (validate_field_map "properties" (property_names label) false operation
                      ++ ((if is_op operation "create_edge"
                            then validate_property_values parsers schema.specs operation
                            else [])
                          ++ (match_reasons "source_match" (endpoint_label schema source) operation
                              ++ match_reasons "target_match" (endpoint_label schema target)
                                  operation))))))

  unfoldable pub check_edge :
      Schema → ℕ → Text → Entries → List Reason → List (Identity × ℕ) → Checked
  unfolding find_label edge_reasons
  check_edge schema i name operation before taken = record {
    errors = at_index i (
        before ++ (elim (find_label name schema.edge_labels) [
          | none ↦ undefined_edge_label name ∷ []
          | some label ↦ edge_reasons schema label operation
        ]));
    warnings = [];
    identities = taken;
  }

  abbrev pub is_vertex_op : Entries → Bool
  is_vertex_op operation = is_op operation "create_vertex" || is_op operation "delete_vertex"

  abbrev pub is_edge_op : Entries → Bool
  is_edge_op operation = is_op operation "create_edge" || is_op operation "delete_edge"

  abbrev single : ℕ → Reason → List (Identity × ℕ) → Checked
  single i reason taken = record { errors = (i, reason) ∷ []; warnings = []; identities = taken }

  -- an operation whose label is a text that is not empty
  unfoldable pub check_labelled : Schema → ℕ → Text → Entries → List (Identity × ℕ) → Checked
  unfolding check_vertex check_edge is_op get
  check_labelled schema i name operation taken =
      let before : List Reason = elim (get "set" operation) [
        | none ↦ []
        | some _ ↦ set_not_supported ∷ []
      ] in
      if is_vertex_op operation
      then check_vertex schema i name operation before taken
      else check_edge schema i name operation before taken

  -- the check of the label, given what the operation has for it
  unfoldable pub check_label : Schema → ℕ → Option Json → Entries → List (Identity × ℕ) → Checked
  unfolding check_labelled
  check_label schema i (some (text (c ∷ cs))) operation taken =
      check_labelled schema i (c ∷ cs) operation taken
  check_label schema i (some (text [])) operation taken = single i missing_label taken
  check_label schema i none operation taken = single i missing_label taken
  check_label schema i (some null) operation taken = single i missing_label taken
  check_label schema i (some (bool _)) operation taken = single i missing_label taken
  check_label schema i (some (int _)) operation taken = single i missing_label taken
  check_label schema i (some (list _)) operation taken = single i missing_label taken
  check_label schema i (some (mapping _)) operation taken = single i missing_label taken

  unfoldable pub check_entries : Schema → ℕ → Entries → List (Identity × ℕ) → Checked
  unfolding check_label is_op get
  check_entries schema i operation taken =
      if not (is_vertex_op operation || is_edge_op operation)
      then single i unsupported_op taken
      else check_label schema i (get "label" operation) operation taken

  -- one round of the loop over the operations
  unfoldable pub check_operation : Schema → ℕ → Json → List (Identity × ℕ) → Checked
  unfolding check_entries
  check_operation schema i (mapping operation) taken = check_entries schema i operation taken
  check_operation schema i null taken = single i operation_not_an_object taken
  check_operation schema i (bool _) taken = single i operation_not_an_object taken
  check_operation schema i (int _) taken = single i operation_not_an_object taken
  check_operation schema i (text _) taken = single i operation_not_an_object taken
  check_operation schema i (list _) taken = single i operation_not_an_object taken

  -- the loop
  unfoldable pub check_changes : Schema → ℕ → List Json → List (Identity × ℕ) → Checked
  unfolding check_operation
  check_changes schema i [] taken = record { errors = []; warnings = []; identities = taken }
  check_changes schema i (operation ∷ operations) taken =
      let first = check_operation schema i operation taken in
      let rest = check_changes schema (suc i) operations first.identities in
      record {
        errors = first.errors ++ rest.errors;
        warnings = first.warnings ++ rest.warnings;
        identities = rest.identities;
      }

  -- `validate_graph_change_plan` of a list of operations; none where reading the labels raises
  unfoldable pub validate_graph_change_plan :
      (Text → Option (Text × Text)) → List Json → Json → Option Checked
  unfolding check_changes schema_of
  validate_graph_change_plan specs operations live_schema = elim (schema_of specs live_schema) [
    | none ↦ none
    | some schema ↦ some (check_changes schema 0 operations [])
  ]
