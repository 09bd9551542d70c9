-- ===== src/Tests/Validation.antt =====
-- Runs of the check of graph change plans, and instances of its theorems.
use incubator_hugegraph_ai.Prelude.{
  ℕ, ◌≡◌, ◌↔◌, refl, String, Bool, true, false, Option, none, some, List, [], ◌∷◌, Memᴰ,
}
use incubator_hugegraph_ai.WritePlan.Value.{negsuc}
use incubator_hugegraph_ai.GremlinPolicy.Characters.{Text, points}
use incubator_hugegraph_ai.GraphDataGremlin.Literal.{
  Json, text, int, list, mapping, nil, cons, Entries, end, entry, g_literal,
}
use incubator_hugegraph_ai.PropertyValidation.{Parsers, property_value_error}
use incubator_hugegraph_ai.PropertyValidation.Bounds.{int32, type_name, FitsIn, integers_fit}
use incubator_hugegraph_ai.GraphDataValidate.Operations.{Checked, validate_graph_change_plan}
use incubator_hugegraph_ai.GraphDataValidate.Buildable.{Buildable, valid_operations_are_Buildable}

-- stand-ins for the parsers of the standard library
abbrev parsers : Parsers
parsers = record {
  uuid = λ t. false;
  fromisoformat = λ t. false;
  fromhex = λ t. false;
  b64decode = λ t. true;
}

abbrev specs : Text → Option (Text × Text)
specs name = some (points "TEXT", points "SINGLE")

abbrev field : String → Json → Entries → Entries
field k v es = entry (points k) v es

abbrev named : String → Json
named name = text (points name)

abbrev live_schema : Json
live_schema = mapping (
    field "vertexlabels"
      (list (
        cons
          (mapping (
            field "name" (named "person") (
              field "properties" (list (cons (named "name") nil))
                (field "primary_keys" (list (cons (named "name") nil)) end))))
          nil))
      end)

abbrev creating : String → Json
creating name = mapping (
    field "op" (named "create_vertex") (
      field "label" (named "person")
        (field "properties" (mapping (field "name" (named name) end)) end)))

abbrev deleting : Json
deleting = mapping (
    field "op" (named "delete_vertex") (
      field "label" (named "person")
        (field "match" (mapping (field "name" (named "ann") end)) end)))

abbrev plan : List Json
plan = creating "ann" ∷ deleting ∷ []

abbrev passed : Checked
passed = record {
  errors = [];
  warnings = [];
  identities =
      (record { label = points "person"; kind = "primary_key"; value = points "['ann']" }, 0) ∷ [];
}

plan_passed : validate_graph_change_plan parsers g_literal specs plan live_schema ≡ some passed
unfolding validate_graph_change_plan incubator_hugegraph_ai.GremlinPolicy.Characters.same
    incubator_hugegraph_ai.GremlinPolicy.Characters.is_one_of g_literal
plan_passed = refl

abbrev errors_of : Option Checked → List ℕ
errors_of none = []
errors_of (some c) = elim c.errors [ [] ↦ [] | (i, r) ∷ rest ↦ i ∷ [] ]

-- the same vertex twice in one batch
duplicate_refused :
    errors_of (
      validate_graph_change_plan parsers g_literal specs
        (creating "ann" ∷ creating "ann" ∷ [])
        live_schema)
    ≡ 1 ∷ []
unfolding validate_graph_change_plan incubator_hugegraph_ai.GremlinPolicy.Characters.same
    incubator_hugegraph_ai.GremlinPolicy.Characters.is_one_of incubator_hugegraph_ai.Prelude.str_eq
    g_literal
duplicate_refused = refl

valid_operations_are_Buildable_example : Buildable deleting
valid_operations_are_Buildable_example =
    valid_operations_are_Buildable parsers g_literal specs plan live_schema passed
      {operation = deleting} plan_passed refl (Memᴰ.tail (Memᴰ.head refl))

integers_fit_example :
    (property_value_error parsers
        (int (negsuc 2147483648))
        (some (type_name int32, points "SINGLE"))
      ≡ none)
    ↔ FitsIn 31 (int (negsuc 2147483648))
integers_fit_example = integers_fit parsers int32 (int (negsuc 2147483648))
