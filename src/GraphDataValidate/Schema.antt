-- ===== src/GraphDataValidate/Schema.antt =====
-- The schema helpers of tools/graph_data_validate.py and tools/schema_utils.py that it uses, and
-- `==` of JSON values.
use incubator_hugegraph_ai.Prelude.{
  ℕ, suc, Bool, true, false, not, ◌&&◌, ◌==◌, Option, none, some, List, [], ◌∷◌, ◌++◌,
  if◌then◌else◌,
}
use incubator_hugegraph_ai.WritePlan.Value.{ℤ, pos, negsuc}
use incubator_hugegraph_ai.GremlinPolicy.Characters.{Text, same}
use incubator_hugegraph_ai.GraphDataGremlin.Literal.{
  Json, null, bool, int, text, list, mapping, Items, nil, cons, Entries, end, entry,
}
use incubator_hugegraph_ai.GraphDataGremlin.Queries.{get}

-- `value.get(key)` of a key that is a text
unfoldable pub lookup : Text → Entries → Option Json
lookup key end = none
lookup key (entry k v es) = if same k key then some v else lookup key es

-- `schema_name`
unfoldable pub schema_name : Json → Option Text
unfolding get
schema_name (text name) = some name
schema_name (mapping es) = elim (get "name" es) [
  | some (text name) ↦ some name
  | none ↦ none
  | some null ↦ none
  | some (bool _) ↦ none
  | some (int _) ↦ none
  | some (list _) ↦ none
  | some (mapping _) ↦ none
]
schema_name null = none
schema_name (bool _) = none
schema_name (int _) = none
schema_name (list _) = none

-- the names of some schema objects; an empty name counts as missing
unfoldable pub names : Items → List Text
unfolding schema_name
names nil = []
names (cons v vs) = elim (schema_name v) [
  | none ↦ names vs
  | some [] ↦ names vs
  | some (c ∷ cs) ↦ (c ∷ cs) ∷ names vs
]

abbrev pub names_of : Option Json → List Text
names_of (some (list vs)) = names vs
names_of _ = []

-- `property_names(schema.get("properties"))`
unfoldable pub property_names : Entries → List Text
unfolding get names
property_names label = names_of (get "properties" label)

abbrev or_next : Option Json → Option Json → Option Json
or_next none next = next
or_next (some null) next = next
or_next (some v) next = some v

-- `primary_key_names`
unfoldable pub primary_key_names : Entries → List Text
unfolding get names
primary_key_names label = names_of (or_next (get "primary_keys" label) (get "primaryKeys" label))

-- `_vertex_labels` and `_edge_labels` of the list of the schema: the last label of a name comes
-- first, so that it is the one that is found
unfoldable pub labels : Items → List (Text × Entries)
unfolding get
labels nil = []
labels (cons (mapping es) vs) = elim (get "name" es) [
  | some (text name) ↦ labels vs ++ (name, es) ∷ []
  | none ↦ labels vs
  | some null ↦ labels vs
  | some (bool _) ↦ labels vs
  | some (int _) ↦ labels vs
  | some (list _) ↦ labels vs
  | some (mapping _) ↦ labels vs
]
labels (cons null vs) = labels vs
labels (cons (bool _) vs) = labels vs
labels (cons (int _) vs) = labels vs
labels (cons (text _) vs) = labels vs
labels (cons (list _) vs) = labels vs

unfoldable pub find_label : Text → List (Text × Entries) → Option Entries
find_label name [] = none
find_label name ((k, es) ∷ rest) = if same k name then some es else find_label name rest

-- the snapshot of the schema that a check is made against
pub record Schema : Type 0 where
  pub vertex_labels : List (Text × Entries)
  pub edge_labels : List (Text × Entries)
  pub specs : Text → Option (Text × Text)

-- `for label in raw_schema.get(key, [])`; none where the value cannot be iterated
abbrev labels_from : Option Json → Option (List (Text × Entries))
labels_from none = some []
labels_from (some (list vs)) = some (labels vs)
labels_from (some (text _)) = some []
labels_from (some (mapping _)) = some []
labels_from (some null) = none
labels_from (some (bool _)) = none
labels_from (some (int _)) = none

abbrev entries_or_none : Json → Entries
entries_or_none (mapping es) = es
entries_or_none _ = end

abbrev unwrap : Entries → Option Json → Entries
unwrap es none = es
unwrap es (some v) = entries_or_none v

-- `schema_payload(live_schema) or {}`
unfoldable pub schema_payload : Json → Entries
unfolding get
schema_payload (mapping es) = unwrap es (get "schema" es)
schema_payload null = end
schema_payload (bool _) = end
schema_payload (int _) = end
schema_payload (text _) = end
schema_payload (list _) = end

abbrev both_labels :
    (Text → Option (Text × Text))
    → Option (List (Text × Entries))
    → Option (List (Text × Entries))
    → Option Schema
both_labels specs (some vertices) (some edges) =
    some (record { vertex_labels = vertices; edge_labels = edges; specs = specs })
both_labels specs none _ = none
both_labels specs (some _) none = none

-- `specs` is `property_specs` of the schema
unfoldable pub schema_of : (Text → Option (Text × Text)) → Json → Option Schema
unfolding schema_payload labels get
schema_of specs live_schema =
    both_labels specs (labels_from (get "vertexlabels" (schema_payload live_schema)))
      (labels_from (get "edgelabels" (schema_payload live_schema)))

unfoldable pub size : Entries → ℕ
size end = 0
size (entry _ _ es) = suc (size es)

unfoldable pub int_equal : ℤ → ℤ → Bool
int_equal (pos n) (pos m) = n == m
int_equal (negsuc n) (negsuc m) = n == m
int_equal _ _ = false

unfoldable pub int_is : Bool → ℤ → Bool
unfolding int_equal
int_is true n = int_equal n (pos 1)
int_is false n = int_equal n (pos 0)

-- `==`
unfoldable mutual
  unfolding lookup size int_equal int_is

  pub json_equal : Json → Json → Bool
  json_equal null null = true
  json_equal (bool a) (bool b) = if a then b else not b
  json_equal (bool a) (int n) = int_is a n
  json_equal (int n) (bool a) = int_is a n
  json_equal (int n) (int m) = int_equal n m
  json_equal (text s) (text t) = same s t
  json_equal (list vs) (list ws) = items_equal vs ws
  json_equal (mapping es) (mapping fs) = (size es == size fs) && entries_within es fs
  json_equal _ _ = false

  items_equal : Items → Items → Bool
  items_equal nil nil = true
  items_equal (cons v vs) (cons w ws) = json_equal v w && items_equal vs ws
  items_equal _ _ = false

  entries_within : Entries → Entries → Bool
  entries_within end fs = true
  entries_within (entry k v es) fs =
      elim (lookup k fs) [ none ↦ false | some w ↦ json_equal v w ] && entries_within es fs
