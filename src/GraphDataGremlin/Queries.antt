-- ===== src/GraphDataGremlin/Queries.antt =====
-- The query builders of tools/graph_data_gremlin.py. An operation is the dictionary that the tools
-- pass; a missing key and a value with no items raise.
use incubator_hugegraph_ai.Prelude.{
  String, zero, suc, Bool, true, false, not, Option, none, some, [], ◌∷◌, ◌++◌, if◌then◌else◌,
  Result, ok, err, ◌>>=◌, key_error, attribute_error, value_error,
}
use incubator_hugegraph_ai.WritePlan.Value.{pos, negsuc}
use incubator_hugegraph_ai.GremlinPolicy.Characters.{Text, points, same}
use incubator_hugegraph_ai.GraphDataGremlin.Literal.{
  Json, null, bool, int, text, list, mapping, nil, cons, Entries, end, entry, text_literal,
  g_literal,
}

-- `operation.get(key)`
unfoldable pub get : String → Entries → Option Json
get key end = none
get key (entry k v es) = if same k (points key) then some v else get key es

-- `operation[key]`
unfoldable pub item : String → Entries → Result Json
unfolding get
item key operation = elim (get key operation) [ none ↦ err (key_error key) | some v ↦ ok v ]

-- the truth of a value
unfoldable pub is_true : Json → Bool
is_true null = false
is_true (bool b) = b
is_true (int (pos zero)) = false
is_true (int (pos (suc _))) = true
is_true (int (negsuc _)) = true
is_true (text []) = false
is_true (text (_ ∷ _)) = true
is_true (list nil) = false
is_true (list (cons _ _)) = true
is_true (mapping end) = false
is_true (mapping (entry _ _ _)) = true

abbrev or_null : Option Json → Json
or_null none = null
or_null (some v) = v

-- `operation.get(first) or operation.get(second)`
unfoldable pub get_either : String → String → Entries → Json
unfolding get is_true
get_either first second operation =
    if is_true (or_null (get first operation))
    then or_null (get first operation)
    else or_null (get second operation)

-- `value.items()`
unfoldable pub items_of : Json → Result Entries
items_of (mapping es) = ok es
items_of null = err attribute_error
items_of (bool _) = err attribute_error
items_of (int _) = err attribute_error
items_of (text _) = err attribute_error
items_of (list _) = err attribute_error

-- `_has_steps` of a dictionary
unfoldable pub has_steps : Entries → Text
unfolding g_literal
has_steps end = []
has_steps (entry key value rest) =
    if same key (points "id")
    then points ".hasId(" ++ (g_literal value ++ (points ")" ++ has_steps rest))
    else points ".has("
      ++ (text_literal key ++ (points "," ++ (g_literal value ++ (points ")" ++ has_steps rest))))

-- `g.V().hasLabel(…)` and the steps of a match
unfoldable pub match_query : Json → Entries → Text → Text
unfolding g_literal has_steps
match_query label steps rest =
    points "g.V().hasLabel(" ++ (g_literal label ++ (points ")" ++ (has_steps steps ++ rest)))

-- `_vertex_match_query`
unfoldable pub vertex_match_query : Entries → Result Text
unfolding item items_of match_query
vertex_match_query operation = item "label" operation >>= λ label.
    item "match" operation >>= λ matched.
    items_of matched >>= λ steps. ok (match_query label steps [])

-- `_source_vertex_match_query`
unfoldable pub source_vertex_match_query : Entries → Result Text
unfolding item items_of get_either match_query
source_vertex_match_query operation = item "source_match" operation >>= λ matched.
    items_of matched >>= λ steps.
    ok (match_query (get_either "source_label" "outVLabel" operation) steps [])

-- `_target_vertex_match_query`
unfoldable pub target_vertex_match_query : Entries → Result Text
unfolding item items_of get_either match_query
target_vertex_match_query operation = item "target_match" operation >>= λ matched.
    items_of matched >>= λ steps.
    ok (match_query (get_either "target_label" "inVLabel" operation) steps [])

-- the rest of `_edge_match_query`
unfoldable pub edge_steps : Json → Json → Entries → Text
unfolding g_literal has_steps
edge_steps label target steps =
    points ".outE("
    ++ (g_literal label
        ++ (points ").where(inV().hasLabel("
            ++ (g_literal target ++ (points ")" ++ (has_steps steps ++ points ")")))))

-- `_edge_match_query`
unfoldable pub edge_match_query : Entries → Result Text
unfolding item items_of get_either match_query edge_steps
edge_match_query operation = item "source_match" operation >>= λ source.
    items_of source >>= λ source_steps. item "label" operation >>= λ label.
    item "target_match" operation >>= λ target. items_of target >>= λ target_steps. ok (
      match_query (get_either "source_label" "outVLabel" operation) source_steps
        (edge_steps label (get_either "target_label" "inVLabel" operation) target_steps))

-- `.property(…)` for every property
unfoldable pub property_steps : Entries → Text
unfolding g_literal
property_steps end = []
property_steps (entry key value rest) =
    points ".property("
    ++ (text_literal key
        ++ (points "," ++ (g_literal value ++ (points ")" ++ property_steps rest))))

-- `(operation.get("properties") or {}).items()`
unfoldable pub properties_of : Entries → Result Entries
unfolding get is_true items_of
properties_of operation =
    if is_true (or_null (get "properties" operation))
    then items_of (or_null (get "properties" operation))
    else ok end

-- `.property(T.id,…)` where the operation has an id
abbrev pub id_step : Option Json → Text
id_step none = []
id_step (some null) = []
id_step (some (text [])) = []
id_step (some v) = points ".property(T.id," ++ (g_literal v ++ points ")")

-- `_create_vertex_query`
unfoldable pub create_vertex_query : Entries → Result Text
unfolding item properties_of property_steps get g_literal
create_vertex_query operation = item "label" operation >>= λ label.
    properties_of operation >>= λ properties. ok (
      points "g.addV("
      ++ (g_literal label
          ++ (points ")" ++ (id_step (get "id" operation) ++ property_steps properties))))

-- `_create_edge_query`
unfoldable pub create_edge_query : Entries → Result Text
unfolding item properties_of property_steps g_literal
create_edge_query operation = item "source_id" operation >>= λ source.
    item "target_id" operation >>= λ target. item "label" operation >>= λ label.
    properties_of operation >>= λ properties. ok (
      points "g.V("
      ++ (g_literal source
          ++ (points ").as('s').V("
              ++ (g_literal target
                  ++ (points ").addE("
                      ++ (g_literal label
                          ++ (points ").from('s')" ++ property_steps properties)))))))

-- `str(operation.get("op") or operation.get("type")) == name`
unfoldable pub is_op : Entries → String → Bool
unfolding get_either
is_op operation name = elim (get_either "op" "type" operation) [
  | text value ↦ same value (points name)
  | null ↦ false
  | bool _ ↦ false
  | int _ ↦ false
  | list _ ↦ false
  | mapping _ ↦ false
]

-- `_delete_target_query`
unfoldable pub delete_target_query : Entries → Result Text
unfolding item is_op g_literal
delete_target_query operation = item "target_id" operation >>= λ target.
    if is_op operation "delete_vertex"
    then ok (points "g.V(" ++ (g_literal target ++ points ")"))
    else if is_op operation "delete_edge"
    then ok (points "g.E(" ++ (g_literal target ++ points ")"))
    else err (value_error "Unsupported delete op")

-- `operation.get("cascade", False) is False`
abbrev pub keeps_edges : Option Json → Bool
keeps_edges none = true
keeps_edges (some (bool b)) = not b
keeps_edges (some _) = false

-- `_delete_vertex_query`
unfoldable pub delete_vertex_query : Entries → Result Text
unfolding delete_target_query get
delete_vertex_query operation = delete_target_query operation >>= λ query. ok (
    query
    ++ ((if keeps_edges (get "cascade" operation) then points ".not(bothE())" else [])
        ++ points ".drop()"))

-- `_delete_edge_query`
unfoldable pub delete_edge_query : Entries → Result Text
unfolding delete_target_query
delete_edge_query operation =
    delete_target_query operation >>= λ query. ok (query ++ points ".drop()")

-- `_write_query`
unfoldable pub write_query : Entries → Result Text
unfolding is_op create_vertex_query create_edge_query delete_vertex_query delete_edge_query
write_query operation =
    if is_op operation "create_vertex"
    then create_vertex_query operation
    else if is_op operation "create_edge"
    then create_edge_query operation
    else if is_op operation "delete_vertex"
    then delete_vertex_query operation
    else if is_op operation "delete_edge"
    then delete_edge_query operation
    else err (value_error "Unsupported op")
