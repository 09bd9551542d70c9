-- ===== src/GraphDataValidate/Buildable.antt =====
-- An operation that the check passes has what the query builders read.
use incubator_hugegraph_ai.Prelude.{
  ℕ, suc, String, ◌≡◌, refl, sym, ap, ◌∙◌, subst, true, false, ◌&&◌, ◌||◌, Option, none, some, List,
  [], ◌∷◌, if◌then◌else◌, Memᴰ, Option-cases, Bool-cases, inl, inr, arith,
}
use incubator_hugegraph_ai.GremlinPolicy.Characters.{Text}
use incubator_hugegraph_ai.GraphDataGremlin.Literal.{
  Json, null, bool, int, text, list, mapping, Entries,
}
use incubator_hugegraph_ai.GraphDataGremlin.Queries.{
  get, get_either, is_op, create_vertex_query, vertex_match_query, edge_match_query,
  source_vertex_match_query, target_vertex_match_query,
}
use incubator_hugegraph_ai.PropertyValidation.{Parsers}
use incubator_hugegraph_ai.GraphDataValidate.Schema.{
  Schema, schema_of, property_names, primary_key_names, find_label,
}
use incubator_hugegraph_ai.GraphDataValidate.Checks.{
  Reason, validate_field_map, validate_property_values, validate_primary_key_match,
}
use incubator_hugegraph_ai.GraphDataValidate.Operations.{
  Identity, Checked, no_reason, identities_of, claim_identities, endpoint_label, is_vertex_op,
  is_edge_op, undefined_reasons, mismatch_reasons, match_reasons, edge_reasons, vertex_fields,
  check_vertex, check_edge, check_labelled, check_label, check_entries, validate_graph_change_plan,
  check_operation, check_changes,
}
use incubator_hugegraph_ai.GraphDataValidate.Builders.{
  Builds, Holds, append_nothing, at_index_nothing, primary-Holds, properties_read,
  vertex_match_builds, create_vertex_builds, source_match_builds, target_match_builds,
  edge_match_builds,
}

-- What is built of an operation that passed: the creation of a vertex, the match of a vertex to be
-- deleted, or the matches of an edge and of its endpoints.
pub data Buildable : Json → Type 0 where
  creation :
      {operation : Entries}
      → is_op operation "create_vertex" ≡ true
      → Builds (create_vertex_query operation)
      → Buildable (mapping operation)
  deletion :
      {operation : Entries}
      → is_op operation "delete_vertex" ≡ true
      → Builds (vertex_match_query operation)
      → Buildable (mapping operation)
  edge :
      {operation : Entries}
      → (is_op operation "create_edge" || is_op operation "delete_edge") ≡ true
      → Builds (edge_match_query operation)
      → Builds (source_vertex_match_query operation)
      → Builds (target_vertex_match_query operation)
      → Buildable (mapping operation)

module _ (parsers : Parsers) (dumps : Json → Text) where
  match_Holds :
      (field : String) (name : String) (label : Json) (o : Option Entries) (operation : Entries)
      → undefined_reasons parsers dumps name label o ≡ []
      → match_reasons parsers dumps field o operation ≡ []
      → Holds field operation
  unfolding match_reasons
  match_Holds field name label none operation u h = absurd (cc u)
  match_Holds field name label (some l) operation u h =
      primary-Holds field (primary_key_names l) operation
        (append_nothing (validate_primary_key_match field (primary_key_names l) operation) _ h).0

  vertex_case :
      (schema : Schema) (l operation : Entries) (label : Json)
      → get "label" operation ≡ some label
      → is_vertex_op parsers dumps operation ≡ true
      → vertex_fields parsers dumps schema l operation ≡ []
      → (if is_op operation "delete_vertex"
          then validate_primary_key_match "match" (primary_key_names l) operation
          else [])
        ≡ []
      → Buildable (mapping operation)
  unfolding vertex_fields
  vertex_case schema l operation label e k c h =
      elim (Bool-cases (is_op operation "delete_vertex")) [
        | inl d ↦ deletion d (
            vertex_match_builds operation label e
              (primary-Holds "match" (primary_key_names l) operation (rw d at h)))
        | inr d ↦ creation (ground (arith, d)) (
            create_vertex_builds operation label e (
              properties_read (property_names l) operation
                (append_nothing (validate_field_map "properties" (property_names l) false operation)
                  _ c).0))
      ]

  edge_Holds :
      (schema : Schema) (label operation : Entries)
      → edge_reasons parsers dumps schema label operation ≡ []
      → Holds "source_match" operation × Holds "target_match" operation
  unfolding edge_reasons
  edge_Holds schema label operation h =
      let source = get_either "source_label" "outVLabel" operation in
      let target = get_either "target_label" "inVLabel" operation in
      let (u, h1) =
        append_nothing
          (undefined_reasons parsers dumps "source_label" source
            (endpoint_label parsers dumps schema source))
          _ h in
      let (v, h2) =
        append_nothing
          (undefined_reasons parsers dumps "target_label" target
            (endpoint_label parsers dumps schema target))
          _ h1 in
      let (a, h3) =
        append_nothing
          (mismatch_reasons parsers dumps "source_label"
            (get_either "source_label" "sourceLabel" label) source)
          _ h2 in
      let (b, h4) =
        append_nothing
          (mismatch_reasons parsers dumps "target_label"
            (get_either "target_label" "targetLabel" label) target)
          _ h3 in
      let (c, h5) =
        append_nothing (validate_field_map "properties" (property_names label) false operation) _
          h4 in
      let (d, h6) =
        append_nothing
          (if is_op operation "create_edge"
            then validate_property_values parsers schema.specs operation
            else [])
          _ h5 in
      let (s, t) =
        append_nothing
          (match_reasons parsers dumps "source_match" (endpoint_label parsers dumps schema source)
            operation)
          _ h6 in
      (
        match_Holds "source_match" "source_label" source
            (endpoint_label parsers dumps schema source) operation u s,
        match_Holds "target_match" "target_label" target
            (endpoint_label parsers dumps schema target) operation v t,
      )

  vertex_Buildable :
      (schema : Schema) (i : ℕ) (name : Text) (operation : Entries) (before : List Reason)
      (taken : List (Identity × ℕ)) (label : Json)
      → get "label" operation ≡ some label
      → is_vertex_op parsers dumps operation ≡ true
      → (check_vertex parsers dumps schema i name operation before taken).errors ≡ []
      → Buildable (mapping operation)
  unfolding check_vertex
  vertex_Buildable schema i name operation before taken label e k h =
      elim (Option-cases (find_label name schema.vertex_labels)) [
        | inl f ↦
            absurd
              (cc (append_nothing before _ (at_index_nothing i _ (rw (f, check_vertex) at h))).1)
        | inr (l, f) ↦
            let fields = vertex_fields parsers dumps schema l operation in
            let (b, h1) =
              append_nothing before _ (at_index_nothing i _ (rw (f, check_vertex) at h)) in
            let (c, h2) = append_nothing fields _ h1 in
            let (d, h3) =
              append_nothing
                ((if is_op operation "create_vertex" && no_reason fields
                  then claim_identities parsers dumps i
                      (identities_of parsers dumps name (primary_key_names l) operation) taken
                  else ([], taken)).0)
                _ h2 in
            vertex_case schema l operation label e k c h3
      ]

  edge_Buildable :
      (schema : Schema) (i : ℕ) (name : Text) (operation : Entries) (before : List Reason)
      (taken : List (Identity × ℕ)) (label : Json)
      → get "label" operation ≡ some label
      → is_edge_op parsers dumps operation ≡ true
      → (check_edge parsers dumps schema i name operation before taken).errors ≡ []
      → Buildable (mapping operation)
  unfolding check_edge
  edge_Buildable schema i name operation before taken label e k h =
      elim (Option-cases (find_label name schema.edge_labels)) [
        | inl f ↦
            absurd (cc (append_nothing before _ (at_index_nothing i _ (rw (f, check_edge) at h))).1)
        | inr (l, f) ↦
            let (b, c) = append_nothing before _ (at_index_nothing i _ (rw (f, check_edge) at h)) in
            let (source, target) = edge_Holds schema l operation c in
            edge k (edge_match_builds operation label e source target)
              (source_match_builds operation source) (target_match_builds operation target)
      ]

  labelled_Buildable :
      (schema : Schema) (i : ℕ) (name : Text) (operation : Entries) (taken : List (Identity × ℕ))
      (label : Json)
      → get "label" operation ≡ some label
      → (is_vertex_op parsers dumps operation || is_edge_op parsers dumps operation) ≡ true
      → (check_labelled parsers dumps schema i name operation taken).errors ≡ []
      → Buildable (mapping operation)
  unfolding check_labelled
  labelled_Buildable schema i name operation taken label e k h =
      elim (Bool-cases (is_vertex_op parsers dumps operation)) [
        | inl v ↦ vertex_Buildable schema i name operation _ taken label e v (rw v at h)
        | inr v ↦
            edge_Buildable schema i name operation _ taken label e (ground (arith, v)) (rw v at h)
      ]

  label_Buildable :
      (schema : Schema) (i : ℕ) (operation : Entries) (taken : List (Identity × ℕ))
      (o : Option Json)
      → get "label" operation ≡ o
      → (is_vertex_op parsers dumps operation || is_edge_op parsers dumps operation) ≡ true
      → (check_label parsers dumps schema i o operation taken).errors ≡ []
      → Buildable (mapping operation)
  unfolding check_label
  label_Buildable schema i operation taken (some (text (c ∷ cs))) e u h =
      labelled_Buildable schema i (c ∷ cs) operation taken (text (c ∷ cs)) e u h
  label_Buildable schema i operation taken (some (text [])) e u h = absurd (cc h)
  label_Buildable schema i operation taken none e u h = absurd (cc h)
  label_Buildable schema i operation taken (some null) e u h = absurd (cc h)
  label_Buildable schema i operation taken (some (bool _)) e u h = absurd (cc h)
  label_Buildable schema i operation taken (some (int _)) e u h = absurd (cc h)
  label_Buildable schema i operation taken (some (list _)) e u h = absurd (cc h)
  label_Buildable schema i operation taken (some (mapping _)) e u h = absurd (cc h)

  entries_Buildable :
      (schema : Schema) (i : ℕ) (operation : Entries) (taken : List (Identity × ℕ))
      → (check_entries parsers dumps schema i operation taken).errors ≡ []
      → Buildable (mapping operation)
  unfolding check_entries
  entries_Buildable schema i operation taken h =
      elim (Bool-cases
        (is_vertex_op parsers dumps operation || is_edge_op parsers dumps operation)) [
          | inr u ↦ absurd (cc (rw u at h))
          | inl u ↦
              label_Buildable schema i operation taken (get "label" operation) refl u (rw u at h)
        ]

  operation_Buildable :
      (schema : Schema) (i : ℕ) (operation : Json) (taken : List (Identity × ℕ))
      → (check_operation parsers dumps schema i operation taken).errors ≡ []
      → Buildable operation
  unfolding check_operation
  operation_Buildable schema i (mapping es) taken h = entries_Buildable schema i es taken h
  operation_Buildable schema i null taken h = absurd (cc h)
  operation_Buildable schema i (bool _) taken h = absurd (cc h)
  operation_Buildable schema i (int _) taken h = absurd (cc h)
  operation_Buildable schema i (text _) taken h = absurd (cc h)
  operation_Buildable schema i (list _) taken h = absurd (cc h)

  operations_Buildable :
      (schema : Schema) (i : ℕ) (operations : List Json) (taken : List (Identity × ℕ))
      → (check_changes parsers dumps schema i operations taken).errors ≡ []
      → {operation : Json} → Memᴰ operation operations
      → Buildable operation
  unfolding check_changes
  operations_Buildable schema i [] taken h m = elim m [ ]
  operations_Buildable schema i (x ∷ xs) taken h (Memᴰ.head e) =
      subst Buildable (sym e) (operation_Buildable schema i x taken (append_nothing _ _ h).0)
  operations_Buildable schema i (x ∷ xs) taken h (Memᴰ.tail m) =
      operations_Buildable schema (suc i) xs _
        (append_nothing (check_operation parsers dumps schema i x taken).errors _ h).1 m

  unfolded :
      (specs : Text → Option (Text × Text)) (operations : List Json) (live_schema : Json)
      {checked : Checked}
      → validate_graph_change_plan parsers dumps specs operations live_schema ≡ some checked
      → (schema : Schema) × (check_changes parsers dumps schema 0 operations [] ≡ checked)
  unfolding validate_graph_change_plan
  unfolded specs operations live_schema h = elim (Option-cases (schema_of specs live_schema)) [
    | inl e ↦ absurd (cc (rw (e, validate_graph_change_plan) at h))
    | inr (schema, e) ↦ (schema, same_checked (rw (e, validate_graph_change_plan) at h))
  ]
    where
      same_checked : {a b : Checked} → some a ≡ some b → a ≡ b
      same_checked q = cc q

  -- Every operation of a plan that the check passes without an error has what the query builders
  -- read: for a creation of a vertex its query is built, for a deletion of a vertex the query that
  -- matches it, and for an operation on an edge the queries that match the edge and both of its
  -- endpoints; so none of them raises KeyError or AttributeError.
  pub valid_operations_are_Buildable :
      (specs : Text → Option (Text × Text)) (operations : List Json) (live_schema : Json)
      (checked : Checked) {operation : Json}
      → validate_graph_change_plan parsers dumps specs operations live_schema ≡ some checked
      → checked.errors ≡ []
      → Memᴰ operation operations
      → Buildable operation
  valid_operations_are_Buildable specs operations live_schema checked h e m =
      let (schema, f) = unfolded specs operations live_schema h in
      operations_Buildable schema 0 operations [] (ap (λ (c : Checked). c.errors) f ∙ e) m
