-- ===== src/GraphDataValidate/Builders.antt =====
-- The query builders return where an operation has what they read.
use incubator_hugegraph_ai.Prelude.{
  ℕ, String, ◌≡◌, refl, sym, subst, false, Option, none, some, List, [], ◌∷◌, ◌++◌, Result, ok,
  ◌>>=◌,
}
use incubator_hugegraph_ai.GremlinPolicy.Characters.{Text}
use incubator_hugegraph_ai.GraphDataGremlin.Literal.{
  Json, null, bool, int, text, list, mapping, Entries, end, entry,
}
use incubator_hugegraph_ai.GraphDataGremlin.Queries.{
  get, is_true, item, items_of, properties_of, create_vertex_query, vertex_match_query,
  edge_match_query, source_vertex_match_query, target_vertex_match_query,
}
use incubator_hugegraph_ai.GraphDataValidate.Checks.{
  Reason, validate_field_map, validate_primary_key_match,
}
use incubator_hugegraph_ai.GraphDataValidate.Operations.{at_index}

abbrev pub Builds : Result Text → Type 0
Builds r = (query : Text) × (r ≡ ok query)

pub append_nothing : {A : Type 0} (xs ys : List A) → (xs ++ ys) ≡ [] → (xs ≡ []) × (ys ≡ [])
append_nothing [] ys h = (refl, h)
append_nothing (x ∷ xs) ys h = absurd (cc h)

pub at_index_nothing : (i : ℕ) (rs : List Reason) → at_index i rs ≡ [] → rs ≡ []
at_index_nothing i [] h = refl
at_index_nothing i (r ∷ rs) h = absurd (cc h)

-- a field that holds a dictionary
abbrev pub Holds : String → Entries → Type 0
Holds field operation = (es : Entries) × (get field operation ≡ some (mapping es))

pub primary-Holds :
    (field : String) (pks : List Text) (operation : Entries)
    → validate_primary_key_match field pks operation ≡ []
    → Holds field operation
unfolding validate_primary_key_match
primary-Holds field pks operation h = holds (get field operation) refl
  where
    holds : (o : Option Json) → get field operation ≡ o → Holds field operation
    holds none e = absurd (cc (rw (e, validate_primary_key_match) at h))
    holds (some null) e = absurd (cc (rw (e, validate_primary_key_match) at h))
    holds (some (bool _)) e = absurd (cc (rw (e, validate_primary_key_match) at h))
    holds (some (int _)) e = absurd (cc (rw (e, validate_primary_key_match) at h))
    holds (some (text _)) e = absurd (cc (rw (e, validate_primary_key_match) at h))
    holds (some (list _)) e = absurd (cc (rw (e, validate_primary_key_match) at h))
    holds (some (mapping es)) e = (es, e)

abbrev pub ItemsOf : Entries → Type 0
ItemsOf operation = (es : Entries) × (properties_of operation ≡ ok es)

pub properties_read :
    (allowed : List Text) (operation : Entries)
    → validate_field_map "properties" allowed false operation ≡ []
    → ItemsOf operation
unfolding validate_field_map properties_of is_true items_of
properties_read allowed operation h = read (get "properties" operation) refl
  where
    read : (o : Option Json) → get "properties" operation ≡ o → ItemsOf operation
    read none e = (end, rw (e, properties_of) refl)
    read (some null) e = (end, rw (e, properties_of) refl)
    read (some (bool _)) e = absurd (cc (rw (e, validate_field_map) at h))
    read (some (int _)) e = absurd (cc (rw (e, validate_field_map) at h))
    read (some (text _)) e = absurd (cc (rw (e, validate_field_map) at h))
    read (some (list _)) e = absurd (cc (rw (e, validate_field_map) at h))
    read (some (mapping end)) e = (end, rw (e, properties_of) refl)
    read (some (mapping (entry k v es))) e = (entry k v es, rw (e, properties_of) refl)

item_found :
    (key : String) (operation : Entries) (v : Json)
    → get key operation ≡ some v
    → item key operation ≡ ok v
unfolding item
item_found key operation v e = rw (e, item) refl

builds_after :
    {A : Type 0} (m : Result A) (k : A → Result Text) {a : A}
    → m ≡ ok a
    → Builds (k a)
    → Builds (m >>= k)
builds_after m k e h = subst (λ r. Builds (r >>= k)) (sym e) h

built : {query : Text} → Builds (ok query)
built {query} = (query, refl)

pub vertex_match_builds :
    (operation : Entries) (label : Json)
    → get "label" operation ≡ some label
    → Holds "match" operation
    → Builds (vertex_match_query operation)
unfolding vertex_match_query items_of
vertex_match_builds operation label e (es, f) =
    builds_after (item "label" operation) _ (item_found "label" operation label e)
      (builds_after (item "match" operation) _ (item_found "match" operation (mapping es) f) built)

pub create_vertex_builds :
    (operation : Entries) (label : Json)
    → get "label" operation ≡ some label
    → ItemsOf operation
    → Builds (create_vertex_query operation)
unfolding create_vertex_query
create_vertex_builds operation label e (es, f) =
    builds_after (item "label" operation) _ (item_found "label" operation label e)
      (builds_after (properties_of operation) _ f built)

pub source_match_builds :
    (operation : Entries)
    → Holds "source_match" operation
    → Builds (source_vertex_match_query operation)
unfolding source_vertex_match_query items_of
source_match_builds operation (es, f) =
    builds_after (item "source_match" operation) _
      (item_found "source_match" operation (mapping es) f) built

pub target_match_builds :
    (operation : Entries)
    → Holds "target_match" operation
    → Builds (target_vertex_match_query operation)
unfolding target_vertex_match_query items_of
target_match_builds operation (es, f) =
    builds_after (item "target_match" operation) _
      (item_found "target_match" operation (mapping es) f) built

pub edge_match_builds :
    (operation : Entries) (label : Json)
    → get "label" operation ≡ some label
    → Holds "source_match" operation
    → Holds "target_match" operation
    → Builds (edge_match_query operation)
unfolding edge_match_query items_of
edge_match_builds operation label e (es, f) (fs, g) =
    builds_after (item "source_match" operation) _
      (item_found "source_match" operation (mapping es) f)
      (builds_after (item "label" operation) _ (item_found "label" operation label e) (
        builds_after (item "target_match" operation) _
          (item_found "target_match" operation (mapping fs) g) built))
