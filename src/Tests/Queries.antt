-- ===== src/Tests/Queries.antt =====
-- Runs of the query builders, and instances of their theorems.
use incubator_hugegraph_ai.Prelude.{
  ◌≡◌, ◌≢◌, refl, String, Option, some, List, [], ◌∷◌, ◌++◌, Result, ok,
}
use incubator_hugegraph_ai.WritePlan.Value.{pos}
use incubator_hugegraph_ai.GremlinPolicy.Characters.{Text, points, masked, starts}
use incubator_hugegraph_ai.GremlinPolicy.Lexer.{scan, lexeme, string}
use incubator_hugegraph_ai.GremlinPolicy.Decision.{safe, unsafe, classify_gremlin_read_safety}
use incubator_hugegraph_ai.GraphDataGremlin.Literal.{
  text, int, Entries, end, entry, mapping, escape_groovy_single_quoted, text_literal,
}
use incubator_hugegraph_ai.GraphDataGremlin.Queries.{vertex_match_query, write_query}
use incubator_hugegraph_ai.GraphDataGremlin.Escaping.{
  unescape, unescape-escape_groovy_single_quoted, scan-text_literal,
}
use incubator_hugegraph_ai.GraphDataGremlin.Injection.{vertex_match, match_queries_write_nothing}
use incubator_hugegraph_ai.GraphDataGremlin.WriteQueries.{write_queries_are_unsafe}

-- a value that tries to end its literal
abbrev hostile : Text
hostile = points "x').drop().has('\\"

abbrev matching : Entries
matching = entry (points "label") (text (points "person")) (
    entry (points "match")
      (mapping (entry (points "name") (text hostile) (entry (points "age") (int (pos 42)) end)))
      end)

abbrev matching_query : Text
matching_query =
    points "g.V().hasLabel('person').has('name','x\\').drop().has(\\'\\\\').has('age',42)"

matching_query_ok : vertex_match_query matching ≡ ok matching_query
unfolding vertex_match_query incubator_hugegraph_ai.GremlinPolicy.Characters.same
matching_query_ok = refl

matching_query_safe : classify_gremlin_read_safety matching_query ≡ safe
unfolding classify_gremlin_read_safety incubator_hugegraph_ai.Prelude.any
    incubator_hugegraph_ai.GremlinPolicy.Characters.is_space
    incubator_hugegraph_ai.GremlinPolicy.Characters.is_quote
    incubator_hugegraph_ai.GremlinPolicy.Characters.is_identifier_start
    incubator_hugegraph_ai.GremlinPolicy.Characters.is_identifier_part
    incubator_hugegraph_ai.GremlinPolicy.Characters.is_safe_punctuation
    incubator_hugegraph_ai.GremlinPolicy.Characters.is_one_of
    incubator_hugegraph_ai.GremlinPolicy.Characters.same
    incubator_hugegraph_ai.GremlinPolicy.Characters.lower starts
    incubator_hugegraph_ai.GremlinPolicy.Characters.is_newline
    incubator_hugegraph_ai.GremlinPolicy.Characters.occurs_in incubator_hugegraph_ai.Prelude.all
matching_query_safe = refl

abbrev deleting : Entries
deleting =
    entry (points "op") (text (points "delete_vertex"))
      (entry (points "target_id") (text (points "1:a")) end)

abbrev deleting_query : Text
deleting_query = points "g.V('1:a').not(bothE()).drop()"

deleting_query_ok : write_query deleting ≡ ok deleting_query
unfolding write_query incubator_hugegraph_ai.GremlinPolicy.Characters.same
deleting_query_ok = refl

unescape-escape_groovy_single_quoted_example :
    unescape (escape_groovy_single_quoted hostile) ≡ some hostile
unescape-escape_groovy_single_quoted_example = unescape-escape_groovy_single_quoted hostile

scan-text_literal_example :
    scan 39 (escape_groovy_single_quoted hostile ++ (39 ∷ points ")"))
    ≡ lexeme string
        (text_literal hostile)
        (39 ∷ (masked (escape_groovy_single_quoted hostile) ++ (39 ∷ [])))
        (points ")")
unfolding starts
scan-text_literal_example = scan-text_literal hostile (points ")") refl

match_queries_write_nothing_example :
    (classify_gremlin_read_safety matching_query ≢ unsafe)
    × (classify_gremlin_read_safety (matching_query ++ points ".count()") ≢ unsafe)
match_queries_write_nothing_example =
    match_queries_write_nothing vertex_match matching matching_query matching_query_ok

write_queries_are_unsafe_example : classify_gremlin_read_safety deleting_query ≡ unsafe
write_queries_are_unsafe_example =
    write_queries_are_unsafe deleting deleting_query deleting_query_ok
