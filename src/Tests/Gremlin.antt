-- ===== src/Tests/Gremlin.antt =====
-- Runs of the Gremlin policy, and instances of its theorems.
use incubator_hugegraph_ai.Prelude.{
  ℕ, ◌≡◌, refl, String, Bool, true, false, none, length, List, [], ◌∷◌, ◌++◌, ◌↔◌,
}
use incubator_hugegraph_ai.GremlinPolicy.Characters.{Text, points}
use incubator_hugegraph_ai.GremlinPolicy.Lexer.{identifier, Token, lex_gremlin_query}
use incubator_hugegraph_ai.GremlinPolicy.Adjacency.{has_invalid_token_adjacency}
use incubator_hugegraph_ai.GremlinPolicy.Analysis.{starts_traversal}
use incubator_hugegraph_ai.GremlinPolicy.Decision.{
  safe, unsafe, unclear, classify_gremlin_read_safety, check_read,
}
use incubator_hugegraph_ai.GremlinPolicy.Tokens.{
  Scanned, Covers, lex_gremlin_query-Scanned, lex_gremlin_query-Covers,
}
use incubator_hugegraph_ai.GremlinPolicy.Reads.{
  before_it, Explained, classify_gremlin_read_safety-Explained,
}
use incubator_hugegraph_ai.GremlinPolicy.Writes.{
  HasWriteStep, classify_gremlin_read_safety-HasWriteStep,
}
use incubator_hugegraph_ai.GremlinPolicy.EmptyMap.{
  mark, empty_map, has_invalid_token_adjacency-empty_map,
}

abbrev all_vertices : Text
all_vertices = points "g.V()"

abbrev vertices_dropped : Text
vertices_dropped = points "g.V().drop() // all"

abbrev name : String → ℕ → ℕ → Token
name value i j = record { kind = identifier; value = points value; start = i; finish = j }

all_vertices_safe : classify_gremlin_read_safety all_vertices ≡ safe
unfolding classify_gremlin_read_safety incubator_hugegraph_ai.Prelude.any
    incubator_hugegraph_ai.GremlinPolicy.Characters.is_space
    incubator_hugegraph_ai.GremlinPolicy.Characters.is_quote
    incubator_hugegraph_ai.GremlinPolicy.Characters.is_identifier_start
    incubator_hugegraph_ai.GremlinPolicy.Characters.is_identifier_part
    incubator_hugegraph_ai.GremlinPolicy.Characters.is_safe_punctuation
    incubator_hugegraph_ai.GremlinPolicy.Characters.is_one_of
    incubator_hugegraph_ai.GremlinPolicy.Characters.same
    incubator_hugegraph_ai.GremlinPolicy.Characters.lower
    incubator_hugegraph_ai.GremlinPolicy.Characters.occurs_in incubator_hugegraph_ai.Prelude.all
all_vertices_safe = refl

all_vertices_tokens :
    (lex_gremlin_query all_vertices).tokens
    ≡ (name "g" 0 1 ∷ mark "." 1 ∷ []) ++ (name "V" 2 3 ∷ mark "(" 3 ∷ mark ")" 4 ∷ [])
unfolding lex_gremlin_query incubator_hugegraph_ai.GremlinPolicy.Characters.is_space
    incubator_hugegraph_ai.GremlinPolicy.Characters.is_quote
    incubator_hugegraph_ai.GremlinPolicy.Characters.is_identifier_start
    incubator_hugegraph_ai.GremlinPolicy.Characters.is_identifier_part
    incubator_hugegraph_ai.GremlinPolicy.Characters.is_safe_punctuation
all_vertices_tokens = refl

dropped_unsafe : classify_gremlin_read_safety vertices_dropped ≡ unsafe
unfolding classify_gremlin_read_safety incubator_hugegraph_ai.Prelude.any
    incubator_hugegraph_ai.GremlinPolicy.Characters.is_space
    incubator_hugegraph_ai.GremlinPolicy.Characters.is_quote
    incubator_hugegraph_ai.GremlinPolicy.Characters.is_identifier_start
    incubator_hugegraph_ai.GremlinPolicy.Characters.is_identifier_part
    incubator_hugegraph_ai.GremlinPolicy.Characters.is_safe_punctuation
    incubator_hugegraph_ai.GremlinPolicy.Characters.is_one_of
    incubator_hugegraph_ai.GremlinPolicy.Characters.same
    incubator_hugegraph_ai.GremlinPolicy.Characters.lower
dropped_unsafe = refl

nested_comment_unclear : classify_gremlin_read_safety (points "g.V()/* /* */.count()") ≡ unclear
unfolding classify_gremlin_read_safety incubator_hugegraph_ai.Prelude.any
    incubator_hugegraph_ai.GremlinPolicy.Characters.is_space
    incubator_hugegraph_ai.GremlinPolicy.Characters.is_quote
    incubator_hugegraph_ai.GremlinPolicy.Characters.is_identifier_start
    incubator_hugegraph_ai.GremlinPolicy.Characters.is_identifier_part
    incubator_hugegraph_ai.GremlinPolicy.Characters.is_safe_punctuation
    incubator_hugegraph_ai.GremlinPolicy.Characters.is_one_of
    incubator_hugegraph_ai.GremlinPolicy.Characters.same
    incubator_hugegraph_ai.GremlinPolicy.Characters.lower
    incubator_hugegraph_ai.GremlinPolicy.Characters.starts
    incubator_hugegraph_ai.GremlinPolicy.Characters.occurs_in
nested_comment_unclear = refl

text_hides_drop : classify_gremlin_read_safety (points "g.V().has('drop()', \"x\")") ≡ safe
unfolding classify_gremlin_read_safety incubator_hugegraph_ai.Prelude.any
    incubator_hugegraph_ai.GremlinPolicy.Characters.is_space
    incubator_hugegraph_ai.GremlinPolicy.Characters.is_quote
    incubator_hugegraph_ai.GremlinPolicy.Characters.is_identifier_start
    incubator_hugegraph_ai.GremlinPolicy.Characters.is_identifier_part
    incubator_hugegraph_ai.GremlinPolicy.Characters.is_safe_punctuation
    incubator_hugegraph_ai.GremlinPolicy.Characters.is_one_of
    incubator_hugegraph_ai.GremlinPolicy.Characters.same
    incubator_hugegraph_ai.GremlinPolicy.Characters.lower
    incubator_hugegraph_ai.GremlinPolicy.Characters.starts
    incubator_hugegraph_ai.GremlinPolicy.Characters.is_newline
    incubator_hugegraph_ai.GremlinPolicy.Characters.occurs_in incubator_hugegraph_ai.Prelude.all
text_hides_drop = refl

literal_after_call : classify_gremlin_read_safety (points "g.V()true") ≡ unclear
unfolding classify_gremlin_read_safety incubator_hugegraph_ai.Prelude.any
    incubator_hugegraph_ai.GremlinPolicy.Characters.is_space
    incubator_hugegraph_ai.GremlinPolicy.Characters.is_quote
    incubator_hugegraph_ai.GremlinPolicy.Characters.is_identifier_start
    incubator_hugegraph_ai.GremlinPolicy.Characters.is_identifier_part
    incubator_hugegraph_ai.GremlinPolicy.Characters.is_safe_punctuation
    incubator_hugegraph_ai.GremlinPolicy.Characters.is_one_of
    incubator_hugegraph_ai.GremlinPolicy.Characters.same
    incubator_hugegraph_ai.GremlinPolicy.Characters.lower
literal_after_call = refl

literal_after_empty_map : classify_gremlin_read_safety (points "g.V([:])true") ≡ safe
unfolding classify_gremlin_read_safety incubator_hugegraph_ai.Prelude.any
    incubator_hugegraph_ai.GremlinPolicy.Characters.is_space
    incubator_hugegraph_ai.GremlinPolicy.Characters.is_quote
    incubator_hugegraph_ai.GremlinPolicy.Characters.is_identifier_start
    incubator_hugegraph_ai.GremlinPolicy.Characters.is_identifier_part
    incubator_hugegraph_ai.GremlinPolicy.Characters.is_safe_punctuation
    incubator_hugegraph_ai.GremlinPolicy.Characters.is_one_of
    incubator_hugegraph_ai.GremlinPolicy.Characters.same
    incubator_hugegraph_ai.GremlinPolicy.Characters.lower
    incubator_hugegraph_ai.GremlinPolicy.Characters.occurs_in incubator_hugegraph_ai.Prelude.all
literal_after_empty_map = refl

drop_rejected : (check_read vertices_dropped).allowed ≡ false
unfolding check_read incubator_hugegraph_ai.Prelude.any
    incubator_hugegraph_ai.GremlinPolicy.Characters.is_space
    incubator_hugegraph_ai.GremlinPolicy.Characters.is_quote
    incubator_hugegraph_ai.GremlinPolicy.Characters.is_identifier_start
    incubator_hugegraph_ai.GremlinPolicy.Characters.is_identifier_part
    incubator_hugegraph_ai.GremlinPolicy.Characters.is_safe_punctuation
    incubator_hugegraph_ai.GremlinPolicy.Characters.is_one_of
    incubator_hugegraph_ai.GremlinPolicy.Characters.same
    incubator_hugegraph_ai.GremlinPolicy.Characters.lower
drop_rejected = refl

classify_gremlin_read_safety-Explained_example :
    Explained
      (before_it none (name "g" 0 1 ∷ mark "." 1 ∷ []))
      (name "V" 2 3)
      (mark "(" 3 ∷ mark ")" 4 ∷ [])
    × ((lex_gremlin_query all_vertices).valid ≡ true)
    × (starts_traversal (lex_gremlin_query all_vertices).tokens ≡ true)
classify_gremlin_read_safety-Explained_example =
    classify_gremlin_read_safety-Explained all_vertices (name "g" 0 1 ∷ mark "." 1 ∷ [])
      (name "V" 2 3) (mark "(" 3 ∷ mark ")" 4 ∷ []) all_vertices_safe all_vertices_tokens

classify_gremlin_read_safety-HasWriteStep_example :
    (classify_gremlin_read_safety vertices_dropped ≡ unsafe)
    ↔ HasWriteStep none (lex_gremlin_query vertices_dropped).tokens
classify_gremlin_read_safety-HasWriteStep_example =
    classify_gremlin_read_safety-HasWriteStep vertices_dropped

lex_gremlin_query-Scanned_example : Scanned 0 vertices_dropped (lex_gremlin_query vertices_dropped)
lex_gremlin_query-Scanned_example = lex_gremlin_query-Scanned vertices_dropped

lex_gremlin_query-Covers_example :
    Covers 0 vertices_dropped
      (lex_gremlin_query vertices_dropped).tokens
      (lex_gremlin_query vertices_dropped).valid
    × (length (lex_gremlin_query vertices_dropped).normalized ≡ length vertices_dropped)
lex_gremlin_query-Covers_example = lex_gremlin_query-Covers vertices_dropped

has_invalid_token_adjacency-empty_map_example :
    has_invalid_token_adjacency (
      name "g" 0 1 ∷ (mark "." 1 ∷ name "V" 2 3 ∷ mark "(" 3 ∷ [])
      ++ empty_map 4 (mark ")" 7 ∷ name "true" 8 12 ∷ []))
    ≡ has_invalid_token_adjacency
        (name "g" 0 1 ∷ (mark "." 1 ∷ name "V" 2 3 ∷ mark "(" 3 ∷ []) ++ empty_map 4 [])
has_invalid_token_adjacency-empty_map_example =
    has_invalid_token_adjacency-empty_map (name "g" 0 1)
      (mark "." 1 ∷ name "V" 2 3 ∷ mark "(" 3 ∷ []) 4 (mark ")" 7 ∷ name "true" 8 12 ∷ [])
