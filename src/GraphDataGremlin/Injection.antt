-- ===== src/GraphDataGremlin/Injection.antt =====
-- No value, key or label that an operation holds adds a write step to the queries that a dry run
-- reads with.
use incubator_hugegraph_ai.Prelude.{
  if_lem, ℕ, ◌≡◌, ◌≢◌, refl, sym, ap, ◌∙◌, subst, Bool, true, false, none, [], ◌∷◌, ◌++◌,
  append_assoc, append-nil, length, Result, ok, err, ◌>>=◌,
}
use incubator_hugegraph_ai.GremlinPolicy.Characters.{
  Text, points, same, is_space, is_quote, is_digit, is_identifier_start, is_identifier_part, lower,
  is_one_of,
}
use incubator_hugegraph_ai.GremlinPolicy.Lexer.{
  identifier, lexeme, span, scan, lex, lex_gremlin_query,
}
use incubator_hugegraph_ai.GremlinPolicy.Analysis.{is_write, analyze_loop}
use incubator_hugegraph_ai.GremlinPolicy.Decision.{unsafe, classify_gremlin_read_safety}
use incubator_hugegraph_ai.GremlinPolicy.Writes.{
  HasWriteStep, HasWriteStep-writes, classify_gremlin_read_safety-HasWriteStep,
}
use incubator_hugegraph_ai.GraphDataGremlin.Literal.{
  Json, Entries, end, entry, text_literal, g_literal,
}
use incubator_hugegraph_ai.GraphDataGremlin.Queries.{
  item, items_of, get_either, has_steps, match_query, edge_steps, vertex_match_query,
  source_vertex_match_query, target_vertex_match_query, edge_match_query,
}
use incubator_hugegraph_ai.GraphDataGremlin.Clean.{
  Clean, Follows, Clean-nil, token-Clean, blank-Clean,
}
use incubator_hugegraph_ai.GraphDataGremlin.Passing.{
  dot_passes, close_passes, comma_passes, text_literal-Passes, argument_passes, name_passes,
}

dot-Clean : (rest : Text) → Clean rest → Clean (b'.' ∷ rest)
dot-Clean = dot_passes Clean token-Clean blank-Clean

close-Clean : (rest : Text) → Clean rest → Clean (b')' ∷ rest)
close-Clean = close_passes Clean token-Clean blank-Clean

comma-Clean : (rest : Text) → Clean rest → Clean (b',' ∷ rest)
comma-Clean = comma_passes Clean token-Clean blank-Clean

text-Clean : (value rest : Text) → Follows rest → Clean rest → Clean (text_literal value ++ rest)
text-Clean = text_literal-Passes Clean token-Clean blank-Clean

argument-Clean : (v : Json) (rest : Text) → Clean rest → Clean (g_literal v ++ (points ")" ++ rest))
argument-Clean = argument_passes Clean token-Clean blank-Clean

name-Clean :
    (c : ℕ) (cs rest : Text)
    → scan c (cs ++ (b'(' ∷ rest)) ≡ lexeme identifier (c ∷ cs) (c ∷ cs) (b'(' ∷ rest)
    → is_write (lower (c ∷ cs)) ≡ false
    → Clean rest
    → Clean (c ∷ (cs ++ (b'(' ∷ rest)))
name-Clean = name_passes Clean token-Clean blank-Clean

has_label-Clean : (rest : Text) → Clean rest → Clean (points ".hasLabel(" ++ rest)
unfolding scan span is_space is_quote is_identifier_start is_identifier_part is_digit is_write
    is_one_of same lower
has_label-Clean rest h = dot-Clean _ (name-Clean b'h' (points "asLabel") rest refl refl h)

has_id-Clean : (rest : Text) → Clean rest → Clean (points ".hasId(" ++ rest)
unfolding scan span is_space is_quote is_identifier_start is_identifier_part is_digit is_write
    is_one_of same lower
has_id-Clean rest h = dot-Clean _ (name-Clean b'h' (points "asId") rest refl refl h)

has-Clean : (rest : Text) → Clean rest → Clean (points ".has(" ++ rest)
unfolding scan span is_space is_quote is_identifier_start is_identifier_part is_digit is_write
    is_one_of same lower
has-Clean rest h = dot-Clean _ (name-Clean b'h' (points "as") rest refl refl h)

out_edges-Clean : (rest : Text) → Clean rest → Clean (points ".outE(" ++ rest)
unfolding scan span is_space is_quote is_identifier_start is_identifier_part is_digit is_write
    is_one_of same lower
out_edges-Clean rest h = dot-Clean _ (name-Clean b'o' (points "utE") rest refl refl h)

where_in-Clean : (rest : Text) → Clean rest → Clean (points ".where(inV()" ++ rest)
unfolding scan span is_space is_quote is_identifier_start is_identifier_part is_digit is_write
    is_one_of same lower
where_in-Clean rest h = dot-Clean _ (
    name-Clean b'w' (points "here") _ refl refl
      (name-Clean b'i' (points "nV") _ refl refl (close-Clean rest h)))

count-Clean : Clean (points ".count()")
unfolding scan span is_space is_quote is_identifier_start is_identifier_part is_digit is_write
    is_one_of same lower
count-Clean =
    dot-Clean _ (name-Clean b'c' (points "ount") (points ")") refl refl (close-Clean [] Clean-nil))

all_vertices-Clean : (rest : Text) → Clean rest → Clean (points "g.V()" ++ rest)
unfolding scan span is_space is_quote is_identifier_start is_identifier_part is_digit is_write
    is_one_of same lower
all_vertices-Clean rest h =
    token-Clean b'g' _ identifier (points "g") (points "g") (points ".V()" ++ rest) refl refl
      (dot-Clean _ (name-Clean b'V' [] (points ")" ++ rest) refl refl (close-Clean rest h)))

has_steps-Clean : (es : Entries) (rest : Text) → Clean rest → Clean (has_steps es ++ rest)
unfolding has_steps
has_steps-Clean end rest h = h
has_steps-Clean (entry k v es) rest h =
    let onward = has_steps-Clean es rest h in
    if_lem (λ (t : Text). Clean (t ++ rest)) (same k (points "id"))
      (λ e. has_id-Clean _ (
        subst Clean (sym (append_assoc (g_literal v) (points ")" ++ has_steps es) rest))
          (argument-Clean v (has_steps es ++ rest) onward)))
      (λ e. has-Clean _ (
        subst Clean
          (sym (
            append_assoc (text_literal k)
              (points "," ++ (g_literal v ++ (points ")" ++ has_steps es))) rest
            ∙ ap (λ (t : Text). text_literal k ++ (points "," ++ t))
                (append_assoc (g_literal v) (points ")" ++ has_steps es) rest)))
          (text-Clean k _ refl (comma-Clean _ (argument-Clean v (has_steps es ++ rest) onward)))))

match_query-Clean :
    (label : Json) (steps : Entries) (rest : Text)
    → Clean rest
    → Clean (match_query label steps rest)
unfolding match_query
match_query-Clean label steps rest h =
    all_vertices-Clean _ (has_label-Clean _ (argument-Clean label _ (has_steps-Clean steps rest h)))

edge_steps-Clean :
    (label target : Json) (steps : Entries) (rest : Text)
    → Clean rest
    → Clean (edge_steps label target steps ++ rest)
unfolding edge_steps
edge_steps-Clean label target steps rest h =
    let inner = where_in-Clean _ (
      has_label-Clean _ (
        argument-Clean target _
          (has_steps-Clean steps (points ")" ++ rest) (close-Clean rest h)))) in
    out_edges-Clean _ (subst Clean (sym (simp append_assoc refl)) (argument-Clean label _ inner))

match_query_append :
    (label : Json) (steps : Entries) (rest more : Text)
    → match_query label steps rest ++ more ≡ match_query label steps (rest ++ more)
unfolding match_query
match_query_append label steps rest more = simp append_assoc refl

matches-Clean :
    (label : Json) (steps : Entries) (rest more : Text)
    → Clean (rest ++ more)
    → Clean (match_query label steps rest ++ more)
matches-Clean label steps rest more h =
    subst Clean (sym (match_query_append label steps rest more))
      (match_query-Clean label steps (rest ++ more) h)

-- The queries that match something, as the dry run builds them.
pub data MatchQuery : Type 0 where
  vertex_match source_vertex_match target_vertex_match edge_match : MatchQuery

abbrev pub query_of : MatchQuery → Entries → Result Text
query_of vertex_match = vertex_match_query
query_of source_vertex_match = source_vertex_match_query
query_of target_vertex_match = target_vertex_match_query
query_of edge_match = edge_match_query

-- of a builder that returned
abbrev pub Returned : (Text → Type 0) → Result Text → Type 0
Returned P (err _) = Unit {0}
Returned P (ok q) = P q

pub bind_Returned :
    {A : Type 0} (P : Text → Type 0) (m : Result A) (k : A → Result Text)
    → ((a : A) → Returned P (k a))
    → Returned P (m >>= k)
bind_Returned P (err e) k h = tt
bind_Returned P (ok a) k h = h a

built-Clean :
    (m : MatchQuery) (operation : Entries) (more : Text)
    → Clean more
    → Returned (λ (q : Text). Clean (q ++ more)) (query_of m operation)
unfolding vertex_match_query source_vertex_match_query target_vertex_match_query edge_match_query
built-Clean vertex_match operation more h =
    let P : Text → Type 0 = λ q. Clean (q ++ more) in
    bind_Returned P (item "label" operation) _ (λ label.
      bind_Returned P (item "match" operation) _ (λ matched.
        bind_Returned P (items_of matched) _ (λ steps. matches-Clean label steps [] more h)))
built-Clean source_vertex_match operation more h =
    let P : Text → Type 0 = λ q. Clean (q ++ more) in
    bind_Returned P (item "source_match" operation) _ (λ matched.
      bind_Returned P (items_of matched) _
        (λ steps. matches-Clean (get_either "source_label" "outVLabel" operation) steps [] more h))
built-Clean target_vertex_match operation more h =
    let P : Text → Type 0 = λ q. Clean (q ++ more) in
    bind_Returned P (item "target_match" operation) _ (λ matched.
      bind_Returned P (items_of matched) _
        (λ steps. matches-Clean (get_either "target_label" "inVLabel" operation) steps [] more h))
built-Clean edge_match operation more h =
    let P : Text → Type 0 = λ q. Clean (q ++ more) in
    let source = get_either "source_label" "outVLabel" operation in
    let target = get_either "target_label" "inVLabel" operation in
    bind_Returned P (item "source_match" operation) _ (λ a.
      bind_Returned P (items_of a) _ (λ source_steps.
        bind_Returned P (item "label" operation) _ (λ label.
          bind_Returned P (item "target_match" operation) _ (λ b.
            bind_Returned P (items_of b) _ (λ target_steps.
              matches-Clean source source_steps (edge_steps label target target_steps) more
                (edge_steps-Clean label target target_steps more h))))))

clash : {b : Bool} → b ≡ false → b ≡ true → ⊥
clash e f = cc

lexed_writes :
    (q : Text)
    → HasWriteStep none (lex_gremlin_query q).tokens
    → (analyze_loop none (lex (length q) 0 q).tokens).has_write_method ≡ true
unfolding lex_gremlin_query
lexed_writes q step = HasWriteStep-writes (lex_gremlin_query q).tokens step

Clean-not_unsafe : (q : Text) → Clean q → classify_gremlin_read_safety q ≢ unsafe
Clean-not_unsafe q h e =
    let step = (classify_gremlin_read_safety-HasWriteStep q).0 e in
    clash (h (length q) 0 none) (lexed_writes q step)

-- A query that a dry run reads with, of a vertex, of the source or target of an edge or of an edge,
-- writes nothing, whatever labels, keys and values the operation holds: neither it nor the count
-- of what it matches is classified as unsafe by gremlin_policy.py.
pub match_queries_write_nothing :
    (m : MatchQuery) (operation : Entries) (query : Text)
    → query_of m operation ≡ ok query
    → (classify_gremlin_read_safety query ≢ unsafe)
      × (classify_gremlin_read_safety (query ++ points ".count()") ≢ unsafe)
match_queries_write_nothing m operation query e = (
  Clean-not_unsafe query (
      subst Clean (append-nil query) (
        subst (Returned (λ (q : Text). Clean (q ++ []))) e (built-Clean m operation [] Clean-nil))),
  Clean-not_unsafe (query ++ points ".count()") (
      subst (Returned (λ (q : Text). Clean (q ++ points ".count()"))) e
        (built-Clean m operation (points ".count()") count-Clean)),
)
