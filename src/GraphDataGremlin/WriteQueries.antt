-- ===== src/GraphDataGremlin/WriteQueries.antt =====
-- Every query of `_write_query` is seen to write.
use incubator_hugegraph_ai.Prelude.{
  if_lem, ℕ, zero, suc, ◌+◌, ◌≤◌, ◌≡◌, refl, sym, subst, Bool, true, false, ◌||◌, Option, none, [],
  ◌∷◌, ◌++◌, if◌then◌else◌, append_assoc, length, Result, ok, err, ◌>>=◌, arith,
}
use incubator_hugegraph_ai.GremlinPolicy.Characters.{
  Text, points, same, is_space, is_quote, is_digit, is_identifier_start, is_identifier_part,
  is_safe_punctuation, lower, is_one_of,
}
use incubator_hugegraph_ai.GremlinPolicy.Lexer.{
  TokenKind, identifier, Token, blank, lexeme, span, scan, combine, lex, lex_gremlin_query,
}
use incubator_hugegraph_ai.GremlinPolicy.Tokens.{shorter, found-Fits}
use incubator_hugegraph_ai.GremlinPolicy.Analysis.{is_write, both, analyze_loop}
use incubator_hugegraph_ai.GremlinPolicy.EmptyMap.{mark}
use incubator_hugegraph_ai.GremlinPolicy.Decision.{unsafe, classify_gremlin_read_safety}
use incubator_hugegraph_ai.GremlinPolicy.Writes.{
  analyze_loop-HasWriteStep, analyze_loop-Writes, classify_gremlin_read_safety-HasWriteStep,
}
use incubator_hugegraph_ai.GraphDataGremlin.Literal.{
  Json, Entries, escape_groovy_single_quoted, g_literal,
}
use incubator_hugegraph_ai.GraphDataGremlin.Queries.{
  item, get, properties_of, property_steps, id_step, is_op, keeps_edges, create_vertex_query,
  create_edge_query, delete_target_query, delete_vertex_query, delete_edge_query, write_query,
}
use incubator_hugegraph_ai.GraphDataGremlin.Clean.{Harmless}
use incubator_hugegraph_ai.GraphDataGremlin.Passing.{
  dot_passes, close_passes, argument_passes, text_literal-Passes, name_passes,
}
use incubator_hugegraph_ai.GraphDataGremlin.Injection.{Returned, bind_Returned}

-- a write step is found from here on, with enough fuel
abbrev Dirty : Text → Type 0
Dirty q =
    (fuel i : ℕ) (p : Option Token)
    → length q ≤ fuel
    → (analyze_loop p (lex fuel i q).tokens).has_write_method ≡ true

or_true : (a : Bool) {b : Bool} → b ≡ true → (a || b) ≡ true
or_true true e = refl
or_true false e = e

token-Dirty :
    (c : ℕ) (cs : Text) (kind : TokenKind) (taken shown rest : Text)
    → scan c cs ≡ lexeme kind taken shown rest
    → Harmless kind taken
    → Dirty rest
    → Dirty (c ∷ cs)
unfolding lex analyze_loop combine both
token-Dirty c cs kind taken shown rest e h after zero i p l = absurd (omega arith)
token-Dirty c cs kind taken shown rest e h after (suc fuel) i p l =
    let (f, g, k) = found-Fits c cs e in
    rw e (or_true _ (after fuel _ _ (shorter taken rest cs c fuel f k l)))

blank-Dirty :
    (c : ℕ) (cs taken shown rest : Text)
    → scan c cs ≡ blank taken shown rest
    → Dirty rest
    → Dirty (c ∷ cs)
unfolding lex analyze_loop combine
blank-Dirty c cs taken shown rest e after zero i p l = absurd (omega arith)
blank-Dirty c cs taken shown rest e after (suc fuel) i p l =
    let (f, g, k, x) = found-Fits c cs e in
    rw e (after fuel _ p (shorter taken rest cs c fuel f k l))

-- a member that is a write step
member-Dirty :
    (c : ℕ) (cs taken shown rest : Text)
    → scan c cs ≡ lexeme identifier taken shown rest
    → is_write (lower taken) ≡ true
    → Dirty (b'.' ∷ c ∷ cs)
unfolding lex analyze_loop combine both scan is_space is_quote is_identifier_start is_digit
    is_safe_punctuation is_one_of same
member-Dirty c cs taken shown rest e w zero i p l = absurd (omega arith)
member-Dirty c cs taken shown rest e w (suc zero) i p l = absurd (omega arith)
member-Dirty c cs taken shown rest e w (suc (suc fuel)) i p l =
    let name : Token = record {
      kind = identifier;
      value = taken;
      start = i + 1;
      finish = i + 1 + length taken;
    } in
    rw e (
      analyze_loop-Writes p (mark "." i ∷ []) name (lex fuel (i + 1 + length taken) rest).tokens
        (record { is_name = refl; named = w; used = refl }))

add_vertex-Dirty : (rest : Text) → Dirty (points "g.addV(" ++ rest)
unfolding scan span is_space is_quote is_identifier_start is_identifier_part is_digit
    is_safe_punctuation is_write is_one_of same lower
add_vertex-Dirty rest =
    token-Dirty b'g' _ identifier (points "g") (points "g") (points ".addV(" ++ rest) refl refl (
      member-Dirty b'a' (points "ddV(" ++ rest) (points "addV") (points "addV") (b'(' ∷ rest) refl
        refl)

add_edge-Dirty : (rest : Text) → Dirty (points ".addE(" ++ rest)
unfolding scan span is_space is_quote is_identifier_start is_identifier_part is_digit
    is_safe_punctuation is_write is_one_of same lower
add_edge-Dirty rest =
    member-Dirty b'a' (points "ddE(" ++ rest) (points "addE") (points "addE") (b'(' ∷ rest) refl
      refl

drop-Dirty : Dirty (points ".drop()")
unfolding scan span is_space is_quote is_identifier_start is_identifier_part is_digit
    is_safe_punctuation is_write is_one_of same lower
drop-Dirty =
    member-Dirty b'd' (points "rop()") (points "drop") (points "drop") (points "()") refl refl

close-Dirty : (rest : Text) → Dirty rest → Dirty (b')' ∷ rest)
close-Dirty = close_passes Dirty token-Dirty blank-Dirty

dot-Dirty : (rest : Text) → Dirty rest → Dirty (b'.' ∷ rest)
dot-Dirty = dot_passes Dirty token-Dirty blank-Dirty

argument-Dirty : (v : Json) (rest : Text) → Dirty rest → Dirty (g_literal v ++ (points ")" ++ rest))
argument-Dirty = argument_passes Dirty token-Dirty blank-Dirty

name-Dirty :
    (c : ℕ) (cs rest : Text)
    → scan c (cs ++ (b'(' ∷ rest)) ≡ lexeme identifier (c ∷ cs) (c ∷ cs) (b'(' ∷ rest)
    → is_write (lower (c ∷ cs)) ≡ false
    → Dirty rest
    → Dirty (c ∷ (cs ++ (b'(' ∷ rest)))
name-Dirty = name_passes Dirty token-Dirty blank-Dirty

vertices-Dirty : (rest : Text) → Dirty rest → Dirty (points "g.V(" ++ rest)
unfolding scan span is_space is_quote is_identifier_start is_identifier_part is_digit
    is_safe_punctuation is_write is_one_of same lower
vertices-Dirty rest h =
    token-Dirty b'g' _ identifier (points "g") (points "g") (points ".V(" ++ rest) refl refl
      (dot-Dirty _ (name-Dirty b'V' [] rest refl refl h))

edges-Dirty : (rest : Text) → Dirty rest → Dirty (points "g.E(" ++ rest)
unfolding scan span is_space is_quote is_identifier_start is_identifier_part is_digit
    is_safe_punctuation is_write is_one_of same lower
edges-Dirty rest h =
    token-Dirty b'g' _ identifier (points "g") (points "g") (points ".E(" ++ rest) refl refl
      (dot-Dirty _ (name-Dirty b'E' [] rest refl refl h))

keep_edges-Dirty : (rest : Text) → Dirty rest → Dirty (points ".not(bothE())" ++ rest)
unfolding scan span is_space is_quote is_identifier_start is_identifier_part is_digit
    is_safe_punctuation is_write is_one_of same lower
keep_edges-Dirty rest h = dot-Dirty _ (
    name-Dirty b'n' (points "ot") (points "bothE())" ++ rest) refl refl (
      name-Dirty b'b' (points "othE") (points "))" ++ rest) refl refl
        (close-Dirty _ (close-Dirty _ h))))

as_source-Dirty : (rest : Text) → Dirty rest → Dirty (points ".as('s').V(" ++ rest)
unfolding scan span is_space is_quote is_identifier_start is_identifier_part is_digit
    is_safe_punctuation is_write is_one_of same lower escape_groovy_single_quoted
as_source-Dirty rest h = dot-Dirty _ (
    name-Dirty b'a' (points "s") (points "'s').V(" ++ rest) refl refl (
      text_literal-Passes Dirty token-Dirty blank-Dirty (points "s") (points ").V(" ++ rest) refl
        (close-Dirty _ (dot-Dirty _ (name-Dirty b'V' [] rest refl refl h)))))

create_vertex-Dirty : (operation : Entries) → Returned Dirty (create_vertex_query operation)
unfolding create_vertex_query
create_vertex-Dirty operation = bind_Returned Dirty (item "label" operation) _ (λ label.
    bind_Returned Dirty (properties_of operation) _ (λ properties. add_vertex-Dirty (
      g_literal label
      ++ (points ")" ++ (id_step (get "id" operation) ++ property_steps properties)))))

create_edge-Dirty : (operation : Entries) → Returned Dirty (create_edge_query operation)
unfolding create_edge_query
create_edge-Dirty operation = bind_Returned Dirty (item "source_id" operation) _ (λ source.
    bind_Returned Dirty (item "target_id" operation) _ (λ target.
      bind_Returned Dirty (item "label" operation) _ (λ label.
        bind_Returned Dirty (properties_of operation) _ (λ properties. vertices-Dirty _ (
          argument-Dirty source _ (
            as_source-Dirty _ (
              argument-Dirty target _ (
                add_edge-Dirty
                  (g_literal label ++ (points ").from('s')" ++ property_steps properties))))))))))

-- a target and what follows it
delete_target-Dirty :
    (operation : Entries) (more : Text)
    → Dirty more
    → Returned (λ (q : Text). Dirty (q ++ more)) (delete_target_query operation)
unfolding delete_target_query
delete_target-Dirty operation more h =
    let P : Text → Type 0 = λ q. Dirty (q ++ more) in
    bind_Returned P (item "target_id" operation) _ (λ target.
      if_lem (Returned P) (is_op operation "delete_vertex")
        (λ e. vertices-Dirty _ (
          subst Dirty (sym (append_assoc (g_literal target) (points ")") more))
            (argument-Dirty target more h)))
        (λ a.
          if_lem (Returned P) (is_op operation "delete_edge")
            (λ e. edges-Dirty _ (
              subst Dirty (sym (append_assoc (g_literal target) (points ")") more))
                (argument-Dirty target more h)))
            (λ b. tt)))

-- a builder that goes on with the query of another
followed :
    (P : Text → Type 0) (r : Result Text) (more : Text)
    → Returned (λ (q : Text). P (q ++ more)) r
    → Returned P (r >>= λ q. ok (q ++ more))
followed P (err e) more h = tt
followed P (ok q) more h = h

kept-Dirty :
    (keeps : Bool) → Dirty ((if keeps then points ".not(bothE())" else []) ++ points ".drop()")
kept-Dirty true = keep_edges-Dirty (points ".drop()") drop-Dirty
kept-Dirty false = drop-Dirty

write_query-Dirty : (operation : Entries) → Returned Dirty (write_query operation)
unfolding write_query delete_vertex_query delete_edge_query
write_query-Dirty operation =
    let R = Returned Dirty in
    let tail =
      (if keeps_edges (get "cascade" operation) then points ".not(bothE())" else [])
      ++ points ".drop()" in
    if_lem R (is_op operation "create_vertex") (λ e. create_vertex-Dirty operation)
      (λ a.
        if_lem R (is_op operation "create_edge") (λ e. create_edge-Dirty operation)
          (λ b.
            if_lem R (is_op operation "delete_vertex")
              (λ e. followed Dirty (delete_target_query operation) tail (
                delete_target-Dirty operation tail
                  (kept-Dirty (keeps_edges (get "cascade" operation)))))
              (λ c.
                if_lem R (is_op operation "delete_edge")
                  (λ e.
                    followed Dirty (delete_target_query operation) (points ".drop()")
                      (delete_target-Dirty operation (points ".drop()") drop-Dirty))
                  (λ d. tt))))

Dirty-unsafe : (q : Text) → Dirty q → classify_gremlin_read_safety q ≡ unsafe
unfolding lex_gremlin_query
Dirty-unsafe q h =
    (classify_gremlin_read_safety-HasWriteStep q).1 (
      analyze_loop-HasWriteStep none (lex (length q) 0 q).tokens
        (h (length q) 0 none (omega arith)))

-- Every query that the write path builds, for the creation of a vertex or an edge or the deletion
-- of one, is classified as unsafe, so the read tool never runs it, whatever values it holds.
pub write_queries_are_unsafe :
    (operation : Entries) (query : Text)
    → write_query operation ≡ ok query
    → classify_gremlin_read_safety query ≡ unsafe
write_queries_are_unsafe operation query e =
    Dirty-unsafe query (subst (Returned Dirty) e (write_query-Dirty operation))
