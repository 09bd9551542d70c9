-- ===== src/GremlinPolicy/EmptyMap.antt =====
-- What `_has_invalid_token_adjacency` does at the empty map, `[:]`.
use incubator_hugegraph_ai.Prelude.{
  ℕ, ◌+◌, ◌≡◌, refl, sym, ap, ◌∙◌, if◌then◌else◌, String, Bool, true, false, List, [], ◌∷◌, ◌++◌,
}
use incubator_hugegraph_ai.GremlinPolicy.Characters.{Text, points, is_one_of, same}
use incubator_hugegraph_ai.GremlinPolicy.Lexer.{Token, punctuation}
use incubator_hugegraph_ai.GremlinPolicy.Adjacency.{
  bad_neighbours, adjacency_round, bad_comma, colon, bad_minus, adjacency_stack, adjacency_loop,
  has_invalid_token_adjacency,
}

abbrev pub mark : String → ℕ → Token
mark value i = record { kind = punctuation; value = points value; start = i; finish = i + 1 }

-- `[:]` and what follows it
abbrev pub empty_map : ℕ → List Token → List Token
empty_map i after = mark "[" i ∷ mark ":" (i + 1) ∷ mark "]" (i + 2) ∷ after

at_empty_map :
    (p : Token) (stack : List Text) (i : ℕ) (after : List Token)
    → adjacency_loop p stack (empty_map i after)
      ≡ (if bad_neighbours p (mark "[" i) then true else false)
unfolding adjacency_loop adjacency_round colon adjacency_stack is_one_of same bad_neighbours
at_empty_map p stack i after = refl

next_only :
    (p t s : Token) (stack : List Text) (xs ys : List Token) (b : Bool)
    → adjacency_round p stack t (s ∷ xs) b ≡ adjacency_round p stack t (s ∷ ys) b
unfolding adjacency_round bad_comma bad_minus colon
next_only p t s stack xs ys b = refl

same_rest :
    (p t s : Token) (stack : List Text) (xs ys : List Token)
    → adjacency_loop t (adjacency_stack t stack) (s ∷ xs)
      ≡ adjacency_loop t (adjacency_stack t stack) (s ∷ ys)
    → adjacency_loop p stack (t ∷ s ∷ xs) ≡ adjacency_loop p stack (t ∷ s ∷ ys)
unfolding adjacency_loop
same_rest p t s stack xs ys e =
    next_only p t s stack xs ys _ ∙ ap (λ (b : Bool). adjacency_round p stack t (s ∷ ys) b) e

rest_unread :
    (p : Token) (stack : List Text) (before : List Token) (i : ℕ) (xs ys : List Token)
    → adjacency_loop p stack (before ++ empty_map i xs)
      ≡ adjacency_loop p stack (before ++ empty_map i ys)
rest_unread p stack [] i xs ys = at_empty_map p stack i xs ∙ sym (at_empty_map p stack i ys)
rest_unread p stack (t ∷ []) i xs ys =
    same_rest p t (mark "[" i) stack _ _ (rest_unread t (adjacency_stack t stack) [] i xs ys)
rest_unread p stack (t ∷ s ∷ before) i xs ys =
    same_rest p t s stack _ _ (rest_unread t (adjacency_stack t stack) (s ∷ before) i xs ys)

-- After the first empty map `[:]` that stands among the tokens and not at their beginning, the
-- check of adjacent tokens reads nothing: whatever tokens follow, it accepts them or rejects them
-- with what stands before the map, as if the query ended at the map.
pub has_invalid_token_adjacency-empty_map :
    (first : Token) (before : List Token) (i : ℕ) (after : List Token)
    → has_invalid_token_adjacency (first ∷ before ++ empty_map i after)
      ≡ has_invalid_token_adjacency (first ∷ before ++ empty_map i [])
unfolding has_invalid_token_adjacency
has_invalid_token_adjacency-empty_map first before i after = rest_unread first [] before i after []
