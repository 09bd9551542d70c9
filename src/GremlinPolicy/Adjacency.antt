-- ===== src/GremlinPolicy/Adjacency.antt =====
-- `_has_invalid_token_adjacency` of gremlin_policy.py. A stack holds the open delimiters, the last
-- one first.
use incubator_hugegraph_ai.Prelude.{
  String, Bool, true, false, not, ◌&&◌, ◌||◌, List, [], ◌∷◌, if◌then◌else◌,
}
use incubator_hugegraph_ai.GremlinPolicy.Characters.{Text, points, is_one_of, same, lower}
use incubator_hugegraph_ai.GremlinPolicy.Lexer.{TokenKind, identifier, number, string, Token}

abbrev pub is_value_kind : TokenKind → Bool
is_value_kind identifier = true
is_value_kind number = true
is_value_kind string = true
is_value_kind _ = false

abbrev pub is_identifier : TokenKind → Bool
is_identifier identifier = true
is_identifier _ = false

abbrev is_literal : TokenKind → Bool
is_literal number = true
is_literal string = true
is_literal _ = false

abbrev is_number : TokenKind → Bool
is_number number = true
is_number _ = false

abbrev pub closers : List String
closers = ")" ∷ "]" ∷ "}" ∷ []

abbrev pub openers : List String
openers = "(" ∷ "[" ∷ "{" ∷ []

-- `_ALLOWED_ARG_TOKENS`
abbrev pub allowed_arg_tokens : List String
allowed_arg_tokens = "true" ∷ "false" ∷ "null" ∷ []

-- `tokens[index + 1].value in {…}`, or the end of the tokens
abbrev pub next_is : List String → List Token → Bool
next_is values [] = false
next_is values (t ∷ _) = is_one_of t.value values

abbrev pub at_end : List Token → Bool
at_end [] = true
at_end (_ ∷ _) = false

abbrev next_is_number : List Token → Bool
next_is_number [] = false
next_is_number (t ∷ _) = is_number t.kind

abbrev is_nil : List Text → Bool
is_nil [] = true
is_nil (_ ∷ _) = false

abbrev top_is : String → List Text → Bool
top_is value [] = false
top_is value (t ∷ _) = same t (points value)

-- the first two checks of the loop: a completed expression that goes on, and adjacent values
unfoldable pub bad_neighbours : Token → Token → Bool
bad_neighbours previous current =
    (is_one_of previous.value closers && not (is_one_of current.value ("." ∷ "," ∷ closers)))
    || (is_literal previous.kind && (is_value_kind current.kind || is_one_of current.value openers))
    || (is_identifier previous.kind && is_value_kind current.kind)
    || (is_identifier previous.kind
        && is_one_of (lower previous.value) allowed_arg_tokens
        && is_one_of current.value openers)

unfoldable pub bad_comma : Token → List Text → List Token → Bool
bad_comma previous stack following =
    is_nil stack
    || is_one_of previous.value ("(" ∷ "[" ∷ "{" ∷ "," ∷ ":" ∷ [])
    || at_end following
    || next_is ("," ∷ ":" ∷ closers) following

-- What the checks of a map colon do: go on to the next checks, or return.
pub data Colon : Type 0 where
  go_on : Colon
  return : Bool → Colon

unfoldable pub colon : Token → List Text → List Token → Colon
colon previous stack following =
    if not (top_is "[" stack)
    then return true
    else if is_one_of previous.value ("," ∷ ":" ∷ "(" ∷ "{" ∷ [])
    then return true
    else if at_end following
    then return true
    else if is_one_of previous.value ("[" ∷ [])
    then return (not (next_is ("]" ∷ []) following))
    else if next_is ("," ∷ ":" ∷ closers) following
    then return true
    else go_on

unfoldable pub bad_minus : List Token → Bool
bad_minus following = at_end following || not (next_is_number following)

-- the stack after a token of the loop
unfoldable pub adjacency_stack : Token → List Text → List Text
adjacency_stack current stack =
    if is_one_of current.value openers
    then current.value ∷ stack
    else if is_one_of current.value closers
    then (elim stack [ [] ↦ [] | _ ∷ rest ↦ rest ])
    else stack

-- one round of the loop, at a token, the one before it and those after it; `onward` is what the
-- rounds after it return
unfoldable pub adjacency_round : Token → List Text → Token → List Token → Bool → Bool
unfolding bad_neighbours bad_comma colon bad_minus
adjacency_round previous stack current following onward =
    let minus =
      if is_one_of current.value ("-" ∷ []) && bad_minus following then true else onward in
    if bad_neighbours previous current
    then true
    else if is_one_of current.value ("," ∷ []) && bad_comma previous stack following
    then true
    else if is_one_of current.value (":" ∷ [])
    then (elim (colon previous stack following) [ return b ↦ b | go_on ↦ minus ])
    else minus

unfoldable pub adjacency_loop : Token → List Text → List Token → Bool
unfolding adjacency_round adjacency_stack
adjacency_loop previous stack [] = false
adjacency_loop previous stack (current ∷ following) =
    adjacency_round previous stack current following
      (adjacency_loop current (adjacency_stack current stack) following)

unfoldable pub has_invalid_token_adjacency : List Token → Bool
unfolding adjacency_loop
has_invalid_token_adjacency [] = false
has_invalid_token_adjacency (t ∷ ts) = adjacency_loop t [] ts
