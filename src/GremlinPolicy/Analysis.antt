-- ===== src/GremlinPolicy/Analysis.antt =====
-- `_analyze_tokens` of gremlin_policy.py.
use incubator_hugegraph_ai.Prelude.{
  String, Bool, true, false, not, ◌&&◌, ◌||◌, Option, none, some, List, [], ◌∷◌, ◌++◌,
  if◌then◌else◌, any,
}
use incubator_hugegraph_ai.GremlinPolicy.Characters.{
  Text, points, is_one_of, same, lower, occurs_in,
}
use incubator_hugegraph_ai.GremlinPolicy.Lexer.{
  identifier, number, string, punctuation, unknown, Token, LexResult,
}
use incubator_hugegraph_ai.GremlinPolicy.Adjacency.{
  openers, closers, allowed_arg_tokens, is_identifier, has_invalid_token_adjacency,
}

-- `_WRITE_METHODS`
abbrev pub write_methods : List String
write_methods =
    "addv" ∷ "adde" ∷ "drop" ∷ "dropv" ∷ "drope" ∷ "remove" ∷ "clear" ∷ "sideeffect" ∷ "io" ∷ "call"
    ∷ "program" ∷ []

-- `_READ_METHODS`
abbrev pub read_methods : List String
read_methods =
    "v" ∷ "e" ∷ "count" ∷ "limit" ∷ "range" ∷ "has" ∷ "haslabel" ∷ "hasid" ∷ "values" ∷ "valuemap"
    ∷ "id" ∷ "label" ∷ "keys" ∷ "elementmap" ∷ "properties" ∷ "out" ∷ "in" ∷ "both" ∷ "oute" ∷ "ine"
    ∷ "bothe" ∷ "outv" ∷ "inv" ∷ "bothv" ∷ "otherv" ∷ "path" ∷ "order" ∷ "group" ∷ "groupcount"
    ∷ "by" ∷ "dedup" ∷ "sample" ∷ "where" ∷ "not" ∷ "and" ∷ "or" ∷ "as" ∷ "select" ∷ "unfold"
    ∷ "coalesce" ∷ "optional" ∷ "repeat" ∷ "times" ∷ "until" ∷ "emit" ∷ "simplepath" ∷ "cyclicpath"
    ∷ "skip" ∷ "tail" ∷ "tolist" ∷ "toset" ∷ "explain" ∷ "profile" ∷ []

-- `_ANONYMOUS_READ_METHODS`
abbrev pub anonymous_read_methods : List String
anonymous_read_methods = "outv" ∷ "inv" ∷ "bothv" ∷ "otherv" ∷ []

-- `lowered in _WRITE_METHODS or lowered in {"property", "iterate"}`
unfoldable pub is_write : Text → Bool
is_write lowered =
    is_one_of lowered write_methods || is_one_of lowered ("property" ∷ "iterate" ∷ [])

-- `any(marker in text for marker in _DYNAMIC_MARKERS)`
unfoldable pub has_marker : Text → Bool
has_marker text =
    occurs_in (points "${") text || occurs_in (points "#{") text || occurs_in (points "->") text

-- what the loop of `_analyze_tokens` has gathered
pub record Gathered : Type 0 where
  pub methods : List Text
  pub has_write_method : Bool
  pub uncertain : Bool

-- the loop's part for one token
abbrev pub nothing_found : Gathered
nothing_found = record { methods = []; has_write_method = false; uncertain = false }

abbrev pub is_dot : Option Token → Bool
is_dot none = false
is_dot (some t) = is_one_of t.value ("." ∷ [])

abbrev pub is_call : List Token → Bool
is_call [] = false
is_call (t ∷ _) = is_one_of t.value ("(" ∷ [])

abbrev pub is_first : Option Token → Bool
is_first none = true
is_first (some _) = false

-- an identifier of the loop, lowered
unfoldable pub analyze_identifier : Option Token → Text → List Token → Gathered
unfolding is_write
analyze_identifier previous lowered following =
    if is_dot previous
    then (if not (is_call following)
        then record { methods = []; has_write_method = is_write lowered; uncertain = true }
        else record {
          methods = lowered ∷ [];
          has_write_method = is_write lowered;
          uncertain = false;
        })
    else if is_call following
    then (if is_one_of lowered anonymous_read_methods
        then record { methods = lowered ∷ []; has_write_method = false; uncertain = false }
        else if is_write lowered
        then record { methods = []; has_write_method = true; uncertain = false }
        else record { methods = []; has_write_method = false; uncertain = true })
    else if is_first previous && is_one_of lowered ("g" ∷ [])
    then nothing_found
    else if is_one_of lowered allowed_arg_tokens
    then nothing_found
    else record { methods = []; has_write_method = false; uncertain = true }

abbrev operators : List String
operators = ";" ∷ "+" ∷ "=" ∷ "?" ∷ "!" ∷ "*" ∷ "%" ∷ "/" ∷ []

-- one round of the loop, at a token, the one before it and those after it
unfoldable pub analyze_token : Option Token → Token → List Token → Gathered
unfolding analyze_identifier has_marker
analyze_token previous token following = elim token.kind [
  | unknown ↦ record { methods = []; has_write_method = false; uncertain = true }
  | string ↦ record { methods = []; has_write_method = false; uncertain = has_marker token.value }
  | punctuation ↦ record {
    methods = [];
    has_write_method = false;
    uncertain = is_one_of token.value operators;
  }
  | number ↦ nothing_found
  | identifier ↦ analyze_identifier previous (lower token.value) following
]

unfoldable pub both : Gathered → Gathered → Gathered
both a b = record {
  methods = a.methods ++ b.methods;
  has_write_method = a.has_write_method || b.has_write_method;
  uncertain = a.uncertain || b.uncertain;
}

-- the loop over the tokens, less its stack
unfoldable pub analyze_loop : Option Token → List Token → Gathered
unfolding analyze_token both
analyze_loop previous [] = nothing_found
analyze_loop previous (token ∷ following) =
    both (analyze_token previous token following) (analyze_loop (some token) following)

-- `_CLOSE_TO_OPEN`
abbrev pub opener_of : Text → Text
opener_of closer =
    if is_one_of closer (")" ∷ [])
    then points "("
    else if is_one_of closer ("]" ∷ [])
    then points "["
    else points "{"

-- the loop's stack after a token; `none` where a closer does not fit
unfoldable pub bracket_step : List Text → Token → Option (List Text)
bracket_step stack token = elim token.kind [
  | punctuation ↦
      if is_one_of token.value openers
      then some (token.value ∷ stack)
      else if is_one_of token.value closers
      then (elim stack [
        | [] ↦ none
        | top ∷ rest ↦ if same top (opener_of token.value) then some rest else none
      ])
      else some stack
  | identifier ↦ some stack
  | number ↦ some stack
  | string ↦ some stack
  | unknown ↦ some stack
]

-- a closer does not fit, or the stack is not empty at the end
unfoldable pub unbalanced : List Text → List Token → Bool
unfolding bracket_step
unbalanced [] [] = false
unbalanced (_ ∷ _) [] = true
unbalanced stack (t ∷ ts) = elim (bracket_step stack t) [
  | none ↦ true
  | some after ↦ unbalanced after ts
]

-- the read contract: `g.V(` or `g.E(`
unfoldable pub starts_traversal : List Token → Bool
starts_traversal (a ∷ b ∷ c ∷ d ∷ _) =
    is_identifier a.kind
    && same (lower a.value) (points "g")
    && is_one_of b.value ("." ∷ [])
    && is_identifier c.kind
    && is_one_of (lower c.value) ("v" ∷ "e" ∷ [])
    && is_one_of d.value ("(" ∷ [])
starts_traversal (_ ∷ _ ∷ _ ∷ []) = false
starts_traversal (_ ∷ _ ∷ []) = false
starts_traversal (_ ∷ []) = false
starts_traversal [] = false

abbrev names_member : List Token → Bool
names_member [] = false
names_member (t ∷ _) = is_identifier t.kind

-- a dot that no identifier follows
unfoldable pub has_dynamic_member : List Token → Bool
has_dynamic_member [] = false
has_dynamic_member (t ∷ ts) =
    (is_one_of t.value ("." ∷ []) && not (names_member ts)) || has_dynamic_member ts

abbrev is_brace : Token → Bool
is_brace t = is_one_of t.value ("{" ∷ "}" ∷ [])

abbrev pub is_none : List Token → Bool
is_none [] = true
is_none (_ ∷ _) = false

-- the tests of `_analyze_tokens` outside its loop, and those on the loop's stack
unfoldable pub is_irregular : LexResult → Bool
unfolding has_invalid_token_adjacency unbalanced starts_traversal has_dynamic_member has_marker
is_irregular lexed =
    not lexed.valid
    || is_none lexed.tokens
    || has_invalid_token_adjacency lexed.tokens
    || unbalanced [] lexed.tokens
    || not (starts_traversal lexed.tokens)
    || has_dynamic_member lexed.tokens
    || has_marker lexed.normalized
    || any is_brace lexed.tokens

-- `_analyze_tokens`
unfoldable pub analyze_tokens : LexResult → Gathered
unfolding analyze_loop is_irregular
analyze_tokens lexed =
    let found = analyze_loop none lexed.tokens in
    record found { uncertain = is_irregular lexed || found.uncertain }
