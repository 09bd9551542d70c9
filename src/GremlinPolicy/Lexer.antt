-- ===== src/GremlinPolicy/Lexer.antt =====
-- `_consume_quoted` and `_lex_gremlin_query` of gremlin_policy.py. The scanner walks the rest of the
-- query; `index` is where that rest begins.
use incubator_hugegraph_ai.Prelude.{
  ℕ, zero, suc, ◌+◌, Bool, true, false, not, ◌&&◌, ◌||◌, Option, none, some, List, [], ◌∷◌, ◌++◌,
  ◌==◌, length, if◌then◌else◌,
}
use incubator_hugegraph_ai.GremlinPolicy.Characters.{
  Text, points, is_space, is_digit, is_identifier_start, is_identifier_part, is_newline, is_quote,
  is_safe_punctuation, masked, starts, occurs_in,
}

pub data TokenKind : Type 0 where
  identifier number string punctuation unknown : TokenKind

pub record Token : Type 0 where
  pub kind : TokenKind
  pub value : Text
  pub start : ℕ
  pub finish : ℕ

pub record LexResult : Type 0 where
  pub tokens : List Token
  pub valid : Bool
  pub normalized : Text

-- the longest prefix of characters that pass a test, and the rest
unfoldable pub span : (ℕ → Bool) → Text → Text × Text
span p [] = ([], [])
span p (c ∷ cs) = let (part, rest) = span p cs in if p c then (c ∷ part, rest) else ([], c ∷ cs)

-- the rest of a number: digits, and one dot at most
unfoldable pub number_rest : Bool → Text → Text × Text
number_rest seen_dot [] = ([], [])
number_rest seen_dot (c ∷ cs) =
    let (part, rest) = number_rest (seen_dot || (c == b'.')) cs in
    if is_digit c || ((c == b'.') && not seen_dot) then (c ∷ part, rest) else ([], c ∷ cs)

abbrev pub tail : Text → Text
tail [] = []
tail (_ ∷ cs) = cs

abbrev pub prepend : ℕ → Option (Text × Text) → Option (Text × Text)
prepend c none = none
prepend c (some (body, rest)) = some (c ∷ body, rest)

-- `query.find("*/", …)`: the text before the closer and the text after it
unfoldable pub find_close : Text → Option (Text × Text)
find_close [] = none
find_close (c ∷ cs) =
    let onward = prepend c (find_close cs) in
    if starts (c ∷ cs) (points "*/") then some ([], tail cs) else onward

-- `_consume_quoted` after a single delimiter: the text inside the quotes and the text after them
unfoldable pub quoted_end : ℕ → Text → Option (Text × Text)
quoted_end quote [] = none
quoted_end quote (c ∷ []) = if c == b'\\' then none else if c == quote then some ([], []) else none
quoted_end quote (c ∷ d ∷ ds) =
    let escaped = prepend c (prepend d (quoted_end quote ds)) in
    let onward = prepend c (quoted_end quote (d ∷ ds)) in
    if c == b'\\'
    then escaped
    else if c == quote
    then some ([], d ∷ ds)
    else if is_newline c
    then none
    else onward

-- `_consume_quoted` after a triple delimiter
unfoldable pub triple_end : ℕ → Text → Option (Text × Text)
triple_end quote [] = none
triple_end quote (c ∷ []) = none
triple_end quote (c ∷ d ∷ ds) =
    let escaped = prepend c (prepend d (triple_end quote ds)) in
    let onward = prepend c (triple_end quote (d ∷ ds)) in
    if c == b'\\'
    then escaped
    else if starts (c ∷ d ∷ ds) (quote ∷ quote ∷ quote ∷ [])
    then some ([], tail ds)
    else onward

-- What one round of the scanner's loop does: it passes over what is no code, emits a token, or
-- finds that the query is incomplete. `shown` is what it appends to `normalized`.
pub data Piece : Type 0 where
  blank : (taken shown rest : Text) → Piece
  lexeme : (kind : TokenKind) → (taken shown rest : Text) → Piece
  broken : (shown : Text) → Piece

unfoldable pub line_comment : Text → Piece
unfolding span
line_comment after_slash =
    let (part, rest) = span (λ c. not (is_newline c)) after_slash in
    blank (b'/' ∷ part) (masked (b'/' ∷ part)) rest

-- a block comment, at the text after its opener
abbrev pub commented : Text → Option (Text × Text) → Piece
commented inside none = broken (masked (points "/*" ++ inside))
commented inside (some (body, rest)) =
    let comment = points "/*" ++ (body ++ points "*/") in
    if occurs_in (points "/*") body
    then broken (masked (points "/*" ++ inside))
    else blank comment (masked comment) rest

unfoldable pub block_comment : Text → Piece
unfolding find_close
block_comment after_slash = commented (tail after_slash) (find_close (tail after_slash))

-- a literal between two delimiters
abbrev pub literal : Text → Text → Option (Text × Text) → Piece
literal source delimiter none = broken (masked source)
literal source delimiter (some (body, rest)) =
    lexeme string (delimiter ++ (body ++ delimiter)) (delimiter ++ (masked body ++ delimiter)) rest

unfoldable pub quoted : ℕ → Text → Piece
unfolding quoted_end triple_end
quoted quote cs =
    if starts cs (quote ∷ quote ∷ [])
    then literal (quote ∷ cs) (quote ∷ quote ∷ quote ∷ []) (triple_end quote (tail (tail cs)))
    else literal (quote ∷ cs) (quote ∷ []) (quoted_end quote cs)

abbrev pub word : TokenKind → ℕ → Text × Text → Piece
word kind c (part, rest) = lexeme kind (c ∷ part) (c ∷ part) rest

-- one round of the loop of `_lex_gremlin_query`, at a character and what follows it
unfoldable pub scan : ℕ → Text → Piece
unfolding line_comment block_comment quoted span number_rest
scan c cs =
    if is_space c
    then blank (c ∷ []) (c ∷ []) cs
    else if (c == b'/') && starts cs (points "/")
    then line_comment cs
    else if (c == b'/') && starts cs (points "*")
    then block_comment cs
    else if is_quote c
    then quoted c cs
    else if is_identifier_start c
    then word identifier c (span is_identifier_part cs)
    else if is_digit c
    then word number c (number_rest false cs)
    else if is_safe_punctuation c
    then lexeme punctuation (c ∷ []) (c ∷ []) cs
    else lexeme unknown (c ∷ []) (c ∷ []) cs

-- what a piece makes of the result, where `onward` is the loop after it
unfoldable pub combine : ℕ → (ℕ → Text → LexResult) → Piece → LexResult
combine index onward (blank taken shown rest) =
    let r = onward (index + length taken) rest in record r { normalized = shown ++ r.normalized }
combine index onward (lexeme kind taken shown rest) =
    let r = onward (index + length taken) rest in
    let token : Token = record {
      kind = kind;
      value = taken;
      start = index;
      finish = index + length taken;
    } in
    record r { tokens = token ∷ r.tokens; normalized = shown ++ r.normalized }
combine index onward (broken shown) = record { tokens = []; valid = false; normalized = shown }

-- the loop of `_lex_gremlin_query`; a query that outlasts the fuel would count as incomplete
unfoldable pub lex : ℕ → ℕ → Text → LexResult
unfolding scan combine
lex fuel index [] = record { tokens = []; valid = true; normalized = [] }
lex zero index (c ∷ cs) = record { tokens = []; valid = false; normalized = masked (c ∷ cs) }
lex (suc fuel) index (c ∷ cs) = combine index (lex fuel) (scan c cs)

-- `_lex_gremlin_query`
unfoldable pub lex_gremlin_query : Text → LexResult
unfolding lex
lex_gremlin_query query = lex (length query) 0 query
