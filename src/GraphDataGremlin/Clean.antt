-- ===== src/GraphDataGremlin/Clean.antt =====
-- Parts of a query that name no write step, whatever follows them.
use Prim.Native.Nat.{◌/◌, ◌%◌}
use incubator_hugegraph_ai.Prelude.{
  ℕ, zero, suc, ◌+◌, ◌≡◌, refl, ◌∙◌, Bool, true, false, ◌&&◌, ◌||◌, Option, List, [], ◌∷◌, ◌++◌,
  ◌==◌, ltb, all, all-append, length, Bool-cases, inl, inr, arith,
}
use incubator_hugegraph_ai.GremlinPolicy.Characters.{
  Text, points, is_space, is_quote, is_digit, is_identifier_start, is_identifier_part, starts,
  lower,
}
use incubator_hugegraph_ai.GremlinPolicy.Lexer.{
  TokenKind, identifier, number, string, punctuation, unknown, Token, blank, lexeme, span,
  number_rest, word, scan, combine, lex,
}
use incubator_hugegraph_ai.GremlinPolicy.Analysis.{
  is_write, analyze_identifier, analyze_token, both, analyze_loop,
}
use incubator_hugegraph_ai.GraphDataGremlin.Literal.{digits_on}
use incubator_hugegraph_ai.GraphDataGremlin.Escaping.{Unquoted}

-- no write step is found from here on, wherever the text stands and whatever stands before it
abbrev pub Clean : Text → Type 0
Clean q =
    (fuel i : ℕ) (p : Option Token)
    → (analyze_loop p (lex fuel i q).tokens).has_write_method ≡ false

-- a token that names no write step
abbrev pub Harmless : TokenKind → Text → Type 0
Harmless identifier value = is_write (lower value) ≡ false
Harmless _ value = Unit {0}

identifier_harmless :
    (p : Option Token) (l : Text) (after : List Token)
    → is_write l ≡ false
    → (analyze_identifier p l after).has_write_method ≡ false
unfolding analyze_identifier
identifier_harmless p l after h = ground arith

pub token-Harmless :
    (kind : TokenKind) (value : Text) (i j : ℕ) (p : Option Token) (after : List Token)
    → Harmless kind value
    → (analyze_token p
        (record { kind = kind; value = value; start = i; finish = j })
        after).has_write_method
      ≡ false
unfolding analyze_token
token-Harmless identifier value i j p after h = identifier_harmless p (lower value) after h
token-Harmless number value i j p after h = refl
token-Harmless string value i j p after h = refl
token-Harmless punctuation value i j p after h = refl
token-Harmless unknown value i j p after h = refl

neither_writes : {a b : Bool} → a ≡ false → b ≡ false → (a || b) ≡ false
neither_writes e f = ground arith

pub Clean-nil : Clean []
unfolding lex analyze_loop
Clean-nil fuel i p = refl

pub token-Clean :
    (c : ℕ) (cs : Text) (kind : TokenKind) (taken shown rest : Text)
    → scan c cs ≡ lexeme kind taken shown rest
    → Harmless kind taken
    → Clean rest
    → Clean (c ∷ cs)
unfolding lex analyze_loop combine both
token-Clean c cs kind taken shown rest e h after zero i p = refl
token-Clean c cs kind taken shown rest e h after (suc fuel) i p =
    rw e (neither_writes (token-Harmless kind taken i (i + length taken) p _ h) (after fuel _ _))

pub blank-Clean :
    (c : ℕ) (cs : Text) (taken shown rest : Text)
    → scan c cs ≡ blank taken shown rest
    → Clean rest
    → Clean (c ∷ cs)
unfolding lex analyze_loop combine
blank-Clean c cs taken shown rest e after zero i p = refl
blank-Clean c cs taken shown rest e after (suc fuel) i p = rw e (after fuel _ p)

-- a text after which a literal ends
abbrev ends_literal : ℕ → Bool
ends_literal c = (c == b',') || (c == b')') || (c == b']') || (c == b':')

abbrev pub Follows : Text → Type 0
Follows [] = ⊥
Follows (c ∷ _) = ends_literal c ≡ true

pub Follows-Unquoted : (rest : Text) → Follows rest → Unquoted rest
unfolding starts
Follows-Unquoted [] h = refl
Follows-Unquoted (c ∷ cs) h = ground arith

stop_part : (c : ℕ) → ends_literal c ≡ true → is_identifier_part c ≡ false
unfolding is_identifier_part is_identifier_start is_digit
stop_part c h = ground arith

stop_digit : (c : ℕ) → ends_literal c ≡ true → (is_digit c || ((c == b'.') && true)) ≡ false
unfolding is_digit
stop_digit c h = ground arith

digit_is :
    (d : ℕ)
    → is_digit d ≡ true
    → ((d == b'.') ≡ false)
      × ((d == b'/') ≡ false)
      × (is_space d ≡ false)
      × (is_quote d ≡ false)
      × (is_identifier_start d ≡ false)
unfolding is_digit is_space is_quote is_identifier_start
digit_is d h = (ground arith, ground arith, ground arith, ground arith, ground arith)

span_stops : (rest : Text) → Follows rest → span is_identifier_part rest ≡ ([], rest)
unfolding span
span_stops [] h = refl
span_stops (c ∷ cs) h = rw (stop_part c h) refl

pub word_true :
    (rest : Text)
    → Follows rest
    → scan b't' (points "rue" ++ rest) ≡ lexeme identifier (points "true") (points "true") rest
unfolding scan span is_space is_quote is_identifier_part is_identifier_start
word_true rest f = rw (span_stops rest f) refl

pub word_false :
    (rest : Text)
    → Follows rest
    → scan b'f' (points "alse" ++ rest) ≡ lexeme identifier (points "false") (points "false") rest
unfolding scan span is_space is_quote is_identifier_part is_identifier_start
word_false rest f = rw (span_stops rest f) refl

pub word_null :
    (rest : Text)
    → Follows rest
    → scan b'n' (points "ull" ++ rest) ≡ lexeme identifier (points "null") (points "null") rest
unfolding scan span is_space is_quote is_identifier_part is_identifier_start
word_null rest f = rw (span_stops rest f) refl

number_stops : (rest : Text) → Follows rest → number_rest false rest ≡ ([], rest)
unfolding number_rest
number_stops [] h = refl
number_stops (c ∷ cs) h = rw (stop_digit c h) refl

pub number_all :
    (ds rest : Text)
    → all is_digit ds ≡ true
    → Follows rest
    → number_rest false (ds ++ rest) ≡ (ds, rest)
unfolding number_rest all
number_all [] rest h f = number_stops rest f
number_all (d ∷ ds) rest h f =
    let e : is_digit d ≡ true = ground arith in
    let rest_digits : all is_digit ds ≡ true = ground arith in
    rw (digit_is d e).0 (rw e (rw (number_all ds rest rest_digits f) refl))

pub scan_digit :
    (d : ℕ) (cs : Text) → is_digit d ≡ true → scan d cs ≡ word number d (number_rest false cs)
unfolding scan
scan_digit d cs h =
    let (dot, slash, space, quote, start) = digit_is d h in
    rw space (rw slash (rw quote (rw start (rw h refl))))

pub digits_on-digits : (fuel n : ℕ) → all is_digit (digits_on fuel n) ≡ true
unfolding digits_on all is_digit
digits_on-digits zero n = refl
digits_on-digits (suc fuel) n = elim (Bool-cases (ltb n 10)) [
  | inl e ↦ rw e (ground arith)
  | inr e ↦ rw e (
      all-append is_digit (digits_on fuel (n / 10)) ((b'0' + n % 10) ∷ [])
      ∙ ground (arith, digits_on-digits fuel (n / 10)))
]
