-- ===== src/GremlinPolicy/Reads.antt =====
-- What the classification of a query says of its tokens.
use incubator_hugegraph_ai.Prelude.{
  ◌≡◌, refl, subst, inl, inr, Bool, true, false, ◌||◌, Option, none, some, List, [], ◌∷◌, ◌++◌, all,
  all-append, Bool-cases, arith,
}
use incubator_hugegraph_ai.GremlinPolicy.Characters.{Text, is_one_of, lower}
use incubator_hugegraph_ai.GremlinPolicy.Lexer.{
  TokenKind, identifier, number, string, punctuation, unknown, Token, LexResult, lex_gremlin_query,
}
use incubator_hugegraph_ai.GremlinPolicy.Adjacency.{allowed_arg_tokens}
use incubator_hugegraph_ai.GremlinPolicy.Analysis.{
  anonymous_read_methods, is_write, has_marker, Gathered, is_dot, is_call, is_first,
  analyze_identifier, analyze_token, both, analyze_loop, is_irregular, starts_traversal,
  analyze_tokens,
}
use incubator_hugegraph_ai.GremlinPolicy.Decision.{
  safe, is_read, verdict, classify_gremlin_read_safety,
}

-- the token before the one that follows some tokens
abbrev pub before_it : Option Token → List Token → Option Token
before_it previous [] = previous
before_it previous (t ∷ ts) = before_it (some t) ts

-- what has been gathered speaks for no write and no doubt
abbrev Fine : Gathered → Type 0
Fine a = (a.has_write_method ≡ false) × (a.uncertain ≡ false) × (all is_read a.methods ≡ true)

both-Fine : (a b : Gathered) → Fine (both a b) → Fine a × Fine b
unfolding both
both-Fine a b (w, u, m) = (
  (ground arith, ground arith, ground (arith, all-append is_read a.methods b.methods)),
  (ground arith, ground arith, ground (arith, all-append is_read a.methods b.methods)),
)

analyze_loop-Fine :
    (previous : Option Token) (before : List Token) (t : Token) (after : List Token)
    → Fine (analyze_loop previous (before ++ (t ∷ after)))
    → Fine (analyze_token (before_it previous before) t after)
unfolding analyze_loop
analyze_loop-Fine previous [] t after h = (both-Fine _ _ h).0
analyze_loop-Fine previous (s ∷ before) t after h =
    analyze_loop-Fine (some s) before t after ((both-Fine _ _ h).1)

-- What a token of a read may be: a call of a known read step, the source `g` that the query begins
-- with, a constant, a number, a text with no interpolation, or punctuation.
pub data Explained : Option Token → Token → List Token → Type 0 where
  member :
      {p : Option Token} {t : Token} {after : List Token}
      → t.kind ≡ identifier
      → is_dot p ≡ true
      → is_call after ≡ true
      → is_read (lower t.value) ≡ true
      → is_write (lower t.value) ≡ false
      → Explained p t after
  anonymous :
      {p : Option Token} {t : Token} {after : List Token}
      → t.kind ≡ identifier
      → is_call after ≡ true
      → is_one_of (lower t.value) anonymous_read_methods ≡ true
      → Explained p t after
  graph_source :
      {p : Option Token} {t : Token} {after : List Token}
      → t.kind ≡ identifier
      → is_first p ≡ true
      → is_one_of (lower t.value) ("g" ∷ []) ≡ true
      → Explained p t after
  constant :
      {p : Option Token} {t : Token} {after : List Token}
      → t.kind ≡ identifier
      → is_one_of (lower t.value) allowed_arg_tokens ≡ true
      → Explained p t after
  plain_number :
      {p : Option Token} {t : Token} {after : List Token} → t.kind ≡ number → Explained p t after
  plain_text :
      {p : Option Token} {t : Token} {after : List Token}
      → t.kind ≡ string
      → has_marker t.value ≡ false
      → Explained p t after
  mark :
      {p : Option Token} {t : Token} {after : List Token}
      → t.kind ≡ punctuation
      → Explained p t after

analyze_identifier-Explained :
    (p : Option Token) (t : Token) (after : List Token)
    → t.kind ≡ identifier
    → (d c : Bool) → is_dot p ≡ d
    → is_call after ≡ c
    → Fine (analyze_identifier p (lower t.value) after)
    → Explained p t after
unfolding analyze_identifier all
analyze_identifier-Explained p t after k true true ed ec (w, u, m) =
    member k ed ec (ground (arith, ed, ec)) (ground (arith, ed, ec))
analyze_identifier-Explained p t after k true false ed ec (w, u, m) =
    absurd (ground (arith, ed, ec))
analyze_identifier-Explained p t after k false true ed ec (w, u, m) =
    anonymous k ec (ground (arith, ed, ec))
analyze_identifier-Explained p t after k false false ed ec (w, u, m) =
    elim (Bool-cases (is_one_of (lower t.value) allowed_arg_tokens)) [
      | inl e ↦ constant k e
      | inr e ↦ graph_source k (ground (arith, ed, ec, e)) (ground (arith, ed, ec, e))
    ]

analyze_token-Explained :
    (p : Option Token) (t : Token) (after : List Token)
    → (k : TokenKind) → t.kind ≡ k
    → Fine (analyze_token p t after)
    → Explained p t after
unfolding analyze_token
analyze_token-Explained p t after identifier k h =
    analyze_identifier-Explained p t after k _ _ refl refl (rw k at h)
analyze_token-Explained p t after number k h = plain_number k
analyze_token-Explained p t after string k (w, u, m) = plain_text k (ground (arith, k))
analyze_token-Explained p t after punctuation k h = mark k
analyze_token-Explained p t after unknown k (w, u, m) = absurd (ground (arith, k))

verdict_safe : (a : Gathered) → verdict a ≡ safe → Fine a
verdict_safe a h = (ground arith, ground arith, ground arith)

classify-safe :
    (query : Text)
    → classify_gremlin_read_safety query ≡ safe
    → verdict (analyze_tokens (lex_gremlin_query query)) ≡ safe
unfolding classify_gremlin_read_safety
classify-safe query h = ground arith

neither : (a b : Bool) → (a || b) ≡ false → (a ≡ false) × (b ≡ false)
neither a b h = (ground arith, ground arith)

analyze_tokens-Fine :
    (lexed : LexResult)
    → Fine (analyze_tokens lexed)
    → (is_irregular lexed ≡ false) × Fine (analyze_loop none lexed.tokens)
unfolding analyze_tokens
analyze_tokens-Fine lexed (w, u, m) =
    let (irregular, loop) = neither (is_irregular lexed) _ u in (irregular, (w, loop, m))

regular :
    (lexed : LexResult)
    → is_irregular lexed ≡ false
    → (lexed.valid ≡ true) × (starts_traversal lexed.tokens ≡ true)
unfolding is_irregular
regular lexed h = (ground arith, ground arith)

-- A query that is classified as safe was scanned to its end, begins with `g.V(` or `g.E(`, and each
-- of its tokens, whatever stands before and after it, is explained: it is a member call of a known
-- read step that is no write step, an anonymous call of outV, inV, bothV or otherV, the source `g`
-- at the beginning, one of true, false and null, a number, a string literal without an
-- interpolation marker, or punctuation.
pub classify_gremlin_read_safety-Explained :
    (query : Text) (before : List Token) (t : Token) (after : List Token)
    → classify_gremlin_read_safety query ≡ safe
    → (lex_gremlin_query query).tokens ≡ before ++ (t ∷ after)
    → Explained (before_it none before) t after
      × ((lex_gremlin_query query).valid ≡ true)
      × (starts_traversal (lex_gremlin_query query).tokens ≡ true)
classify_gremlin_read_safety-Explained query before t after h e =
    let fine = verdict_safe _ (classify-safe query h) in
    let (irregular, loop) = analyze_tokens-Fine (lex_gremlin_query query) fine in
    let here =
      analyze_loop-Fine none before t after
        (subst (λ (ts : List Token). Fine (analyze_loop none ts)) e loop) in
    let (valid, starts) = regular (lex_gremlin_query query) irregular in
    (analyze_token-Explained (before_it none before) t after t.kind refl here, valid, starts)
