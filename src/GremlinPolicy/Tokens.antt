-- ===== src/GremlinPolicy/Tokens.antt =====
-- The scanner reaches the end of every query, and its tokens are parts of the query.
use incubator_hugegraph_ai.Prelude.{
  ℕ, zero, suc, ◌+◌, ◌<◌, ◌≤◌, ◌≡◌, refl, sym, ap, ◌∙◌, subst, Bool, true, false, List, [], ◌∷◌,
  ◌++◌, length, append_assoc, arith,
}
use incubator_hugegraph_ai.GremlinPolicy.Characters.{Text}
use incubator_hugegraph_ai.GremlinPolicy.Lexer.{
  TokenKind, Token, LexResult, Piece, blank, lexeme, broken, scan, combine, lex, lex_gremlin_query,
}
use incubator_hugegraph_ai.GremlinPolicy.Scanning.{Passed, Fits, scan-Fits, length_append}

abbrev token_at : TokenKind → Text → ℕ → Token
token_at kind taken index = record {
  kind = kind;
  value = taken;
  start = index;
  finish = index + length taken;
}

-- The rounds of the loop from an offset: no step count bounds them.
pub data Scanned : ℕ → Text → LexResult → Type 0 where
  finished :
      {i : ℕ} {r : LexResult}
      → r ≡ record { tokens = []; valid = true; normalized = [] }
      → Scanned i [] r
  skips :
      {i : ℕ} {c : ℕ} {cs taken shown rest : Text} {r s : LexResult}
      → scan c cs ≡ blank taken shown rest
      → Scanned (i + length taken) rest r
      → s ≡ record r { normalized = shown ++ r.normalized }
      → Scanned i (c ∷ cs) s
  emits :
      {i : ℕ} {c : ℕ} {cs : Text} {kind : TokenKind} {taken shown rest : Text} {r s : LexResult}
      → scan c cs ≡ lexeme kind taken shown rest
      → Scanned (i + length taken) rest r
      → s
        ≡ record r { tokens = token_at kind taken i ∷ r.tokens; normalized = shown ++ r.normalized }
      → Scanned i (c ∷ cs) s
  stops :
      {i : ℕ} {c : ℕ} {cs shown : Text} {s : LexResult}
      → scan c cs ≡ broken shown
      → s ≡ record { tokens = []; valid = false; normalized = shown }
      → Scanned i (c ∷ cs) s

pub shorter :
    (taken rest cs : Text) (c fuel : ℕ)
    → taken ++ rest ≡ (c ∷ cs)
    → 0 < length taken
    → length (c ∷ cs) ≤ suc fuel
    → length rest ≤ fuel
shorter taken rest cs c fuel e p h = omega (arith, length_append taken rest, ap length e)

combine-Scanned :
    (fuel i c : ℕ) (cs : Text) (onward : ℕ → Text → LexResult)
    → ((j : ℕ) (rest : Text) → length rest ≤ fuel → Scanned j rest (onward j rest))
    → length (c ∷ cs) ≤ suc fuel
    → (p : Piece) → scan c cs ≡ p
    → Fits (c ∷ cs) p
    → Scanned i (c ∷ cs) (combine i onward p)
unfolding combine
combine-Scanned fuel i c cs onward ih h (blank taken shown rest) e (f, g, k, x) =
    skips e (ih (i + length taken) rest (shorter taken rest cs c fuel f k h)) refl
combine-Scanned fuel i c cs onward ih h (lexeme kind taken shown rest) e (f, g, k) =
    emits e (ih (i + length taken) rest (shorter taken rest cs c fuel f k h)) refl
combine-Scanned fuel i c cs onward ih h (broken shown) e f = stops e refl

lex-Scanned : (fuel i : ℕ) (q : Text) → length q ≤ fuel → Scanned i q (lex fuel i q)
unfolding lex
lex-Scanned zero i [] h = finished refl
lex-Scanned (suc fuel) i [] h = finished refl
lex-Scanned zero i (c ∷ cs) h = absurd (omega arith)
lex-Scanned (suc fuel) i (c ∷ cs) h =
    combine-Scanned fuel i c cs (lex fuel) (lex-Scanned fuel) h (scan c cs) refl (scan-Fits c cs)

-- The scanner's loop ends on every query: its result is reached by the rounds of the loop, each of
-- which is one step of `scan`, from offset 0 to the end of the query or to an incomplete literal
-- or comment.
pub lex_gremlin_query-Scanned : (query : Text) → Scanned 0 query (lex_gremlin_query query)
unfolding lex_gremlin_query
lex_gremlin_query-Scanned query = lex-Scanned (length query) 0 query (omega arith)

-- any number of parts that are no code
pub data Trivia : Text → Type 0 where
  nothing : Trivia []
  passing :
      {part text : Text} (rest : Text)
      → Passed part
      → Trivia rest
      → text ≡ part ++ rest
      → Trivia text

-- Tokens that are parts of a text, in order and apart, each at its offsets, with no code between them, nor after
-- them where the text is found complete.
pub data Covers : ℕ → Text → List Token → Bool → Type 0 where
  no_more : {i : ℕ} {q : Text} {valid : Bool} → (valid ≡ true → Trivia q) → Covers i q [] valid
  next_token :
      {i : ℕ} {q : Text} {t : Token} {ts : List Token} {valid : Bool} (skipped rest : Text)
      → Trivia skipped
      → skipped ++ (t.value ++ rest) ≡ q
      → t.start ≡ i + length skipped
      → t.finish ≡ t.start + length t.value
      → 0 < length t.value
      → Covers t.finish rest ts valid
      → Covers i q (t ∷ ts) valid

further :
    (i : ℕ) (taken : Text) {rest q : Text} {ts : List Token} {valid : Bool}
    → Passed taken
    → taken ++ rest ≡ q
    → Covers (i + length taken) rest ts valid
    → Covers i q ts valid
further i taken x e (no_more t) = no_more (λ v. passing _ x (t v) (sym e))
further i taken x e (next_token skipped after y f s g p c) =
    next_token (taken ++ skipped) after (passing skipped x y refl)
      (append_assoc taken skipped _ ∙ ap (λ (t : Text). taken ++ t) f ∙ e)
      (omega (arith, s, length_append taken skipped)) g p c

-- a piece that the scanner found fits the text
pub found-Fits : (c : ℕ) (cs : Text) {p : Piece} → scan c cs ≡ p → Fits (c ∷ cs) p
found-Fits c cs e = subst (Fits (c ∷ cs)) e (scan-Fits c cs)

Scanned-Covers : {i : ℕ} {q : Text} {r : LexResult} → Scanned i q r → Covers i q r.tokens r.valid
Scanned-Covers {i} {q} (finished e) =
    subst (λ (r : LexResult). Covers i q r.tokens r.valid) (sym e) (no_more (λ v. nothing))
Scanned-Covers {i} {q} (skips {taken} scanned after e) =
    let (f, g, k, x) = found-Fits _ _ scanned in
    subst (λ (r : LexResult). Covers i q r.tokens r.valid) (sym e)
      (further i taken x f (Scanned-Covers after))
Scanned-Covers {i} {q} (emits {taken} {rest} scanned after e) =
    let (f, g, k) = found-Fits _ _ scanned in
    subst (λ (r : LexResult). Covers i q r.tokens r.valid) (sym e)
      (next_token [] rest nothing f (omega arith) refl k (Scanned-Covers after))
Scanned-Covers {i} {q} (stops scanned e) =
    subst (λ (r : LexResult). Covers i q r.tokens r.valid) (sym e) (no_more (λ v. absurd (cc v)))

Scanned-length : {i : ℕ} {q : Text} {r : LexResult} → Scanned i q r → length r.normalized ≡ length q
Scanned-length (finished e) = rw e refl
Scanned-length (skips {taken} {shown} {rest} {r} scanned after e) =
    let (f, g, k, x) = found-Fits _ _ scanned in
    rw e (
      omega (
        arith,
        length_append shown r.normalized,
        length_append taken rest,
        ap length f,
        g,
        Scanned-length after,
      ))
Scanned-length (emits {taken} {shown} {rest} {r} scanned after e) =
    let (f, g, k) = found-Fits _ _ scanned in
    rw e (
      omega (
        arith,
        length_append shown r.normalized,
        length_append taken rest,
        ap length f,
        g,
        Scanned-length after,
      ))
Scanned-length (stops scanned e) = rw e (found-Fits _ _ scanned)

-- For every query, the tokens are non-empty parts of the query, in order and without overlap, each
-- with the offsets of its first character and of the character after its last one; between two
-- tokens, and after the last one where the query is found complete, there is only white space and
-- comments; and the masked text is exactly as long as the query.
pub lex_gremlin_query-Covers :
    (query : Text)
    → Covers 0 query (lex_gremlin_query query).tokens (lex_gremlin_query query).valid
      × (length (lex_gremlin_query query).normalized ≡ length query)
lex_gremlin_query-Covers query = (
  Scanned-Covers (lex_gremlin_query-Scanned query),
  Scanned-length (lex_gremlin_query-Scanned query),
)
