-- ===== src/GremlinPolicy/Writes.antt =====
-- When a query is classified as unsafe.
use incubator_hugegraph_ai.Prelude.{
  ℕ, zero, suc, ◌+◌, ◌≡◌, refl, sym, ap, ◌∙◌, subst, ◌↔◌, inl, inr, true, false, not, ◌||◌, String,
  Option, none, some, List, [], ◌∷◌, ◌++◌, any, length, Bool-cases, arith,
}
use incubator_hugegraph_ai.GremlinPolicy.Characters.{Text, points, same, is_one_of, is_space, lower}
use incubator_hugegraph_ai.GremlinPolicy.Lexer.{
  TokenKind, identifier, number, string, punctuation, unknown, Token, LexResult, blank, scan,
  combine, lex, lex_gremlin_query,
}
use incubator_hugegraph_ai.GremlinPolicy.Analysis.{
  anonymous_read_methods, is_write, Gathered, is_dot, is_call, analyze_identifier, analyze_token,
  both, analyze_loop, analyze_tokens,
}
use incubator_hugegraph_ai.GremlinPolicy.Decision.{
  unsafe, unclear, verdict, classify_gremlin_read_safety,
}
use incubator_hugegraph_ai.GremlinPolicy.Reads.{before_it}

-- an identifier that names a write step, as a member or as a call
pub record Writes (previous : Option Token) (t : Token) (after : List Token) : Type 0 where
  pub is_name : t.kind ≡ identifier
  pub named : is_write (lower t.value) ≡ true
  pub used : is_dot previous || is_call after ≡ true

same_eq : (a b : Text) → same a b ≡ true → a ≡ b
unfolding same
same_eq [] [] h = refl
same_eq [] (d ∷ ds) h = absurd (ground arith)
same_eq (c ∷ cs) [] h = absurd (ground arith)
same_eq (c ∷ cs) (d ∷ ds) h =
    let e : c ≡ d = ground arith in let f = same_eq cs ds (ground arith) in ground (arith, e, f)

abbrev EachIs : (Text → Type 0) → List String → Type 0
EachIs P [] = Unit {0}
EachIs P (s ∷ ss) = P (points s) × EachIs P ss

is_one_of-EachIs :
    (P : Text → Type 0) (l : Text) (ss : List String) → is_one_of l ss ≡ true → EachIs P ss → P l
unfolding is_one_of
is_one_of-EachIs P l [] h a = absurd (ground arith)
is_one_of-EachIs P l (s ∷ ss) h (a, r) = elim (Bool-cases (same l (points s))) [
  | inl e ↦ subst P (sym (same_eq l (points s) e)) a
  | inr e ↦ is_one_of-EachIs P l ss (ground (arith, e)) r
]

-- an anonymous read step is no write step
anonymous_reads : (l : Text) → is_one_of l anonymous_read_methods ≡ true → is_write l ≡ false
unfolding is_one_of is_write same
anonymous_reads l h =
    is_one_of-EachIs (λ (k : Text). is_write k ≡ false) l anonymous_read_methods h
      (refl, (refl, (refl, (refl, tt))))

analyze_identifier-Writes :
    (p : Option Token) (l : Text) (after : List Token)
    → is_write l ≡ true
    → (is_dot p || is_call after) ≡ true
    → (analyze_identifier p l after).has_write_method ≡ true
unfolding analyze_identifier
analyze_identifier-Writes p l after named used =
    elim (Bool-cases (is_one_of l anonymous_read_methods)) [
      | inl e ↦ absurd (ground (arith, anonymous_reads l e))
      | inr e ↦ ground (arith, e)
    ]

Writes_of_identifier :
    (p : Option Token) (l : Text) (after : List Token)
    → (analyze_identifier p l after).has_write_method ≡ true
    → (is_write l ≡ true) × ((is_dot p || is_call after) ≡ true)
unfolding analyze_identifier
Writes_of_identifier p l after h = (ground arith, ground arith)

analyze_token-Writes :
    (p : Option Token) (t : Token) (after : List Token)
    → Writes p t after
    → (analyze_token p t after).has_write_method ≡ true
unfolding analyze_token
analyze_token-Writes p t after w =
    rw w.is_name (analyze_identifier-Writes p (lower t.value) after w.named w.used)

Writes-of_kind :
    (p : Option Token) (t : Token) (after : List Token) (k : TokenKind)
    → t.kind ≡ k
    → (analyze_token p t after).has_write_method ≡ true
    → Writes p t after
unfolding analyze_token
Writes-of_kind p t after identifier k h =
    let (named, used) = Writes_of_identifier p (lower t.value) after (rw k at h) in
    record { is_name = k; named = named; used = used }
Writes-of_kind p t after number k h = absurd (cc (rw k at h))
Writes-of_kind p t after string k h = absurd (cc (rw k at h))
Writes-of_kind p t after punctuation k h = absurd (cc (rw k at h))
Writes-of_kind p t after unknown k h = absurd (cc (rw k at h))

-- A write step among some tokens, at a place.
abbrev pub HasWriteStep : Option Token → List Token → Type 0
HasWriteStep p tokens =
    (before : List Token) × (t : Token) × (after : List Token) × (tokens ≡ before ++ (t ∷ after))
    × Writes (before_it p before) t after

earlier :
    (p : Option Token) (s : Token) (ts : List Token)
    → HasWriteStep (some s) ts
    → HasWriteStep p (s ∷ ts)
earlier p s ts (before, t, after, e, w) =
    (s ∷ before, t, after, ap (λ (l : List Token). s ∷ l) e, w)

pub analyze_loop-HasWriteStep :
    (p : Option Token) (ts : List Token)
    → (analyze_loop p ts).has_write_method ≡ true
    → HasWriteStep p ts
unfolding analyze_loop both
analyze_loop-HasWriteStep p [] h = absurd (cc)
analyze_loop-HasWriteStep p (t ∷ ts) h = elim (Bool-cases (analyze_token p t ts).has_write_method) [
  | inl e ↦ ([], t, ts, refl, Writes-of_kind p t ts t.kind refl e)
  | inr e ↦ earlier p t ts (analyze_loop-HasWriteStep (some t) ts (ground (arith, e)))
]

pub analyze_loop-Writes :
    (p : Option Token) (before : List Token) (t : Token) (after : List Token)
    → Writes (before_it p before) t after
    → (analyze_loop p (before ++ (t ∷ after))).has_write_method ≡ true
unfolding analyze_loop both
analyze_loop-Writes p [] t after w = ground (arith, analyze_token-Writes p t after w)
analyze_loop-Writes p (s ∷ before) t after w =
    ground (arith, analyze_loop-Writes (some s) before t after w)

scan_space : (c : ℕ) (cs : Text) → is_space c ≡ true → scan c cs ≡ blank (c ∷ []) (c ∷ []) cs
unfolding scan
scan_space c cs e = rw e refl

lex_blank :
    (fuel i : ℕ) (q : Text)
    → any (λ (c : ℕ). not (is_space c)) q ≡ false
    → (lex fuel i q).tokens ≡ []
unfolding lex combine any
lex_blank fuel i [] h = refl
lex_blank zero i (c ∷ cs) h = refl
lex_blank (suc fuel) i (c ∷ cs) h =
    rw (scan_space c cs (ground arith)) (lex_blank fuel (i + 1) cs (ground arith))

unfold_classify :
    (query : Text)
    → any (λ (c : ℕ). not (is_space c)) query ≡ true
    → classify_gremlin_read_safety query ≡ verdict (analyze_tokens (lex_gremlin_query query))
unfolding classify_gremlin_read_safety
unfold_classify query h = rw h refl

classify_blank :
    (query : Text)
    → any (λ (c : ℕ). not (is_space c)) query ≡ false
    → classify_gremlin_read_safety query ≡ unclear
unfolding classify_gremlin_read_safety
classify_blank query h = rw h refl

verdict_unsafe : (a : Gathered) → verdict a ≡ unsafe → a.has_write_method ≡ true
verdict_unsafe a h = ground arith

verdict_write : (a : Gathered) → a.has_write_method ≡ true → verdict a ≡ unsafe
verdict_write a h = ground arith

no_write_step : HasWriteStep none [] → ⊥
no_write_step ([], t, after, e, w) = cc
no_write_step (s ∷ before, t, after, e, w) = cc

nothing_scanned :
    (query : Text)
    → any (λ (c : ℕ). not (is_space c)) query ≡ false
    → (lex_gremlin_query query).tokens ≡ []
unfolding lex_gremlin_query
nothing_scanned query e = lex_blank (length query) 0 query e

has_write :
    (lexed : LexResult)
    → (analyze_tokens lexed).has_write_method ≡ (analyze_loop none lexed.tokens).has_write_method
unfolding analyze_tokens
has_write lexed = refl

pub HasWriteStep-writes :
    (ts : List Token) → HasWriteStep none ts → (analyze_loop none ts).has_write_method ≡ true
HasWriteStep-writes ts (before, t, after, e, w) =
    subst (λ (l : List Token). (analyze_loop none l).has_write_method ≡ true) (sym e)
      (analyze_loop-Writes none before t after w)

-- A query is classified as unsafe exactly when its tokens hold a write step: an identifier, in any
-- case, of the write methods or property or iterate, that a dot stands before or an opening
-- parenthesis stands after. The rest of the query, complete or not, makes no difference.
pub classify_gremlin_read_safety-HasWriteStep :
    (query : Text)
    → (classify_gremlin_read_safety query ≡ unsafe)
      ↔ HasWriteStep none (lex_gremlin_query query).tokens
classify_gremlin_read_safety-HasWriteStep query =
    let code = any (λ (c : ℕ). not (is_space c)) query in
    let analysis = analyze_tokens (lex_gremlin_query query) in
    elim (Bool-cases code) [
      | inl e ↦ (
        (λ h. analyze_loop-HasWriteStep none (lex_gremlin_query query).tokens (
            sym (has_write (lex_gremlin_query query))
            ∙ verdict_unsafe analysis (sym (unfold_classify query e) ∙ h))),
        (λ w.
            unfold_classify query e
            ∙ verdict_write analysis (
                has_write (lex_gremlin_query query)
                ∙ HasWriteStep-writes (lex_gremlin_query query).tokens w)),
      )
      | inr e ↦ (
        (λ h. absurd (cc (sym (classify_blank query e) ∙ h))),
        (λ w. absurd (no_write_step (subst (HasWriteStep none) (nothing_scanned query e) w))),
      )
    ]
