-- ===== src/GraphDataGremlin/Passing.antt =====
-- The scanner passes over the literal of a value without finding a write step.
use incubator_hugegraph_ai.Prelude.{
  ℕ, suc, ◌≡◌, refl, sym, ap, ◌∙◌, subst, true, false, List, [], ◌∷◌, ◌++◌, all, append_assoc,
  Bool-cases, inl, inr, arith,
}
use incubator_hugegraph_ai.WritePlan.Value.{pos, negsuc, ℤ}
use incubator_hugegraph_ai.GremlinPolicy.Characters.{
  Text, points, same, is_space, is_quote, is_digit, is_identifier_start, is_safe_punctuation, lower,
  is_one_of,
}
use incubator_hugegraph_ai.GremlinPolicy.Lexer.{
  TokenKind, identifier, number, punctuation, blank, lexeme, word, scan,
}
use incubator_hugegraph_ai.GremlinPolicy.Analysis.{is_write}
use incubator_hugegraph_ai.GraphDataGremlin.Literal.{
  Json, null, bool, int, text, list, mapping, Items, nil, cons, Entries, end, entry,
  escape_groovy_single_quoted, text_literal, digits_on, dump_int, insert_item, text_before,
  sort_items, join, pair_literal, pair_literals, bracketed, g_literal, g_items, g_entries,
}
use incubator_hugegraph_ai.GraphDataGremlin.Escaping.{scan-text_literal}
use incubator_hugegraph_ai.GraphDataGremlin.Clean.{
  Harmless, Follows, Follows-Unquoted, number_all, scan_digit, digits_on-digits, word_true,
  word_false, word_null,
}

-- What holds of a text and passes over a harmless token and over white space holds of the text with
-- a literal before it.
module _ (Q : Text → Type 0)
    (token_rule : (c : ℕ) (cs : Text) (kind : TokenKind) (taken shown rest : Text)
      → scan c cs ≡ lexeme kind taken shown rest
      → Harmless kind taken
      → Q rest
      → Q (c ∷ cs))
    (blank_rule : (c : ℕ) (cs taken shown rest : Text)
      → scan c cs ≡ blank taken shown rest
      → Q rest
      → Q (c ∷ cs)) where
  abbrev pub Passes : Text → Type 0
  Passes t = (rest : Text) → Follows rest → Q rest → Q (t ++ rest)

  pub text_literal-Passes : (value : Text) → Passes (text_literal value)
  text_literal-Passes value rest f h =
      token_rule _ _ _ _ _ _
        (ap (scan 39) (append_assoc (escape_groovy_single_quoted value) (39 ∷ []) rest)
          ∙ scan-text_literal value rest (Follows-Unquoted rest f))
        tt h

  digits-Passes : (ds : Text) → all is_digit ds ≡ true → Passes ds
  unfolding all
  digits-Passes [] h rest f after = after
  digits-Passes (d ∷ ds) h rest f after =
      token_rule _ _ _ _ _ _
        (scan_digit d (ds ++ rest) (ground arith)
          ∙ ap (word number d) (number_all ds rest (ground arith) f))
        tt after

  -- a punctuation mark
  mark_passes :
      (c : ℕ) (rest : Text)
      → scan c rest ≡ lexeme punctuation (c ∷ []) (c ∷ []) rest
      → Q rest
      → Q (c ∷ rest)
  mark_passes c rest e h = token_rule c rest _ _ _ _ e tt h

  pub close_passes : (rest : Text) → Q rest → Q (b')' ∷ rest)
  unfolding scan is_space is_quote is_identifier_start is_digit is_safe_punctuation
  close_passes rest h = mark_passes b')' rest refl h

  pub open_passes : (rest : Text) → Q rest → Q (b'(' ∷ rest)
  unfolding scan is_space is_quote is_identifier_start is_digit is_safe_punctuation
  open_passes rest h = mark_passes b'(' rest refl h

  pub dot_passes : (rest : Text) → Q rest → Q (b'.' ∷ rest)
  unfolding scan is_space is_quote is_identifier_start is_digit is_safe_punctuation
  dot_passes rest h = mark_passes b'.' rest refl h

  pub comma_passes : (rest : Text) → Q rest → Q (b',' ∷ rest)
  unfolding scan is_space is_quote is_identifier_start is_digit is_safe_punctuation
  comma_passes rest h = mark_passes b',' rest refl h

  colon_passes : (rest : Text) → Q rest → Q (b':' ∷ rest)
  unfolding scan is_space is_quote is_identifier_start is_digit is_safe_punctuation
  colon_passes rest h = mark_passes b':' rest refl h

  minus_passes : (rest : Text) → Q rest → Q (b'-' ∷ rest)
  unfolding scan is_space is_quote is_identifier_start is_digit is_safe_punctuation
  minus_passes rest h = mark_passes b'-' rest refl h

  open_list_passes : (rest : Text) → Q rest → Q (b'[' ∷ rest)
  unfolding scan is_space is_quote is_identifier_start is_digit is_safe_punctuation
  open_list_passes rest h = mark_passes b'[' rest refl h

  close_list_passes : (rest : Text) → Q rest → Q (b']' ∷ rest)
  unfolding scan is_space is_quote is_identifier_start is_digit is_safe_punctuation
  close_list_passes rest h = mark_passes b']' rest refl h

  space_passes : (rest : Text) → Q rest → Q (b' ' ∷ rest)
  unfolding scan is_space
  space_passes rest h = blank_rule b' ' rest _ _ _ refl h

  dump_int-Passes : (n : ℤ) → Passes (dump_int n)
  unfolding dump_int
  dump_int-Passes (pos n) rest f h =
      digits-Passes (digits_on (suc n) n) (digits_on-digits (suc n) n) rest f h
  dump_int-Passes (negsuc n) rest f h = minus_passes (digits_on (suc (suc n)) (suc n) ++ rest) (
      digits-Passes (digits_on (suc (suc n)) (suc n)) (digits_on-digits (suc (suc n)) (suc n)) rest
        f h)

  abbrev AllPass : List Text → Type 0
  AllPass [] = Unit {0}
  AllPass (t ∷ ts) = Passes t × AllPass ts

  join_passes :
      (ts : List Text) → AllPass ts → (rest : Text) → Follows rest → Q rest → Q (join ts ++ rest)
  unfolding join
  join_passes [] a rest f h = h
  join_passes (t ∷ []) a rest f h = a.0 rest f h
  join_passes (t ∷ u ∷ ts) a rest f h =
      let onward = join_passes (u ∷ ts) a.1 rest f h in
      subst Q (sym (append_assoc t (points ", " ++ join (u ∷ ts)) rest)) (
        a.0 (points ", " ++ (join (u ∷ ts) ++ rest)) refl (
          comma_passes (b' ' ∷ (join (u ∷ ts) ++ rest))
            (space_passes (join (u ∷ ts) ++ rest) onward)))

  bracketed-Passes : (ts : List Text) → AllPass ts → Passes (bracketed ts)
  bracketed-Passes ts a rest f h = open_list_passes _ (
      subst Q (sym (append_assoc (join ts) (b']' ∷ []) rest))
        (join_passes ts a (b']' ∷ rest) refl (close_list_passes rest h)))

  abbrev AllValuesPass : List (Text × Text) → Type 0
  AllValuesPass [] = Unit {0}
  AllValuesPass ((k, v) ∷ r) = Passes v × AllValuesPass r

  insert_item-Passes :
      (k v : Text) (r : List (Text × Text))
      → Passes v
      → AllValuesPass r
      → AllValuesPass (insert_item (k, v) r)
  unfolding insert_item
  insert_item-Passes k v [] c a = (c, a)
  insert_item-Passes k v ((j, w) ∷ r) c a = elim (Bool-cases (text_before j k)) [
    | inl e ↦ rw e (a.0, insert_item-Passes k v r c a.1)
    | inr e ↦ rw e (c, a)
  ]

  sort_items_passes : (r : List (Text × Text)) → AllValuesPass r → AllValuesPass (sort_items r)
  unfolding sort_items
  sort_items_passes [] a = a
  sort_items_passes ((k, v) ∷ r) a =
      insert_item-Passes k v (sort_items r) a.0 (sort_items_passes r a.1)

  pair_literal-Passes : (k v : Text) → Passes v → Passes (pair_literal (k, v))
  unfolding pair_literal
  pair_literal-Passes k v c rest f h =
      subst Q (sym (append_assoc (text_literal k) (points ": " ++ v) rest)) (
        text_literal-Passes k (points ": " ++ (v ++ rest)) refl
          (colon_passes (b' ' ∷ (v ++ rest)) (space_passes (v ++ rest) (c rest f h))))

  pair_literals_passes : (r : List (Text × Text)) → AllValuesPass r → AllPass (pair_literals r)
  unfolding pair_literals
  pair_literals_passes [] a = tt
  pair_literals_passes ((k, v) ∷ r) a = (pair_literal-Passes k v a.0, pair_literals_passes r a.1)

  mutual
    unfolding g_literal is_write is_one_of same lower

    pub g_literal-Passes : (v : Json) → Passes (g_literal v)
    g_literal-Passes null rest f h =
        token_rule b'n' (points "ull" ++ rest) _ _ _ _ (word_null rest f) refl h
    g_literal-Passes (bool true) rest f h =
        token_rule b't' (points "rue" ++ rest) _ _ _ _ (word_true rest f) refl h
    g_literal-Passes (bool false) rest f h =
        token_rule b'f' (points "alse" ++ rest) _ _ _ _ (word_false rest f) refl h
    g_literal-Passes (int n) rest f h = dump_int-Passes n rest f h
    g_literal-Passes (text t) rest f h = text_literal-Passes t rest f h
    g_literal-Passes (list vs) rest f h = bracketed-Passes (g_items vs) (g_items_passes vs) rest f h
    g_literal-Passes (mapping es) rest f h =
        bracketed-Passes (pair_literals (sort_items (g_entries es)))
          (pair_literals_passes (sort_items (g_entries es))
            (sort_items_passes (g_entries es) (g_entries_passes es)))
          rest f h

    g_items_passes : (vs : Items) → AllPass (g_items vs)
    g_items_passes nil = tt
    g_items_passes (cons v vs) = (g_literal-Passes v, g_items_passes vs)

    g_entries_passes : (es : Entries) → AllValuesPass (g_entries es)
    g_entries_passes end = tt
    g_entries_passes (entry k v es) = (g_literal-Passes v, g_entries_passes es)

  -- a literal, a closing parenthesis and the rest of a query
  pub argument_passes : (v : Json) (rest : Text) → Q rest → Q (g_literal v ++ (points ")" ++ rest))
  argument_passes v rest h = g_literal-Passes v (points ")" ++ rest) refl (close_passes rest h)

  -- the name of a step that writes nothing, and its opening parenthesis
  pub name_passes :
      (c : ℕ) (cs rest : Text)
      → scan c (cs ++ (b'(' ∷ rest)) ≡ lexeme identifier (c ∷ cs) (c ∷ cs) (b'(' ∷ rest)
      → is_write (lower (c ∷ cs)) ≡ false
      → Q rest
      → Q (c ∷ (cs ++ (b'(' ∷ rest)))
  name_passes c cs rest e w h = token_rule c (cs ++ (b'(' ∷ rest)) _ _ _ _ e w (open_passes rest h)
