-- ===== src/GraphDataGremlin/Escaping.antt =====
-- An escaped text reads back as the text, and the scanner of gremlin_policy.py takes it as one
-- literal.
use Prim.Native.Nat.{◌/◌, ◌%◌}
use incubator_hugegraph_ai.Prelude.{
  if_lem, ℕ, ◌+◌, ◌-◌, ◌*◌, ◌<◌, ◌≡◌, ◌≢◌, refl, ap, subst, ◌∙◌, true, false, Option, none, some,
  [], ◌∷◌, ◌++◌, ◌==◌, ltb, if◌then◌else◌, append_assoc, Bool-cases, inl, inr, arith,
}
use incubator_hugegraph_ai.GremlinPolicy.Characters.{
  Text, points, is_newline, is_space, is_quote, starts, masked,
}
use incubator_hugegraph_ai.GremlinPolicy.Lexer.{prepend, quoted_end, quoted, scan, lexeme, string}
use incubator_hugegraph_ai.GraphDataGremlin.Literal.{
  hex_digit, code_escape, escape_point, escape_groovy_single_quoted, text_literal,
}

-- what a Groovy literal between single quotes stands for, given the text between them
abbrev put : ℕ → Option Text → Option Text
put c none = none
put c (some value) = some (c ∷ value)

abbrev hex_value : ℕ → ℕ
hex_value d = if ltb d 58 then d - 48 else d - 87

abbrev escaped_value : ℕ → ℕ
escaped_value d =
    if d == b'n'
    then 10
    else if d == b'r'
    then 13
    else if d == b't'
    then 9
    else if d == b'b'
    then 8
    else if d == b'f'
    then 12
    else d

unfoldable mutual
  pub unescape : Text → Option Text
  unescape [] = some []
  unescape (c ∷ cs) = elim (c == b'\\') [ true ↦ unescape_next cs | false ↦ put c (unescape cs) ]

  unescape_next : Text → Option Text
  unescape_next [] = none
  unescape_next (d ∷ ds) = elim (d == b'u') [
    | true ↦ unescape_code ds
    | false ↦ put (escaped_value d) (unescape ds)
  ]

  unescape_code : Text → Option Text
  unescape_code (a ∷ b ∷ e ∷ f ∷ rest) =
      put (((hex_value a * 16 + hex_value b) * 16 + hex_value e) * 16 + hex_value f) (unescape rest)
  unescape_code (_ ∷ _ ∷ _ ∷ []) = none
  unescape_code (_ ∷ _ ∷ []) = none
  unescape_code (_ ∷ []) = none
  unescape_code [] = none

-- the escapes of a character, by cases
module _ (P : ℕ → Text → Type 0) where
  equals : (n c : ℕ) (w : Text) → (c == n) ≡ true → P n w → P c w
  equals n c w e p = subst (λ (k : ℕ). P k w) (ground arith) p

  escape_point_cases :
      P 92 (points "\\\\")
      → P 39 (b'\\' ∷ 39 ∷ [])
      → P 10 (points "\\n")
      → P 13 (points "\\r")
      → P 9 (points "\\t")
      → P 8 (points "\\b")
      → P 12 (points "\\f")
      → ((c : ℕ) → c < 32 → P c (code_escape c))
      → ((c : ℕ) → c ≢ 92 → c ≢ 39 → c ≢ 10 → c ≢ 13 → P c (c ∷ []))
      → (c : ℕ) → P c (escape_point c)
  unfolding escape_point
  escape_point_cases backslash quote newline return tab backspace feed code plain c =
      if_lem (P c) (c == 92) (λ e. equals 92 c _ e backslash)
        (λ a.
          if_lem (P c) (c == 39) (λ e. equals 39 c _ e quote)
            (λ b.
              if_lem (P c) (c == 10) (λ e. equals 10 c _ e newline)
                (λ d.
                  if_lem (P c) (c == 13) (λ e. equals 13 c _ e return)
                    (λ f.
                      if_lem (P c) (c == 9) (λ e. equals 9 c _ e tab)
                        (λ g.
                          if_lem (P c) (c == 8) (λ e. equals 8 c _ e backspace)
                            (λ h.
                              if_lem (P c) (c == 12) (λ e. equals 12 c _ e feed)
                                (λ k.
                                  if_lem (P c) (ltb c 32) (λ e. code c (ground arith))
                                    (λ l.
                                      plain c (ground arith) (ground arith) (ground arith)
                                        (ground arith)))))))))

unescape_plain : (c : ℕ) (t : Text) → c ≢ 92 → unescape (c ∷ t) ≡ put c (unescape t)
unfolding unescape
unescape_plain c t n = elim (Bool-cases (c == 92)) [
  | inl e ↦ absurd (n (ground arith))
  | inr e ↦ rw (e, unescape) refl
]

hex_value_digit : (n : ℕ) → n < 16 → hex_value (hex_digit n) ≡ n
hex_value_digit n h = ground arith

code_value :
    (c : ℕ)
    → c < 32
    → (((hex_value b'0' * 16 + hex_value b'0') * 16 + hex_value (hex_digit (c / 16))) * 16
        + hex_value (hex_digit (c % 16)))
      ≡ c
code_value c h =
    rw (hex_value_digit (c / 16) (omega arith))
      (rw (hex_value_digit (c % 16) (omega arith)) (omega arith))

unescape_coded : (c : ℕ) (t : Text) → c < 32 → unescape (code_escape c ++ t) ≡ put c (unescape t)
unfolding unescape
unescape_coded c t h = ap (λ (k : ℕ). put k (unescape t)) (code_value c h)

unescape_step : (c : ℕ) (t : Text) → unescape (escape_point c ++ t) ≡ put c (unescape t)
unfolding unescape
unescape_step c t =
    escape_point_cases (λ k w. unescape (w ++ t) ≡ put k (unescape t)) refl refl refl refl refl refl
      refl (λ k h. unescape_coded k t h) (λ k a b d e. unescape_plain k t a) c

-- Escaping loses nothing: read as the content of a single-quoted Groovy literal, with its escapes
-- of backslash, quote, newline, return, tab, backspace, form feed and code points, the escaped
-- text stands for the text that was escaped.
pub unescape-escape_groovy_single_quoted :
    (value : Text) → unescape (escape_groovy_single_quoted value) ≡ some value
unfolding escape_groovy_single_quoted unescape
unescape-escape_groovy_single_quoted [] = refl
unescape-escape_groovy_single_quoted (c ∷ cs) =
    unescape_step c (escape_groovy_single_quoted cs)
    ∙ ap (put c) (unescape-escape_groovy_single_quoted cs)

abbrev prepend_all : Text → Option (Text × Text) → Option (Text × Text)
prepend_all [] o = o
prepend_all (c ∷ cs) o = prepend c (prepend_all cs o)

quoted_plain :
    (c : ℕ) (t : Text)
    → c ≢ 92
    → c ≢ 39
    → c ≢ 10
    → c ≢ 13
    → quoted_end 39 (c ∷ t) ≡ prepend c (quoted_end 39 t)
unfolding quoted_end is_newline
quoted_plain c [] a b d e = ground arith
quoted_plain c (x ∷ xs) a b d e = ground arith

-- a hexadecimal digit is no backslash, quote or line break
hex_plain :
    (n : ℕ)
    → n < 16
    → (hex_digit n ≢ 92) × (hex_digit n ≢ 39) × (hex_digit n ≢ 10) × (hex_digit n ≢ 13)
hex_plain n h = (ground arith, ground arith, ground arith, ground arith)

quoted_hex :
    (n : ℕ) (t : Text)
    → n < 16
    → quoted_end 39 (hex_digit n ∷ t) ≡ prepend (hex_digit n) (quoted_end 39 t)
quoted_hex n t h = let (a, b, c, d) = hex_plain n h in quoted_plain (hex_digit n) t a b c d

quoted_coded :
    (c : ℕ) (t : Text)
    → c < 32
    → quoted_end 39 (code_escape c ++ t) ≡ prepend_all (code_escape c) (quoted_end 39 t)
unfolding quoted_end is_newline
quoted_coded c t h =
    ap (λ (o : Option (Text × Text)). prepend_all (points "\\u00") o)
      (quoted_hex (c / 16) (hex_digit (c % 16) ∷ t) (omega arith)
        ∙ ap (prepend (hex_digit (c / 16))) (quoted_hex (c % 16) t (omega arith)))

quoted_step :
    (c : ℕ) (t : Text)
    → quoted_end 39 (escape_point c ++ t) ≡ prepend_all (escape_point c) (quoted_end 39 t)
unfolding quoted_end is_newline
quoted_step c t =
    escape_point_cases (λ k w. quoted_end 39 (w ++ t) ≡ prepend_all w (quoted_end 39 t)) refl refl
      refl refl refl refl refl (λ k h. quoted_coded k t h) (λ k a b d e. quoted_plain k t a b d e) c

prepend_all-some : (w body rest : Text) → prepend_all w (some (body, rest)) ≡ some (w ++ body, rest)
prepend_all-some [] body rest = refl
prepend_all-some (c ∷ w) body rest = ap (prepend c) (prepend_all-some w body rest)

quoted_end-escape :
    (value rest : Text)
    → quoted_end 39 (escape_groovy_single_quoted value ++ (39 ∷ rest))
      ≡ some (escape_groovy_single_quoted value, rest)
unfolding escape_groovy_single_quoted quoted_end
quoted_end-escape [] [] = refl
quoted_end-escape [] (c ∷ rest) = refl
quoted_end-escape (c ∷ cs) rest =
    ap (quoted_end 39) (append_assoc (escape_point c) (escape_groovy_single_quoted cs) (39 ∷ rest))
    ∙ quoted_step c _
    ∙ ap (prepend_all (escape_point c)) (quoted_end-escape cs rest)
    ∙ prepend_all-some (escape_point c) (escape_groovy_single_quoted cs) rest

-- a text that does not go on with a quote
abbrev pub Unquoted : Text → Type 0
Unquoted rest = starts rest (39 ∷ []) ≡ false

not_triple_step : (c : ℕ) (t : Text) → starts (escape_point c ++ t) (39 ∷ 39 ∷ []) ≡ false
unfolding starts
not_triple_step c t =
    escape_point_cases (λ k w. starts (w ++ t) (39 ∷ 39 ∷ []) ≡ false) refl refl refl refl refl refl
      refl (λ k h. refl) (λ k a b d e. ground arith) c

not_triple :
    (value rest : Text)
    → Unquoted rest
    → starts (escape_groovy_single_quoted value ++ (39 ∷ rest)) (39 ∷ 39 ∷ []) ≡ false
unfolding escape_groovy_single_quoted starts
not_triple [] rest h = h
not_triple (c ∷ cs) rest h =
    rw (append_assoc (escape_point c) (escape_groovy_single_quoted cs) (39 ∷ rest))
      (not_triple_step c (escape_groovy_single_quoted cs ++ (39 ∷ rest)))

-- A text, whatever characters it holds, is written as one literal: where its literal stands in a
-- query and no quote follows it, the scanner of gremlin_policy.py takes exactly that literal as
-- one string token and goes on with what follows.
pub scan-text_literal :
    (value rest : Text)
    → Unquoted rest
    → scan 39 (escape_groovy_single_quoted value ++ (39 ∷ rest))
      ≡ lexeme string
          (text_literal value)
          (39 ∷ (masked (escape_groovy_single_quoted value) ++ (39 ∷ [])))
          rest
unfolding scan quoted is_space is_quote
scan-text_literal value rest h =
    rw (not_triple value rest h) (rw (quoted_end-escape value rest) refl)
