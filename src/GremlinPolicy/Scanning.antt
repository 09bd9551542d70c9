-- ===== src/GremlinPolicy/Scanning.antt =====
-- What one round of the scanner takes: a part at the front of the rest of the query.
use incubator_hugegraph_ai.Prelude.{
  if_lem, ℕ, suc, ◌+◌, ◌<◌, ◌≡◌, refl, ap, subst, ◌∙◌, Bool, true, false, not, ◌&&◌, ◌||◌, Option,
  none, some, [], ◌∷◌, ◌++◌, ◌==◌, length, all, append_assoc, arith,
}
use incubator_hugegraph_ai.GremlinPolicy.Characters.{
  Text, points, is_space, is_digit, is_identifier_start, is_identifier_part, is_newline, is_quote,
  is_safe_punctuation, masked, starts, occurs_in,
}
use incubator_hugegraph_ai.GremlinPolicy.Lexer.{
  TokenKind, identifier, number, span, number_rest, tail, prepend, find_close, quoted_end,
  triple_end, Piece, blank, lexeme, broken, line_comment, block_comment, commented, literal, quoted,
  word, scan,
}

abbrev Splits : Text → Text × Text → Type 0
Splits source (part, rest) = part ++ rest ≡ source

span-Splits : (p : ℕ → Bool) (cs : Text) → Splits cs (span p cs)
unfolding span
span-Splits p [] = refl
span-Splits p (c ∷ cs) =
    if_lem (Splits (c ∷ cs)) (p c) (λ e. ap (λ (t : Text). c ∷ t) (span-Splits p cs)) (λ e. refl)

number_rest-Splits : (seen : Bool) (cs : Text) → Splits cs (number_rest seen cs)
unfolding number_rest
number_rest-Splits seen [] = refl
number_rest-Splits seen (c ∷ cs) =
    if_lem (Splits (c ∷ cs)) (is_digit c || ((c == b'.') && not seen))
      (λ e. ap (λ (t : Text). c ∷ t) (number_rest-Splits (seen || (c == b'.')) cs)) (λ e. refl)

-- the text inside a delimiter, the delimiter and the rest
abbrev Closed : Text → Text → Option (Text × Text) → Type 0
Closed delimiter source none = Unit {0}
Closed delimiter source (some (body, rest)) = body ++ (delimiter ++ rest) ≡ source

prepend-Closed :
    (delimiter : Text) (c : ℕ) (cs : Text) (o : Option (Text × Text))
    → Closed delimiter cs o
    → Closed delimiter (c ∷ cs) (prepend c o)
prepend-Closed delimiter c cs none h = h
prepend-Closed delimiter c cs (some (body, rest)) h = ap (λ (t : Text). c ∷ t) h

starts_two : (c d : ℕ) (cs : Text) → starts cs (c ∷ d ∷ []) ≡ true → (c ∷ d ∷ tail (tail cs)) ≡ cs
unfolding starts
starts_two c d [] h = absurd (ground arith)
starts_two c d (a ∷ []) h = absurd (ground arith)
starts_two c d (a ∷ b ∷ cs) h = ground arith

starts_three :
    (q c d : ℕ) (cs : Text)
    → starts (c ∷ d ∷ cs) (q ∷ q ∷ q ∷ []) ≡ true
    → (q ∷ q ∷ q ∷ tail cs) ≡ (c ∷ d ∷ cs)
unfolding starts
starts_three q c d [] h = absurd (ground arith)
starts_three q c d (a ∷ cs) h = ground arith

find_close-Closed : (cs : Text) → Closed (points "*/") cs (find_close cs)
unfolding find_close
find_close-Closed [] = tt
find_close-Closed (c ∷ cs) =
    if_lem (Closed (points "*/") (c ∷ cs)) (starts (c ∷ cs) (points "*/")) (λ e. close_found c cs e)
      (λ e. prepend-Closed (points "*/") c cs (find_close cs) (find_close-Closed cs))
  where
    close_found :
        (c : ℕ) (cs : Text)
        → starts (c ∷ cs) (points "*/") ≡ true
        → (b'*' ∷ b'/' ∷ tail cs) ≡ (c ∷ cs)
    close_found c cs e = starts_two b'*' b'/' (c ∷ cs) e

quoted_end-Closed : (q : ℕ) (cs : Text) → Closed (q ∷ []) cs (quoted_end q cs)
unfolding quoted_end
quoted_end-Closed q [] = tt
quoted_end-Closed q (c ∷ []) =
    let P = Closed (q ∷ []) (c ∷ []) in
    if_lem P (c == b'\\') (λ e. tt) (λ e. if_lem P (c == q) (λ e2. ground arith) (λ e2. tt))
quoted_end-Closed q (c ∷ d ∷ ds) =
    let P = Closed (q ∷ []) (c ∷ d ∷ ds) in
    let escaped =
      prepend-Closed (q ∷ []) c (d ∷ ds) (prepend d (quoted_end q ds))
        (prepend-Closed (q ∷ []) d ds (quoted_end q ds) (quoted_end-Closed q ds)) in
    let onward =
      prepend-Closed (q ∷ []) c (d ∷ ds) (quoted_end q (d ∷ ds)) (quoted_end-Closed q (d ∷ ds)) in
    if_lem P (c == b'\\') (λ e. escaped)
      (λ e.
        if_lem P (c == q) (λ e2. ground arith)
          (λ e2. if_lem P (is_newline c) (λ e3. tt) (λ e3. onward)))

triple_end-Closed : (q : ℕ) (cs : Text) → Closed (q ∷ q ∷ q ∷ []) cs (triple_end q cs)
unfolding triple_end
triple_end-Closed q [] = tt
triple_end-Closed q (c ∷ []) = tt
triple_end-Closed q (c ∷ d ∷ ds) =
    let three = q ∷ q ∷ q ∷ [] in
    let P = Closed three (c ∷ d ∷ ds) in
    let escaped =
      prepend-Closed three c (d ∷ ds) (prepend d (triple_end q ds))
        (prepend-Closed three d ds (triple_end q ds) (triple_end-Closed q ds)) in
    let onward =
      prepend-Closed three c (d ∷ ds) (triple_end q (d ∷ ds)) (triple_end-Closed q (d ∷ ds)) in
    if_lem P (c == b'\\') (λ e. escaped)
      (λ e. if_lem P (starts (c ∷ d ∷ ds) three) (λ e2. starts_three q c d ds e2) (λ e2. onward))

-- what is no code: a white-space character, a line comment, or a block comment that opens no other
pub data Passed : Text → Type 0 where
  space : {c : ℕ} → is_space c ≡ true → Passed (c ∷ [])
  line :
      (part : Text) {source : Text}
      → all (λ c. not (is_newline c)) part ≡ true
      → source ≡ (b'/' ∷ b'/' ∷ part)
      → Passed source
  block :
      (body : Text) {source : Text}
      → occurs_in (points "/*") body ≡ false
      → source ≡ (b'/' ∷ b'*' ∷ (body ++ (b'*' ∷ b'/' ∷ [])))
      → Passed source

-- A piece takes a non-empty part of the text, no code if it is blank, and shows as many characters
-- as it takes.
abbrev pub Fits : Text → Piece → Type 0
Fits source (blank taken shown rest) =
    (taken ++ rest ≡ source) × (length shown ≡ length taken) × (0 < length taken) × Passed taken
Fits source (lexeme kind taken shown rest) =
    (taken ++ rest ≡ source) × (length shown ≡ length taken) × (0 < length taken)
Fits source (broken shown) = length shown ≡ length source

pub length-masked : (cs : Text) → length (masked cs) ≡ length cs
length-masked [] = refl
length-masked (c ∷ cs) = ap (λ (n : ℕ). suc n) (length-masked cs)

pub length_append : (xs ys : Text) → length (xs ++ ys) ≡ length xs + length ys
length_append [] ys = omega arith
length_append (x ∷ xs) ys = omega (arith, length_append xs ys)

star : {c : ℕ} (cs : Text) → starts (c ∷ cs) (points "*") ≡ true → b'*' ≡ c
unfolding starts
star cs h = ground arith

same_slash : {c : ℕ} (cs : Text) → starts (c ∷ cs) (points "/") ≡ true → b'/' ≡ c
unfolding starts
same_slash cs h = ground arith

slash : {c : ℕ} (b : Bool) → ((c == b'/') && b) ≡ true → b'/' ≡ c
slash b h = ground arith

second : (c : ℕ) {b : Bool} → ((c == b'/') && b) ≡ true → b ≡ true
second c h = ground arith

span-all : (p : ℕ → Bool) (cs : Text) → all p (span p cs).0 ≡ true
unfolding span all
span-all p [] = refl
span-all p (c ∷ cs) =
    if_lem (λ (s : Text × Text). all p s.0 ≡ true) (p c) (λ e. ground (arith, span-all p cs))
      (λ e. refl)

line_comment-Fits : (cs : Text) → starts cs (points "/") ≡ true → Fits (b'/' ∷ cs) (line_comment cs)
unfolding line_comment starts span is_newline
line_comment-Fits [] h = absurd (ground arith)
line_comment-Fits (c ∷ cs) h =
    let p = λ (d : ℕ). not (is_newline d) in
    let (part, rest) = span p cs in
    subst (λ (k : ℕ). Fits (b'/' ∷ k ∷ cs) (line_comment (k ∷ cs))) (same_slash cs h)
      (
        ap (λ (t : Text). b'/' ∷ b'/' ∷ t) (span-Splits p cs),
        length-masked (b'/' ∷ b'/' ∷ part),
        omega arith,
        line part (span-all p cs) refl,
      )

commented-Fits :
    (cs : Text) (o : Option (Text × Text))
    → Closed (points "*/") cs o
    → Fits (b'/' ∷ b'*' ∷ cs) (commented cs o)
commented-Fits cs none h = length-masked (points "/*" ++ cs)
commented-Fits cs (some (body, rest)) h =
    if_lem (Fits (b'/' ∷ b'*' ∷ cs)) (occurs_in (points "/*") body)
      (λ e. length-masked (points "/*" ++ cs))
      (λ e. (
        ap (λ (t : Text). b'/' ∷ b'*' ∷ t) (append_assoc body (points "*/") rest ∙ h),
        length-masked (points "/*" ++ (body ++ points "*/")),
        omega arith,
        block body e refl,
      ))

block_comment-Fits :
    (cs : Text) → starts cs (points "*") ≡ true → Fits (b'/' ∷ cs) (block_comment cs)
unfolding block_comment starts
block_comment-Fits [] h = absurd (ground arith)
block_comment-Fits (c ∷ cs) h =
    subst (λ (k : ℕ). Fits (b'/' ∷ k ∷ cs) (commented cs (find_close cs))) (star cs h)
      (commented-Fits cs (find_close cs) (find_close-Closed cs))

literal-Fits :
    (source delimiter : Text) (after : Text) (o : Option (Text × Text))
    → delimiter ++ after ≡ source
    → 0 < length delimiter
    → Closed delimiter after o
    → Fits source (literal source delimiter o)
literal-Fits source delimiter after none e p h = length-masked source
literal-Fits source delimiter after (some (body, rest)) e p h = (
  append_assoc delimiter (body ++ delimiter) rest
      ∙ ap (λ (t : Text). delimiter ++ t) (append_assoc body delimiter rest ∙ h)
      ∙ e,
  omega (
    arith,
    length_append delimiter (masked body ++ delimiter),
    length_append (masked body) delimiter,
    length-masked body,
    length_append delimiter (body ++ delimiter),
    length_append body delimiter,
  ),
  omega (arith, length_append delimiter (body ++ delimiter)),
)

quoted-Fits : (q : ℕ) (cs : Text) → Fits (q ∷ cs) (quoted q cs)
unfolding quoted
quoted-Fits q cs =
    if_lem (Fits (q ∷ cs)) (starts cs (q ∷ q ∷ []))
      (λ e.
        literal-Fits (q ∷ cs) (q ∷ q ∷ q ∷ []) (tail (tail cs)) (triple_end q (tail (tail cs)))
          (ap (λ (t : Text). q ∷ t) (starts_two q q cs e)) (omega arith)
          (triple_end-Closed q (tail (tail cs))))
      (λ e.
        literal-Fits (q ∷ cs) (q ∷ []) cs (quoted_end q cs) refl (omega arith)
          (quoted_end-Closed q cs))

word-Fits :
    (kind : TokenKind) (c : ℕ) (cs : Text) (s : Text × Text)
    → Splits cs s
    → Fits (c ∷ cs) (word kind c s)
word-Fits kind c cs (part, rest) e = (ap (λ (t : Text). c ∷ t) e, refl, omega arith)

pub scan-Fits : (c : ℕ) (cs : Text) → Fits (c ∷ cs) (scan c cs)
unfolding scan
scan-Fits c cs =
    let P = Fits (c ∷ cs) in
    let passed : (e : is_space c ≡ true) → Fits (c ∷ cs) (blank (c ∷ []) (c ∷ []) cs) =
      λ e. (refl, refl, omega arith, space e) in
    let one : (c ∷ cs ≡ c ∷ cs) × (length (c ∷ []) ≡ length (c ∷ [])) × (0 < length (c ∷ [])) =
      (refl, refl, omega arith) in
    if_lem P (is_space c) passed (λ e.
      if_lem P ((c == b'/') && starts cs (points "/"))
        (λ e.
          subst (λ (k : ℕ). Fits (k ∷ cs) (line_comment cs)) (slash (starts cs (points "/")) e)
            (line_comment-Fits cs (second c e)))
        (λ e.
          if_lem P ((c == b'/') && starts cs (points "*"))
            (λ e.
              subst (λ (k : ℕ). Fits (k ∷ cs) (block_comment cs)) (slash (starts cs (points "*")) e)
                (block_comment-Fits cs (second c e)))
            (λ e.
              if_lem P (is_quote c) (λ e. quoted-Fits c cs)
                (λ e.
                  if_lem P (is_identifier_start c)
                    (λ e. word-Fits identifier c cs _ (span-Splits is_identifier_part cs))
                    (λ e.
                      if_lem P (is_digit c)
                        (λ e. word-Fits number c cs _ (number_rest-Splits false cs))
                        (λ e. if_lem P (is_safe_punctuation c) (λ e. one) (λ e. one)))))))
