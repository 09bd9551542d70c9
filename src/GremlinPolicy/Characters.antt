-- ===== src/GremlinPolicy/Characters.antt =====
-- The characters that the scanner of gremlin_policy.py tells apart. A text is the list of its code
-- points, as Python indexes it.
use Prim.Native.Char.{code}
use incubator_hugegraph_ai.Prelude.{
  ℕ, ◌+◌, String, Bool, true, false, ◌&&◌, ◌||◌, List, [], ◌∷◌, map, leb, ◌==◌, if◌then◌else◌,
}

abbrev pub Text : Type 0
Text = List ℕ

abbrev pub points : String → Text
points String.[] = []
points (String.◌∷◌ c cs) = code c ∷ points cs

unfoldable pub same : Text → Text → Bool
same [] [] = true
same (c ∷ cs) (d ∷ ds) = (c == d) && same cs ds
same [] (_ ∷ _) = false
same (_ ∷ _) [] = false

-- `value in {…}`
unfoldable pub is_one_of : Text → List String → Bool
is_one_of value [] = false
is_one_of value (s ∷ ss) = same value (points s) || is_one_of value ss

abbrev within : ℕ → ℕ → ℕ → Bool
within low high c = leb low c && leb c high

-- `str.isspace` of one character
unfoldable pub is_space : ℕ → Bool
is_space c =
    within 9 13 c
    || within 28 32 c
    || (c == 133)
    || (c == 160)
    || (c == 5760)
    || within 8192 8202 c
    || within 8232 8233 c
    || (c == 8239)
    || (c == 8287)
    || (c == 12288)

unfoldable pub is_digit : ℕ → Bool
is_digit c = within b'0' b'9' c

-- `_is_identifier_start` and `_is_identifier_part`
unfoldable pub is_identifier_start : ℕ → Bool
is_identifier_start c = (c == b'_') || within b'a' b'z' c || within b'A' b'Z' c

unfoldable pub is_identifier_part : ℕ → Bool
unfolding is_identifier_start is_digit
is_identifier_part c = is_identifier_start c || is_digit c

-- `char in "\r\n"`
unfoldable pub is_newline : ℕ → Bool
is_newline c = (c == 13) || (c == 10)

-- `char in {"'", '"'}`
unfoldable pub is_quote : ℕ → Bool
is_quote c = (c == 39) || (c == 34)

-- `_SAFE_PUNCTUATION`
unfoldable pub is_safe_punctuation : ℕ → Bool
is_safe_punctuation c =
    (c == b'.')
    || (c == b'(')
    || (c == b')')
    || (c == b',')
    || (c == b'[')
    || (c == b']')
    || (c == b':')
    || (c == b'-')

-- `str.lower` of an identifier, which is ASCII
abbrev lower_point : ℕ → ℕ
lower_point c = if within b'A' b'Z' c then c + 32 else c

unfoldable pub lower : Text → Text
lower value = map lower_point value

-- `_append_masked` of one character
abbrev pub mask : ℕ → ℕ
mask c = if c == 10 then 10 else 32

abbrev pub masked : Text → Text
masked source = map mask source

-- `text.startswith(prefix)`
unfoldable pub starts : Text → Text → Bool
starts text [] = true
starts [] (_ ∷ _) = false
starts (c ∷ cs) (d ∷ ds) = (c == d) && starts cs ds

-- `part in text`
unfoldable pub occurs_in : Text → Text → Bool
unfolding starts
occurs_in part [] = starts [] part
occurs_in part (c ∷ cs) = starts (c ∷ cs) part || occurs_in part cs
