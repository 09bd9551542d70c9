-- ===== src/GraphDataGremlin/Literal.antt =====
-- `_g` and `_escape_groovy_single_quoted` of tools/graph_data_gremlin.py: JSON values as Groovy
-- literals. Floats are left out.
use Prim.Native.Nat.{◌/◌, ◌%◌}
use incubator_hugegraph_ai.Prelude.{
  ℕ, zero, suc, ◌+◌, ◌-◌, Bool, true, false, ◌||◌, ◌&&◌, List, [], ◌∷◌, ◌++◌, ◌==◌, ltb,
  if◌then◌else◌,
}
use incubator_hugegraph_ai.WritePlan.Value.{ℤ, pos, negsuc}
use incubator_hugegraph_ai.GremlinPolicy.Characters.{Text, points}

-- JSON values, with texts as code points; a mapping keeps its insertion order.
mutual
  pub data Json : Type 0 where
    null : Json
    bool : Bool → Json
    int : ℤ → Json
    text : Text → Json
    list : Items → Json
    mapping : Entries → Json

  pub data Items : Type 0 where
    nil : Items
    cons : Json → Items → Items

  pub data Entries : Type 0 where
    end : Entries
    entry : Text → Json → Entries → Entries

-- a digit of `{n:x}`
abbrev pub hex_digit : ℕ → ℕ
hex_digit n = if ltb n 10 then b'0' + n else b'a' + (n - 10)

-- `\u{ord(char):04x}` below 0x20
abbrev pub code_escape : ℕ → Text
code_escape c = points "\\u00" ++ (hex_digit (c / 16) ∷ hex_digit (c % 16) ∷ [])

-- one round of the loop of `_escape_groovy_single_quoted`
unfoldable pub escape_point : ℕ → Text
escape_point c =
    if c == b'\\'
    then points "\\\\"
    else if c == 39
    then b'\\' ∷ 39 ∷ []
    else if c == 10
    then points "\\n"
    else if c == 13
    then points "\\r"
    else if c == 9
    then points "\\t"
    else if c == 8
    then points "\\b"
    else if c == 12
    then points "\\f"
    else if ltb c 32
    then code_escape c
    else c ∷ []

-- `_escape_groovy_single_quoted`
unfoldable pub escape_groovy_single_quoted : Text → Text
unfolding escape_point
escape_groovy_single_quoted [] = []
escape_groovy_single_quoted (c ∷ cs) = escape_point c ++ escape_groovy_single_quoted cs

-- a text as a literal
abbrev pub text_literal : Text → Text
text_literal value = 39 ∷ (escape_groovy_single_quoted value ++ (39 ∷ []))

-- `json.dumps` of a natural number; the fuel is enough where it exceeds the number
unfoldable pub digits_on : ℕ → ℕ → Text
digits_on zero n = []
digits_on (suc fuel) n =
    let high = digits_on fuel (n / 10) in
    if ltb n 10 then (b'0' + n) ∷ [] else high ++ ((b'0' + n % 10) ∷ [])

-- `json.dumps` of what is no text, list or mapping
unfoldable pub dump_int : ℤ → Text
unfolding digits_on
dump_int (pos n) = digits_on (suc n) n
dump_int (negsuc n) = b'-' ∷ digits_on (suc (suc n)) (suc n)

-- `<` of texts
unfoldable pub text_before : Text → Text → Bool
text_before _ [] = false
text_before [] (_ ∷ _) = true
text_before (c ∷ cs) (d ∷ ds) = ltb c d || ((c == d) && text_before cs ds)

-- `sorted(value.items())`, on items whose values are rendered; the keys differ
unfoldable pub insert_item : Text × Text → List (Text × Text) → List (Text × Text)
unfolding text_before
insert_item (k, v) [] = (k, v) ∷ []
insert_item (k, v) ((j, w) ∷ rest) =
    let onward = insert_item (k, v) rest in
    if text_before j k then (j, w) ∷ onward else (k, v) ∷ (j, w) ∷ rest

unfoldable pub sort_items : List (Text × Text) → List (Text × Text)
unfolding insert_item
sort_items [] = []
sort_items (item ∷ rest) = insert_item item (sort_items rest)

-- `", ".join(…)`
unfoldable pub join : List Text → Text
join [] = []
join (t ∷ []) = t
join (t ∷ u ∷ ts) = t ++ (points ", " ++ join (u ∷ ts))

-- `f"{_g(k)}: {_g(v)}"`
unfoldable pub pair_literal : Text × Text → Text
unfolding escape_groovy_single_quoted
pair_literal (key, rendered) = text_literal key ++ (points ": " ++ rendered)

unfoldable pub pair_literals : List (Text × Text) → List Text
unfolding pair_literal
pair_literals [] = []
pair_literals (item ∷ rest) = pair_literal item ∷ pair_literals rest

abbrev pub bracketed : List Text → Text
bracketed items = b'[' ∷ (join items ++ (b']' ∷ []))

-- `_g`
unfoldable mutual
  unfolding escape_groovy_single_quoted dump_int join sort_items pair_literals

  pub g_literal : Json → Text
  g_literal null = points "null"
  g_literal (bool true) = points "true"
  g_literal (bool false) = points "false"
  g_literal (int n) = dump_int n
  g_literal (text value) = text_literal value
  g_literal (list items) = bracketed (g_items items)
  g_literal (mapping entries) = bracketed (pair_literals (sort_items (g_entries entries)))

  pub g_items : Items → List Text
  g_items nil = []
  g_items (cons v vs) = g_literal v ∷ g_items vs

  pub g_entries : Entries → List (Text × Text)
  g_entries end = []
  g_entries (entry k v es) = (k, g_literal v) ∷ g_entries es
