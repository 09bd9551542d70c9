-- ===== src/PropertyValidation.antt =====
-- hugegraph-mcp/hugegraph_mcp/tools/property_validation.py: the values that a property may have.
-- Floats do not occur among the modelled values. The parsers of the standard library are
-- parameters: each says whether it accepts a text.
pub mod Bounds
use Prim.Native.Nat.{◌^◌}
use incubator_hugegraph_ai.Prelude.{
  ℕ, suc, ◌+◌, ◌*◌, ◌-◌, ◌<◌, ◌≡◌, ◌↔◌, refl, String, Bool, true, false, not, ◌&&◌, ◌||◌, Option,
  none, some, List, [], ◌∷◌, ◌++◌, leb, ltb, if◌then◌else◌, any, all, arith,
}
use incubator_hugegraph_ai.WritePlan.Value.{ℤ, pos, negsuc}
use incubator_hugegraph_ai.GremlinPolicy.Characters.{Text, points, is_one_of, is_space, starts}
use incubator_hugegraph_ai.GraphDataGremlin.Literal.{
  Json, null, bool, int, text, list, mapping, Items, nil, cons,
}

abbrev pub supported_data_types : List String
supported_data_types =
    "TEXT" ∷ "UUID" ∷ "INT" ∷ "LONG" ∷ "DOUBLE" ∷ "FLOAT" ∷ "BOOLEAN" ∷ "DATE" ∷ "BYTE" ∷ "BLOB"
    ∷ "OBJECT" ∷ []

abbrev pub supported_cardinalities : List String
supported_cardinalities = "SINGLE" ∷ "LIST" ∷ "SET" ∷ []

-- `-low <= n <= high`
unfoldable pub in_range : ℕ → ℕ → ℤ → Bool
in_range low high (pos n) = leb n high
in_range low high (negsuc n) = leb (suc n) low

-- `_INTEGER_RANGES`, the lower bound without its sign
unfoldable pub integer_range : Text → Option (ℕ × ℕ)
integer_range data_type =
    if is_one_of data_type ("BYTE" ∷ [])
    then some (128, 127)
    else if is_one_of data_type ("INT" ∷ [])
    then some (2147483648, 2147483647)
    else if is_one_of data_type ("LONG" ∷ [])
    then some (9223372036854775808, 9223372036854775807)
    else none

-- `_FLOATING_MAXIMUMS`, the greatest binary32 and binary64 values, which are whole
unfoldable pub floating_maximum : Text → Option ℕ
floating_maximum data_type =
    if is_one_of data_type ("FLOAT" ∷ [])
    then some ((2 ^ 24 - 1) * 2 ^ 104)
    else if is_one_of data_type ("DOUBLE" ∷ [])
    then some ((2 ^ 53 - 1) * 2 ^ 971)
    else none

-- what the source calls: `UUID(…)`, `datetime.fromisoformat`, `bytes.fromhex` and
-- `base64.b64decode(…, validate=True)`, each as whether it returns
pub record Parsers : Type 0 where
  pub uuid : Text → Bool
  pub fromisoformat : Text → Bool
  pub fromhex : Text → Bool
  pub b64decode : Text → Bool

unfoldable pub drop_spaces : Text → Text
drop_spaces [] = []
drop_spaces (c ∷ cs) = let rest = drop_spaces cs in if is_space c then rest else c ∷ cs

unfoldable pub reverse_onto : Text → Text → Text
reverse_onto [] done = done
reverse_onto (c ∷ cs) done = reverse_onto cs (c ∷ done)

-- `str.strip`
unfoldable pub strip : Text → Text
unfolding drop_spaces reverse_onto
strip t = reverse_onto (drop_spaces (reverse_onto (drop_spaces t) [])) []

-- `candidate.endswith("Z")` and its replacement
unfoldable pub with_offset : Text → Text
with_offset [] = []
with_offset (c ∷ []) = if is_one_of (c ∷ []) ("Z" ∷ []) then points "+00:00" else c ∷ []
with_offset (c ∷ d ∷ ds) = c ∷ with_offset (d ∷ ds)

abbrev is_empty : Text → Bool
is_empty [] = true
is_empty (_ ∷ _) = false

abbrev after_prefix : Text → Text
after_prefix (_ ∷ _ ∷ rest) = rest
after_prefix (_ ∷ []) = []
after_prefix [] = []

-- the message of `property_value_error`, less its texts
pub data ValueFault : Type 0 where
  unsupported_data_type unsupported_cardinality not_a_list bad_value : ValueFault
  bad_element : ℕ → ValueFault

module _ (parsers : Parsers) where
  -- `_is_uuid`
  abbrev pub is_uuid : Json → Bool
  is_uuid (text t) = parsers.uuid t
  is_uuid _ = false

  -- `_is_date`
  unfoldable pub is_date : Json → Bool
  unfolding in_range strip with_offset
  is_date (int n) = in_range 9223372036854775808 9223372036854775807 n
  is_date (text t) = not (is_empty (strip t)) && parsers.fromisoformat (with_offset (strip t))
  is_date null = false
  is_date (bool _) = false
  is_date (list _) = false
  is_date (mapping _) = false

  unfoldable pub are_bytes : Items → Bool
  unfolding in_range
  are_bytes nil = true
  are_bytes (cons (int n) vs) = in_range 128 255 n && are_bytes vs
  are_bytes (cons null _) = false
  are_bytes (cons (bool _) _) = false
  are_bytes (cons (text _) _) = false
  are_bytes (cons (list _) _) = false
  are_bytes (cons (mapping _) _) = false

  -- `_is_blob`
  unfoldable pub is_blob : Json → Bool
  unfolding are_bytes
  is_blob (text t) =
      if starts t (points "0x") then parsers.fromhex (after_prefix t) else parsers.b64decode t
  is_blob (list vs) = are_bytes vs
  is_blob null = false
  is_blob (bool _) = false
  is_blob (int _) = false
  is_blob (mapping _) = false

  abbrev is_text : Json → Bool
  is_text (text _) = true
  is_text _ = false

  abbrev is_bool : Json → Bool
  is_bool (bool _) = true
  is_bool _ = false

  abbrev is_mapping : Json → Bool
  is_mapping (mapping _) = true
  is_mapping _ = false

  abbrev pub is_null : Json → Bool
  is_null null = true
  is_null _ = false

  abbrev int_in : ℕ × ℕ → Json → Bool
  int_in (low, high) (int n) = in_range low high n
  int_in _ _ = false

  -- the types of `value_matches_type` that are no numbers
  unfoldable pub matches_other_type : Json → Text → Bool
  unfolding is_date is_blob
  matches_other_type value data_type =
      if is_one_of data_type ("TEXT" ∷ [])
      then is_text value
      else if is_one_of data_type ("BOOLEAN" ∷ [])
      then is_bool value
      else if is_one_of data_type ("UUID" ∷ [])
      then is_uuid value
      else if is_one_of data_type ("DATE" ∷ [])
      then is_date value
      else if is_one_of data_type ("BLOB" ∷ [])
      then is_blob value
      else is_one_of data_type ("OBJECT" ∷ []) && is_mapping value

  -- `value_matches_type`
  unfoldable pub value_matches_type : Json → Text → Bool
  unfolding integer_range floating_maximum matches_other_type in_range
  value_matches_type value data_type =
      if is_null value then true else elim (integer_range data_type) [
        | some range ↦ int_in range value
        | none ↦ elim (floating_maximum data_type) [
          | some maximum ↦ int_in (maximum, maximum) value
          | none ↦ matches_other_type value data_type
        ]
      ]

  -- the loop over the elements of a collection
  unfoldable pub element_fault : ℕ → Text → Items → Option ValueFault
  unfolding value_matches_type
  element_fault i data_type nil = none
  element_fault i data_type (cons v vs) =
      let rest = element_fault (suc i) data_type vs in
      if is_null v || not (value_matches_type v data_type) then some (bad_element i) else rest

  abbrev collection_fault : Text → Json → Option ValueFault
  collection_fault data_type null = none
  collection_fault data_type (list vs) = element_fault 0 data_type vs
  collection_fault data_type _ = some not_a_list

  -- `property_value_error`
  unfoldable pub property_value_error : Json → Option (Text × Text) → Option ValueFault
  unfolding element_fault value_matches_type
  property_value_error value none = none
  property_value_error value (some (data_type, cardinality)) =
      if not (is_one_of data_type supported_data_types)
      then some unsupported_data_type
      else if not (is_one_of cardinality supported_cardinalities)
      then some unsupported_cardinality
      else if is_one_of cardinality ("LIST" ∷ "SET" ∷ [])
      then collection_fault data_type value
      else if not (value_matches_type value data_type)
      then some bad_value
      else none
