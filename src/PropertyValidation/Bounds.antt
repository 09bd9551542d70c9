-- ===== src/PropertyValidation/Bounds.antt =====
-- The integers that property_validation.py accepts fit the types of HugeGraph.
use Prim.Native.Nat.{◌^◌}
use incubator_hugegraph_ai.Prelude.{
  ℕ, suc, ◌<◌, ◌≡◌, ◌↔◌, refl, not, none, some, leb, if◌then◌else◌, arith,
}
use incubator_hugegraph_ai.WritePlan.Value.{pos, negsuc}
use incubator_hugegraph_ai.GremlinPolicy.Characters.{Text, points, is_one_of, same}
use incubator_hugegraph_ai.GraphDataGremlin.Literal.{Json, null, bool, int, text, list, mapping}
use incubator_hugegraph_ai.PropertyValidation.{
  in_range, integer_range, Parsers, bad_value, value_matches_type, property_value_error,
}

pub data IntegerType : Type 0 where
  byte int32 long : IntegerType

abbrev pub type_name : IntegerType → Text
type_name byte = points "BYTE"
type_name int32 = points "INT"
type_name long = points "LONG"

-- the bits of an integer of the type, less its sign
abbrev pub bits : IntegerType → ℕ
bits byte = 7
bits int32 = 31
bits long = 63

-- null, or an integer of two's complement with a sign bit and so many others
abbrev pub FitsIn : ℕ → Json → Type 0
FitsIn k null = Unit {0}
FitsIn k (int (pos n)) = n < 2 ^ k
FitsIn k (int (negsuc n)) = n < 2 ^ k
FitsIn k _ = ⊥

accepted_below :
    (n high : ℕ) → ((if not (leb n high) then some bad_value else none) ≡ none) ↔ (n < suc high)
accepted_below n high = ((λ h. ground arith), (λ h. ground arith))

accepted_negative :
    (n low : ℕ) → ((if not (leb (suc n) low) then some bad_value else none) ≡ none) ↔ (n < low)
accepted_negative n low = ((λ h. ground arith), (λ h. ground arith))

module _ (parsers : Parsers) where
  -- A value is accepted for a property of one value and of type BYTE, INT or LONG exactly when it is
  -- null or an integer that 8, 32 or 64 bits of two's complement hold; so no truth value, text,
  -- list or mapping is accepted.
  pub integers_fit :
      (t : IntegerType) (value : Json)
      → (property_value_error parsers value (some (type_name t, points "SINGLE")) ≡ none)
        ↔ FitsIn (bits t) value
  unfolding property_value_error value_matches_type integer_range in_range is_one_of same
  integers_fit byte null = ((λ h. tt), (λ h. refl))
  integers_fit int32 null = ((λ h. tt), (λ h. refl))
  integers_fit long null = ((λ h. tt), (λ h. refl))
  integers_fit byte (int (pos n)) = accepted_below n 127
  integers_fit byte (int (negsuc n)) = accepted_negative n 128
  integers_fit byte (bool _) = ((λ h. absurd (cc h)), (λ h. absurd h))
  integers_fit byte (text _) = ((λ h. absurd (cc h)), (λ h. absurd h))
  integers_fit byte (list _) = ((λ h. absurd (cc h)), (λ h. absurd h))
  integers_fit byte (mapping _) = ((λ h. absurd (cc h)), (λ h. absurd h))
  integers_fit int32 (int (pos n)) = accepted_below n 2147483647
  integers_fit int32 (int (negsuc n)) = accepted_negative n 2147483648
  integers_fit int32 (bool _) = ((λ h. absurd (cc h)), (λ h. absurd h))
  integers_fit int32 (text _) = ((λ h. absurd (cc h)), (λ h. absurd h))
  integers_fit int32 (list _) = ((λ h. absurd (cc h)), (λ h. absurd h))
  integers_fit int32 (mapping _) = ((λ h. absurd (cc h)), (λ h. absurd h))
  integers_fit long (int (pos n)) = accepted_below n 9223372036854775807
  integers_fit long (int (negsuc n)) = accepted_negative n 9223372036854775808
  integers_fit long (bool _) = ((λ h. absurd (cc h)), (λ h. absurd h))
  integers_fit long (text _) = ((λ h. absurd (cc h)), (λ h. absurd h))
  integers_fit long (list _) = ((λ h. absurd (cc h)), (λ h. absurd h))
  integers_fit long (mapping _) = ((λ h. absurd (cc h)), (λ h. absurd h))
