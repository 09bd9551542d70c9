-- ===== src/WritePlan/Value.antt =====
-- The Python values of a write plan's states, `_freeze`, `_thaw` and `==` of write_plan.py.
-- A mapping keeps its insertion order; its keys are texts, so `str(key)` is the key. Floats and
-- other objects do not occur among JSON values that plans carry and are left out.
use incubator_hugegraph_ai.Prelude.{
  ℕ, suc, String, Bool, true, false, ◌&&◌, Option, none, some, ◌==◌, str_eq, if◌then◌else◌,
}

pub data ℤ : Type 0 where
  pos : ℕ → ℤ
  negsuc : ℕ → ℤ

mutual
  pub data Value : Type 0 where
    none_value : Value
    bool : Bool → Value
    int : ℤ → Value
    str : String → Value
    enum : String → Value
    list : Values → Value
    tuple : Values → Value
    set : Values → Value
    frozenset : Values → Value
    mapping : Fields → Value

  pub data Values : Type 0 where
    nil : Values
    cons : Value → Values → Values

  pub data Fields : Type 0 where
    end : Fields
    field : String → Value → Fields → Fields

-- `_freeze` and `_freeze_mapping`
unfoldable mutual
  pub freeze : Value → Value
  freeze (list vs) = tuple (freeze_items vs)
  freeze (tuple vs) = tuple (freeze_items vs)
  freeze (set vs) = frozenset (freeze_items vs)
  freeze (frozenset vs) = frozenset (freeze_items vs)
  freeze (mapping fs) = mapping (freeze_mapping fs)
  freeze v = v

  pub freeze_items : Values → Values
  freeze_items nil = nil
  freeze_items (cons v vs) = cons (freeze v) (freeze_items vs)

  pub freeze_mapping : Fields → Fields
  freeze_mapping end = end
  freeze_mapping (field k v fs) = field k (freeze v) (freeze_mapping fs)

-- `_thaw`; `sort` is `sorted(…, key=repr)`
unfoldable mutual
  pub thaw : (Values → Values) → Value → Value
  thaw sort (mapping fs) = mapping (thaw_mapping sort fs)
  thaw sort (tuple vs) = list (thaw_items sort vs)
  thaw sort (frozenset vs) = list (sort (thaw_items sort vs))
  thaw sort (enum v) = str v
  thaw sort v = v

  pub thaw_items : (Values → Values) → Values → Values
  thaw_items sort nil = nil
  thaw_items sort (cons v vs) = cons (thaw sort v) (thaw_items sort vs)

  pub thaw_mapping : (Values → Values) → Fields → Fields
  thaw_mapping sort end = end
  thaw_mapping sort (field k v fs) = field k (thaw sort v) (thaw_mapping sort fs)

-- `mapping.get(key)`
abbrev pub get_field : String → Fields → Option Value
get_field k end = none
get_field k (field j v fs) = if str_eq j k then some v else get_field k fs

abbrev count_fields : Fields → ℕ
count_fields end = 0
count_fields (field k v fs) = suc (count_fields fs)

abbrev one_or_zero : Bool → ℤ
one_or_zero true = pos 1
one_or_zero false = pos 0

abbrev pub int_eq : ℤ → ℤ → Bool
int_eq (pos a) (pos b) = a == b
int_eq (negsuc a) (negsuc b) = a == b
int_eq _ _ = false

abbrev bool_eq : Bool → Bool → Bool
bool_eq true b = b
bool_eq false true = false
bool_eq false false = true

abbrev found_eq : Option Value → (Value → Bool) → Bool
found_eq none eq = false
found_eq (some w) eq = eq w

-- `==`: `True` is 1, a member of a text enumeration is its text, a list is no tuple, and mappings
-- are compared by key. Sets, which JSON has not, are never compared.
unfoldable mutual
  pub value_eq : Value → Value → Bool
  value_eq none_value none_value = true
  value_eq (bool a) (bool b) = bool_eq a b
  value_eq (bool a) (int b) = int_eq (one_or_zero a) b
  value_eq (int a) (bool b) = int_eq a (one_or_zero b)
  value_eq (int a) (int b) = int_eq a b
  value_eq (str a) (str b) = str_eq a b
  value_eq (str a) (enum b) = str_eq a b
  value_eq (enum a) (str b) = str_eq a b
  value_eq (enum a) (enum b) = str_eq a b
  value_eq (list a) (list b) = items_eq a b
  value_eq (tuple a) (tuple b) = items_eq a b
  value_eq (mapping a) (mapping b) = (count_fields a == count_fields b) && fields_in a b
  value_eq _ _ = false

  pub items_eq : Values → Values → Bool
  items_eq nil nil = true
  items_eq (cons v vs) (cons w ws) = value_eq v w && items_eq vs ws
  items_eq _ _ = false

  -- every entry of the first mapping is in the second
  pub fields_in : Fields → Fields → Bool
  fields_in end b = true
  fields_in (field k v fs) b = found_eq (get_field k b) (value_eq v) && fields_in fs b
