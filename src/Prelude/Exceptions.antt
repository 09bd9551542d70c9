-- ===== src/Prelude/Exceptions.antt =====
-- Python exceptions as values: the classes that hugegraph-mcp raises, with their messages.
use Prim.Native.String.{String}
use mathlib.Core.Path.{◌≡◌, refl}
use mathlib.Core.Bool.{Bool, true, false}

pub data Error : Type 0 where
  value_error : String → Error
  plan_transition_error : String → Error
  integrity_error : String → Error
  assertion_error : Error
  confirmation_already_used_error : Error
  confirmation_not_issued_error : Error
  confirmation_plan_mismatch_error : Error
  confirmation_plan_expired_error : Error
  confirmation_store_unavailable_error : Error
  plan_store_unavailable_error : String → Error
  runtime_error : String → Error
  key_error : String → Error
  overflow_error : Error
  attribute_error : Error

-- What a call gives back: an exception or a value.
pub data Result {ℓ} (Value : Type ℓ) : Type ℓ where
  err : (exception : Error) → Result Value
  ok : (value : Value) → Result Value

-- A call, and the rest of the body where it returned.
infixl 5 ◌>>◌ ◌>>=◌
abbrev pub ◌>>=◌ {ℓ κ} :
    {V : Type ℓ} {W : Type κ} → (called : Result V) → (rest : V → Result W) → Result W
err exception >>= rest = err exception
ok value >>= rest = rest value

abbrev pub ◌>>◌ {κ} : {W : Type κ} → (called : Result (Unit {0})) → (rest : Result W) → Result W
err exception >> rest = err exception
ok _ >> rest = rest

-- `if test: raise error`
abbrev pub raise_if : Bool → Error → Result (Unit {0})
raise_if true e = err e
raise_if false e = ok tt

pub raise_if-ok : (b : Bool) (e : Error) → raise_if b e ≡ ok tt → b ≡ false
raise_if-ok true e h = cc
raise_if-ok false e h = refl

-- A method of a store: what it returned or raised, and the store that it left behind.
abbrev pub Outcome {ℓ} : Type ℓ → Type ℓ → Type ℓ
Outcome S A = Result A × S

-- The rest of a method, run on what the first part left behind; an exception ends it.
abbrev pub after {ℓ} :
    {S : Type ℓ} {A B : Type ℓ} → Outcome S A → (A → S → Outcome S B) → Outcome S B
after (ok a, s) k = k a s
after (err e, s) k = (err e, s)

-- A method that returned: its first part returned, and the rest ran on what that left behind.
pub after-eq-ok {ℓ} :
    {S : Type ℓ} {A B : Type ℓ} (m : Outcome S A) (k : A → S → Outcome S B) {b : B}
    → (after m k).0 ≡ ok b
    → (a : A) × (m ≡ (ok a, m.1)) × (after m k ≡ k a m.1)
after-eq-ok (ok a, s) k h = (a, refl, refl)
after-eq-ok (err e, s) k h = cc
