-- ===== src/Prelude/Lists.antt =====
-- Lists: Boolean quantifiers, and what they say of members and of permuted lists.
use Prim.Native.Nat.{ℕ, suc}
use mathlib.Core.Path.{◌≡◌, refl, ◌∙◌}
use mathlib.Core.Bool.{Bool, true, false, ◌&&◌, ◌||◌}
use mathlib.Core.List.{List, [], ◌∷◌, ◌++◌, Memᴰ, Permᴰ}
use native.Mathlib.Omega.{arith}

module _ {ℓ} {A : Type ℓ} where
  abbrev pub length : List A → ℕ
  length [] = 0
  length (x ∷ xs) = suc (length xs)

  -- `any(p(x) for x in xs)`
  unfoldable pub any : (A → Bool) → List A → Bool
  any p [] = false
  any p (x ∷ xs) = p x || any p xs

  -- `all(p(x) for x in xs)`
  unfoldable pub all : (A → Bool) → List A → Bool
  all p [] = true
  all p (x ∷ xs) = p x && all p xs

module _ {ℓ} {A : Type ℓ} (p : A → Bool) where
  pub any-mem : {x : A} {xs : List A} → Memᴰ x xs → p x ≡ true → any p xs ≡ true
  unfolding any
  any-mem (Memᴰ.head {x = y} e) h = ground (arith, e)
  any-mem (Memᴰ.tail m) h = ground (arith, any-mem m h)

  pub all-mem : {x : A} {xs : List A} → Memᴰ x xs → all p xs ≡ true → p x ≡ true
  unfolding all
  all-mem (Memᴰ.head e) h = ground (arith, e)
  all-mem (Memᴰ.tail m) h = all-mem m (ground arith)

  pub all_of_mem : (xs : List A) → ((x : A) → Memᴰ x xs → p x ≡ true) → all p xs ≡ true
  unfolding all
  all_of_mem [] h = refl
  all_of_mem (x ∷ xs) h =
      ground (arith, h x (Memᴰ.head refl), all_of_mem xs (λ y m. h y (Memᴰ.tail m)))

  any_cons :
      (x : A) (xs : List A)
      → (b : Bool) → p x ≡ b
      → (any p xs ≡ true → (y : A) × Memᴰ y xs × (p y ≡ true))
      → any p (x ∷ xs) ≡ true
      → (y : A) × Memᴰ y (x ∷ xs) × (p y ≡ true)
  unfolding any
  any_cons x xs true e ih h = (x, Memᴰ.head refl, e)
  any_cons x xs false e ih h = let (y, m, q) = ih (ground arith) in (y, Memᴰ.tail m, q)

  pub any_witness : (xs : List A) → any p xs ≡ true → (x : A) × Memᴰ x xs × (p x ≡ true)
  unfolding any
  any_witness [] h = absurd (ground arith)
  any_witness (x ∷ xs) h = any_cons x xs (p x) refl (any_witness xs) h

  all_cons :
      (x : A) (xs : List A)
      → (b : Bool) → p x ≡ b
      → (all p xs ≡ false → (y : A) × Memᴰ y xs × (p y ≡ false))
      → all p (x ∷ xs) ≡ false
      → (y : A) × Memᴰ y (x ∷ xs) × (p y ≡ false)
  unfolding all
  all_cons x xs false e ih h = (x, Memᴰ.head refl, e)
  all_cons x xs true e ih h = let (y, m, q) = ih (ground arith) in (y, Memᴰ.tail m, q)

  pub all_witness : (xs : List A) → all p xs ≡ false → (x : A) × Memᴰ x xs × (p x ≡ false)
  unfolding all
  all_witness [] h = absurd (ground arith)
  all_witness (x ∷ xs) h = all_cons x xs (p x) refl (all_witness xs) h

  pub any-perm : {xs ys : List A} → Permᴰ xs ys → any p xs ≡ any p ys
  unfolding any
  any-perm Permᴰ.nil = refl
  any-perm (Permᴰ.cons e q) = ground (arith, e, any-perm q)
  any-perm (Permᴰ.swap e e') = ground (arith, e, e')
  any-perm (Permᴰ.trans q r) = any-perm q ∙ any-perm r

  pub all-perm : {xs ys : List A} → Permᴰ xs ys → all p xs ≡ all p ys
  unfolding all
  all-perm Permᴰ.nil = refl
  all-perm (Permᴰ.cons e q) = ground (arith, e, all-perm q)
  all-perm (Permᴰ.swap e e') = ground (arith, e, e')
  all-perm (Permᴰ.trans q r) = all-perm q ∙ all-perm r

pub any_mono {ℓ} :
    {A : Type ℓ} (p q : A → Bool) (xs : List A)
    → ((x : A) → p x ≡ true → q x ≡ true)
    → any p xs ≡ true
    → any q xs ≡ true
any_mono p q xs h a = let (x, m, e) = any_witness p xs a in any-mem q m (h x e)

pub all-append {ℓ} :
    {A : Type ℓ} (p : A → Bool) (xs ys : List A) → all p (xs ++ ys) ≡ (all p xs && all p ys)
unfolding all
all-append p [] ys = refl
all-append p (x ∷ xs) ys = ground (arith, all-append p xs ys)
