-- ===== src/Prelude/Table.antt =====
-- A table of a database: its rows in the order of insertion, read and written as SQLite does.
use Prim.Native.Nat.{ℕ, ◌+◌}
use mathlib.Core.Path.{◌≡◌, refl}
use mathlib.Core.Bool.{Bool, true, false, ◌||◌}
use mathlib.Core.Option.{Option, none, some}
use mathlib.Core.List.{List, [], ◌∷◌, ◌++◌, Memᴰ}
use native.Mathlib.Omega.{arith}
use mathlib.Core.Logic.{inl, inr}
use incubator_hugegraph_ai.Prelude.Lists.{any}
use incubator_hugegraph_ai.Prelude.Tests.{if◌then◌else◌, Bool-cases}

module _ {ℓ} {A : Type ℓ} where
  -- `SELECT * … WHERE p`, with `fetchone`
  unfoldable pub find : (A → Bool) → List A → Option A
  find p [] = none
  find p (x ∷ xs) = if p x then some x else find p xs

  -- `SELECT * … WHERE p`, with `fetchall`
  unfoldable pub select : (A → Bool) → List A → List A
  select p [] = []
  select p (x ∷ xs) = let rest = select p xs in if p x then x ∷ rest else rest

  -- `UPDATE … SET f WHERE p`
  unfoldable pub update_where : (A → Bool) → (A → A) → List A → List A
  update_where p f [] = []
  update_where p f (x ∷ xs) = (if p x then f x else x) ∷ update_where p f xs

  -- the `rowcount` of an `UPDATE … WHERE p`
  unfoldable pub count_where : (A → Bool) → List A → ℕ
  count_where p [] = 0
  count_where p (x ∷ xs) = (if p x then 1 else 0) + count_where p xs

  -- `DELETE … WHERE p`
  unfoldable pub delete_where : (A → Bool) → List A → List A
  delete_where p [] = []
  delete_where p (x ∷ xs) = let rest = delete_where p xs in if p x then rest else x ∷ rest

-- What an update makes of one row.
abbrev pub updated {ℓ} : {A : Type ℓ} → (A → Bool) → (A → A) → A → A
updated p f x = if p x then f x else x

abbrev pub is_some {ℓ} : {A : Type ℓ} → Option A → Bool
is_some none = false
is_some (some _) = true

abbrev pub or_else {ℓ} : {A : Type ℓ} → Option A → Option A → Option A
or_else none o = o
or_else (some a) o = some a

abbrev pub map_option {ℓ κ} : {A : Type ℓ} {B : Type κ} → (A → B) → Option A → Option B
map_option f none = none
map_option f (some a) = some (f a)

module _ {ℓ} {A : Type ℓ} where
  -- An update that keeps what the search tests is seen by the search as an update of its result.
  pub find-update :
      (p q : A → Bool) (f : A → A) (xs : List A)
      → ((x : A) → p (updated q f x) ≡ p x)
      → find p (update_where q f xs) ≡ map_option (updated q f) (find p xs)
  unfolding find update_where
  find-update p q f [] h = refl
  find-update p q f (x ∷ xs) h = rw (h x) (ground (arith, find-update p q f xs h, Bool-cases (p x)))

  pub any-update :
      (p q : A → Bool) (f : A → A) (xs : List A)
      → ((x : A) → p (updated q f x) ≡ p x)
      → any p (update_where q f xs) ≡ any p xs
  unfolding any update_where
  any-update p q f [] h = refl
  any-update p q f (x ∷ xs) h = rw (h x, any-update p q f xs h)

  -- A row that is found is found again after a deletion that spares it.
  pub find-delete :
      (p q : A → Bool) (xs : List A) {x : A}
      → find p xs ≡ some x
      → q x ≡ false
      → find p (delete_where q xs) ≡ some x
  unfolding find delete_where
  find-delete p q [] e h = cc
  find-delete p q (y ∷ ys) {x} e h = elim (Bool-cases (p y)) [
    | inl hit ↦ ground arith
    | inr miss ↦ ground (arith, find-delete p q ys {x = x})
  ]

  pub find-append :
      (p : A → Bool) (xs ys : List A) → find p (xs ++ ys) ≡ or_else (find p xs) (find p ys)
  unfolding find
  find-append p [] ys = refl
  find-append p (x ∷ xs) ys = ground (arith, find-append p xs ys, Bool-cases (p x))

  pub any-append : (p : A → Bool) (xs ys : List A) → any p (xs ++ ys) ≡ (any p xs || any p ys)
  unfolding any
  any-append p [] ys = refl
  any-append p (x ∷ xs) ys = ground (arith, any-append p xs ys)

  pub any-find : (p : A → Bool) (xs : List A) → any p xs ≡ is_some (find p xs)
  unfolding any find
  any-find p [] = refl
  any-find p (x ∷ xs) = ground (arith, any-find p xs, Bool-cases (p x))

  pub find_satisfies : (p : A → Bool) (xs : List A) {x : A} → find p xs ≡ some x → p x ≡ true
  unfolding find
  find_satisfies p [] e = cc
  find_satisfies p (y ∷ ys) {x} e = elim (Bool-cases (p y)) [
    | inl hit ↦ ground arith
    | inr miss ↦ ground (arith, find_satisfies p ys {x = x})
  ]

  pub find_mem : (p : A → Bool) (xs : List A) {x : A} → find p xs ≡ some x → Memᴰ x xs
  unfolding find
  find_mem p [] e = cc
  find_mem p (y ∷ ys) {x} e = elim (Bool-cases (p y)) [
    | inl hit ↦ Memᴰ.head (ground arith)
    | inr miss ↦ Memᴰ.tail (find_mem p ys {x = x} (ground arith))
  ]

  mem_cons_map :
      {x y : A} {xs ys : List A} → (Memᴰ x xs → Memᴰ x ys) → Memᴰ x (y ∷ xs) → Memᴰ x (y ∷ ys)
  mem_cons_map f (Memᴰ.head e) = Memᴰ.head e
  mem_cons_map f (Memᴰ.tail m) = Memᴰ.tail (f m)

  pub mem-delete : (q : A → Bool) (xs : List A) {x : A} → Memᴰ x (delete_where q xs) → Memᴰ x xs
  unfolding delete_where
  mem-delete q [] m = m
  mem-delete q (y ∷ ys) {x} m = elim (Bool-cases (q y)) [
    | inl gone ↦ Memᴰ.tail (mem-delete q ys (rw gone at m))
    | inr stays ↦ mem_cons_map (mem-delete q ys) (rw stays at m)
  ]

  pub any_delete_false :
      (p q : A → Bool) (xs : List A) → any p xs ≡ false → any p (delete_where q xs) ≡ false
  unfolding any delete_where
  any_delete_false p q [] h = refl
  any_delete_false p q (x ∷ xs) h = ground (arith, any_delete_false p q xs, Bool-cases (q x))
