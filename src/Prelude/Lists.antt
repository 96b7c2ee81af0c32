-- ===== src/Prelude/Lists.antt =====
-- Lists measured by native numbers, filtered by Boolean tests, and predicates by recursion.
use Prim.Native.Nat.{ℕ, suc}
use mathlib.Core.Path.{◌≡◌, refl}
use mathlib.Core.Bool.{Bool, true, false, ◌||◌}
use mathlib.Core.List.{List, [], ◌∷◌}
use native.Mathlib.Omega.{arith}
use opa_hub.Prelude.Tests.{if◌then◌else◌}

module _ {ℓ} {A : Type ℓ} where
  abbrev pub length : List A → ℕ
  length [] = 0
  length (x ∷ xs) = suc (length xs)

  abbrev pub is_empty : List A → Bool
  is_empty [] = true
  is_empty (x ∷ xs) = false

  -- the `for` loop that appends the items which pass a test
  abbrev pub filter : (A → Bool) → List A → List A
  filter p [] = []
  filter p (x ∷ xs) = let rest = filter p xs in if p x then x ∷ rest else rest

  abbrev pub any : (A → Bool) → List A → Bool
  any p [] = false
  any p (x ∷ xs) = p x || any p xs

  pub filter_all : (p : A → Bool) → ((x : A) → p x ≡ true) → (xs : List A) → filter p xs ≡ xs
  filter_all p h [] = refl
  filter_all p h (x ∷ xs) = ground (arith, h x, filter_all p h xs)

  pub filter_none : (p : A → Bool) → ((x : A) → p x ≡ false) → (xs : List A) → filter p xs ≡ []
  filter_none p h [] = refl
  filter_none p h (x ∷ xs) = ground (arith, h x, filter_none p h xs)

  pub filter_eq :
      (p q : A → Bool) → ((x : A) → p x ≡ q x) → (xs : List A) → filter p xs ≡ filter q xs
  filter_eq p q h [] = refl
  filter_eq p q h (x ∷ xs) = ground (arith, h x, filter_eq p q h xs)

module _ {ℓ κ} {A : Type ℓ} (P : A → Type κ) where
  abbrev pub All : List A → Type κ
  All [] = Unit
  All (x ∷ xs) = P x × All xs

  pub All-filter : (p : A → Bool) → ((x : A) → p x ≡ true → P x) → (xs : List A) → All (filter p xs)
  All-filter p h [] = tt
  All-filter p h (x ∷ xs) = ground (arith, h x, All-filter p h xs)
