-- ===== src/Base/Equality.antt =====
-- Equality tests as an interface, with instances for numbers, integers and lists; `elem`.
use Prim.Native.Nat.{ℕ}
use mathlib.Core.Path.{◌≡◌, refl}
use mathlib.Core.Logic.{◌↔◌, ◌≢◌}
use mathlib.Core.Bool.{Bool, true, false, ◌&&◌, ◌||◌}
use mathlib.Core.List.{List, [], ◌∷◌, ◌++◌}
use native.Mathlib.Omega.{arith}
use go_imapgrab.Base.Tests.{eqb, eqb_iff}

-- Go's `int`, without its bounds. `negsuc n` is -(n + 1).
pub data ℤ : Type 0 where
  pos : ℕ → ℤ
  negsuc : ℕ → ℤ

abbrev pub eq_ℤ : ℤ → ℤ → Bool
eq_ℤ (pos a) (pos b) = eqb a b
eq_ℤ (negsuc a) (negsuc b) = eqb a b
eq_ℤ _ _ = false

pub eq_ℤ_iff : (a b : ℤ) → (eq_ℤ a b ≡ true) ↔ (a ≡ b)
eq_ℤ_iff a b = ground arith

-- `test` decides whether two values are equal.
pub record Tested {ℓ} (A : Type ℓ) : Type ℓ where
  pub test : A → A → Bool
  pub test_iff : (left right : A) → (test left right ≡ true) ↔ (left ≡ right)

instance abbrev pub int_eq : Tested ℤ
int_eq = record { test = eq_ℤ; test_iff = eq_ℤ_iff }

instance abbrev pub nat_eq : Tested ℕ
nat_eq = record { test = eqb; test_iff = eqb_iff }

infix 50 ◌==◌
abbrev pub ◌==◌ {ℓ} : {A : Type ℓ} ⦃tests : Tested A⦄ (left right : A) → Bool
◌==◌ ⦃tests⦄ left right = tests.test left right

module _ {ℓ} {A : Type ℓ} ⦃tests : Tested A⦄ where
  abbrev pub eq_list : List A → List A → Bool
  eq_list [] [] = true
  eq_list (x ∷ xs) (y ∷ ys) = (x == y) && eq_list xs ys
  eq_list _ _ = false

  pub eq_list_iff : (xs ys : List A) → (eq_list xs ys ≡ true) ↔ (xs ≡ ys)
  eq_list_iff [] [] = ground arith
  eq_list_iff [] (y ∷ ys) = ground arith
  eq_list_iff (x ∷ xs) [] = ground arith
  eq_list_iff (x ∷ xs) (y ∷ ys) = ground (arith, tests.test_iff x y, eq_list_iff xs ys)

  instance abbrev pub list_eq : Tested (List A)
  list_eq = record { test = eq_list; test_iff = eq_list_iff }

  pub eq_refl : (a : A) → (a == a) ≡ true
  eq_refl a = (tests.test_iff a a).1 refl

  pub eq_ne : (a b : A) → a ≢ b → (a == b) ≡ false
  eq_ne a b h = ground (arith, tests.test_iff a b)

  -- Membership by test.
  abbrev pub elem : A → List A → Bool
  elem a [] = false
  elem a (x ∷ xs) = (x == a) || elem a xs

  pub elem-append : (a : A) (xs ys : List A) → elem a (xs ++ ys) ≡ (elem a xs || elem a ys)
  elem-append a [] ys = refl
  elem-append a (x ∷ xs) ys = ground (arith, elem-append a xs ys)
