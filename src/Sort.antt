-- ===== src/Sort.antt =====
-- `sort.Strings` and `sort.Slice` of Go's library, as insertion sort. Where the order is total on
-- the elements every sorting algorithm gives the same list (Sort/Laws).
pub mod Laws
pub mod Strings
use go_imapgrab.Base.{ℕ, ◌+◌, ◌≡◌, Bool, true, List, [], ◌∷◌, All, if◌then◌else◌}

module _ {ℓ} {A : Type ℓ} (le : A → A → Bool) where
  unfoldable pub insert : A → List A → List A
  insert a [] = a ∷ []
  insert a (x ∷ xs) = if le a x then a ∷ x ∷ xs else x ∷ insert a xs

  unfoldable pub sort : List A → List A
  sort [] = []
  sort (x ∷ xs) = insert x (sort xs)

  abbrev pub IsSorted : List A → Type ℓ
  IsSorted [] = Unit
  IsSorted (x ∷ xs) = All (λ y. le x y ≡ true) xs × IsSorted xs
