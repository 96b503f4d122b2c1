-- ===== src/Sort/Laws.antt =====
-- The sorted list holds the same elements in order, and does not depend on the order of the input.
use mathlib.Core.Path.{subst₂}
use mathlib.Core.List.Permᴰ
use mathlib.Core.List.{Permᴰ}
use go_imapgrab.Base.{
  ◌≡◌, refl, ◌∙◌, sym, Bool, true, false, List, [], ◌∷◌, All, Tested, elem, Bool-cases, inl, inr,
  arith,
}
use go_imapgrab.Sort.{insert, sort, IsSorted}

-- Each two elements of the list, at different places, are related.
abbrev pub Apart {ℓ κ} : {A : Type ℓ} → (A → A → Type κ) → List A → Type κ
Apart R [] = Unit
Apart R (x ∷ xs) = All (R x) xs × Apart R xs

All-Permᴰ {ℓ κ} : {A : Type ℓ} (P : A → Type κ) {xs ys : List A} → Permᴰ xs ys → All P xs → All P ys
All-Permᴰ P Permᴰ.nil h = tt
All-Permᴰ P (Permᴰ.cons e p) (h, hs) = (rw (← e) h, All-Permᴰ P p hs)
All-Permᴰ P (Permᴰ.swap e f) (h, (h', hs)) = (rw (← f) h', (rw (← e) h, hs))
All-Permᴰ P (Permᴰ.trans p q) h = All-Permᴰ P q (All-Permᴰ P p h)

Apart-Permᴰ {ℓ κ} :
    {A : Type ℓ} (R : A → A → Type κ)
    → ((a b : A) → R a b → R b a)
    → {xs ys : List A} → Permᴰ xs ys
    → Apart R xs
    → Apart R ys
Apart-Permᴰ R flip Permᴰ.nil h = tt
Apart-Permᴰ R flip (Permᴰ.cons e p) (h, hs) =
    (All-Permᴰ (R _) p (rw (← e) h), Apart-Permᴰ R flip p hs)
Apart-Permᴰ R flip (Permᴰ.swap {a = a} {b = b} {l = l} e f) ((ab, rest), (bs, hs)) =
    subst₂ (λ u v. Apart R (u ∷ v ∷ l)) f e ((flip a b ab, bs), (rest, hs))
Apart-Permᴰ R flip (Permᴰ.trans p q) h = Apart-Permᴰ R flip q (Apart-Permᴰ R flip p h)

module _ {ℓ} {A : Type ℓ} (le : A → A → Bool) where
  -- Neither of two elements goes before the other by the order of insertion.
  abbrev pub Commute : A → A → Type ℓ
  Commute a b = (l : List A) → insert le a (insert le b l) ≡ insert le b (insert le a l)

  -- The sorted list is the same for every order of the input.
  pub sort-Permᴰ : {xs ys : List A} → Permᴰ xs ys → Apart Commute xs → sort le xs ≡ sort le ys
  unfolding sort
  sort-Permᴰ Permᴰ.nil h = refl
  sort-Permᴰ (Permᴰ.cons e p) (h, hs) = rw (e, sort-Permᴰ p hs)
  sort-Permᴰ (Permᴰ.swap {l = l} e f) ((ab, rest), hs) = rw (← e, ← f) (ab (sort le l))
  sort-Permᴰ (Permᴰ.trans p q) h =
      sort-Permᴰ p h ∙ sort-Permᴰ q (Apart-Permᴰ Commute (λ a b c l. sym (c l)) p h)

  -- A list that is sorted is left as it is.
  pub sort-IsSorted_id : (xs : List A) → IsSorted le xs → sort le xs ≡ xs
  unfolding sort insert
  sort-IsSorted_id [] h = refl
  sort-IsSorted_id (x ∷ []) h = refl
  sort-IsSorted_id (x ∷ y ∷ xs) (h, hs) = rw (sort-IsSorted_id (y ∷ xs) hs, h.0)

  pub insert-Permᴰ : (a : A) (xs : List A) → Permᴰ (insert le a xs) (a ∷ xs)
  unfolding insert
  insert-Permᴰ a [] = Permᴰ.refl _
  insert-Permᴰ a (x ∷ xs) = elim (Bool-cases (le a x)) [
    | inl e ↦ rw e (Permᴰ.refl _)
    | inr e ↦ rw e (Permᴰ.trans (Permᴰ.cons refl (insert-Permᴰ a xs)) (Permᴰ.swap refl refl))
  ]

  -- Sorting moves elements and loses none.
  pub sort-permᴰ : (xs : List A) → Permᴰ (sort le xs) xs
  unfolding sort
  sort-permᴰ [] = Permᴰ.nil
  sort-permᴰ (x ∷ xs) = Permᴰ.trans (insert-Permᴰ x (sort le xs)) (Permᴰ.cons refl (sort-permᴰ xs))

  module _ (le_total : (a b : A) → le a b ≡ false → le b a ≡ true)
      (le_trans : (a b c : A) → le a b ≡ true → le b c ≡ true → le a c ≡ true) where
    All-insert : (P : A → Type ℓ) (a : A) (xs : List A) → P a → All P xs → All P (insert le a xs)
    All-insert P a xs h hs = All-Permᴰ P (Permᴰ.symm (insert-Permᴰ a xs)) (h, hs)

    All-le_trans :
        (a x : A) (xs : List A)
        → le a x ≡ true
        → All (λ y. le x y ≡ true) xs
        → All (λ y. le a y ≡ true) xs
    All-le_trans a x [] h hs = tt
    All-le_trans a x (y ∷ xs) h hs = (le_trans a x y h hs.0, All-le_trans a x xs h hs.1)

    insert-IsSorted : (a : A) (xs : List A) → IsSorted le xs → IsSorted le (insert le a xs)
    unfolding insert
    insert-IsSorted a [] h = (tt, tt)
    insert-IsSorted a (x ∷ xs) h = elim (Bool-cases (le a x)) [
      | inl e ↦ rw e ((e, All-le_trans a x xs e h.0), h)
      | inr e ↦ rw e (
        All-Permᴰ (λ y. le x y ≡ true) (Permᴰ.symm (insert-Permᴰ a xs)) (le_total a x e, h.0),
        insert-IsSorted a xs h.1,
      )
    ]

    -- The sorted list is in order.
    pub sort-IsSorted : (xs : List A) → IsSorted le (sort le xs)
    unfolding sort
    sort-IsSorted [] = tt
    sort-IsSorted (x ∷ xs) = insert-IsSorted x (sort le xs) (sort-IsSorted xs)

module _ {ℓ} {A : Type ℓ} ⦃tests : Tested A⦄ where
  -- A test of membership does not see the order.
  pub elem-Permᴰ : (a : A) {xs ys : List A} → Permᴰ xs ys → elem a xs ≡ elem a ys
  elem-Permᴰ a Permᴰ.nil = refl
  elem-Permᴰ a (Permᴰ.cons p q) = rw (p, elem-Permᴰ a q)
  elem-Permᴰ a (Permᴰ.swap p q) = rw (p, q) (ground arith)
  elem-Permᴰ a (Permᴰ.trans p q) = elem-Permᴰ a p ∙ elem-Permᴰ a q
