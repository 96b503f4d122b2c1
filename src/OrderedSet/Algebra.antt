-- ===== src/OrderedSet/Algebra.antt =====
-- `union`, `exclusion` and `equal`, whatever order the runtime visits the maps in.
use mathlib.Core.Path.{subst₂}
use mathlib.Core.List.Permᴰ
use mathlib.Core.List.{Permᴰ}
use go_imapgrab.Base.{
  suc, ◌+◌, ◌≤◌, ◌≡◌, ◌↔◌, refl, sym, ap, ◌∙◌, Bool, true, false, not, ◌&&◌, List, [], ◌∷◌, ◌++◌,
  Bytes, ◌==◌, list_eq, nat_eq, eq_list_iff, elem, elem-append, keep, all, length, Bool-cases,
  Bool-ext, inl, inr, arith,
}
use go_imapgrab.Sort.Laws.{elem-Permᴰ}
use go_imapgrab.OrderedSet.{
  Entries, OrderedSet, Iteration, keys, new_ordered_set, has, len, add_all, iterator, union,
  exclusion, equal, IsUnique, IsValid,
}
use go_imapgrab.OrderedSet.Content.{
  has-add_all, has-new, elem-keep, IsUnique-keep, new-IsValid, add_all-IsValid,
}
use go_imapgrab.OrderedSet.Order.{first_occurrences, keys-add_all}

keys-Permᴰ : {d d' : Entries} → Permᴰ d d' → Permᴰ (keys d) (keys d')
keys-Permᴰ Permᴰ.nil = Permᴰ.nil
keys-Permᴰ (Permᴰ.cons e p) = Permᴰ.cons (ap (λ e. e.0) e) (keys-Permᴰ p)
keys-Permᴰ (Permᴰ.swap e f) = Permᴰ.swap (ap (λ e. e.0) e) (ap (λ e. e.0) f)
keys-Permᴰ (Permᴰ.trans p q) = Permᴰ.trans (keys-Permᴰ p) (keys-Permᴰ q)

keep-swap :
    (p : Bytes → Bool) (a b : Bytes) (l : List Bytes)
    → Permᴰ (keep p (a ∷ b ∷ l)) (keep p (b ∷ a ∷ l))
keep-swap p a b l = elim (Bool-cases (p a)) [
  | inl y ↦ elim (Bool-cases (p b)) [
    | inl y' ↦ rw (y, y') (Permᴰ.swap refl refl)
    | inr n' ↦ rw (y, n') (Permᴰ.refl _)
  ]
  | inr n ↦ rw n (Permᴰ.refl _)
]

pub keep-Permᴰ :
    (p : Bytes → Bool) {xs ys : List Bytes} → Permᴰ xs ys → Permᴰ (keep p xs) (keep p ys)
keep-Permᴰ p Permᴰ.nil = Permᴰ.nil
keep-Permᴰ p (Permᴰ.cons {a = a} {b = b} {l₁ = l} {l₂ = m} e q) = elim (Bool-cases (p a)) [
  | inl y ↦ rw (← e, y) (Permᴰ.cons refl (keep-Permᴰ p q))
  | inr n ↦ rw (← e, n) (keep-Permᴰ p q)
]
keep-Permᴰ p (Permᴰ.swap {a = a} {b = b} {l = l} e f) =
    subst₂ (λ u v. Permᴰ (keep p (a ∷ b ∷ l)) (keep p (u ∷ v ∷ l))) f e (keep-swap p a b l)
keep-Permᴰ p (Permᴰ.trans q r) = Permᴰ.trans (keep-Permᴰ p q) (keep-Permᴰ p r)

pub IsUnique-Permᴰ : {xs ys : List Bytes} → Permᴰ xs ys → IsUnique xs → IsUnique ys
IsUnique-Permᴰ Permᴰ.nil u = tt
IsUnique-Permᴰ (Permᴰ.cons {a = a} e p) (f, u) = (rw (← e, ← elem-Permᴰ a p) f, IsUnique-Permᴰ p u)
IsUnique-Permᴰ (Permᴰ.swap {a = a} {b = b} {l = l} e f) u =
    subst₂ (λ v w. IsUnique (v ∷ w ∷ l)) f e (ground (arith, eq_list_iff a b, eq_list_iff b a))
IsUnique-Permᴰ (Permᴰ.trans p q) u = IsUnique-Permᴰ q (IsUnique-Permᴰ p u)

first_occurrences_unique :
    (seen xs : List Bytes)
    → IsUnique xs
    → ((j : Bytes) → elem j xs ≡ true → elem j seen ≡ false)
    → first_occurrences seen xs ≡ xs
unfolding first_occurrences
first_occurrences_unique seen [] u h = refl
first_occurrences_unique seen (x ∷ xs) (f, u) h =
    let new : elem x seen ≡ false = h x (ground (arith, eq_list_iff x x)) in
    let ih =
      first_occurrences_unique (seen ++ x ∷ []) xs u
        (λ j m. ground (arith, elem-append j seen (x ∷ []), h j, eq_list_iff x j)) in
    rw (new, ih)

iterator-IsUnique : (it : Iteration) (s : OrderedSet) → IsValid s → IsUnique (iterator it s)
iterator-IsUnique it s v =
    IsUnique-Permᴰ (keys-Permᴰ (Permᴰ.symm (it.visit_perm s.entries))) v.unique

module _ (it : Iteration) (s other : OrderedSet) where
  elem-iterator : (j : Bytes) → elem j (iterator it s) ≡ has s j
  unfolding has
  elem-iterator j = elem-Permᴰ j (keys-Permᴰ (it.visit_perm s.entries))

  has_kept :
      (p : Bytes → Bool) (j : Bytes)
      → has (add_all new_ordered_set (keep p (iterator it s))) j ≡ (has s j && p j)
  has_kept p j = rw (
    has-add_all (keep p (iterator it s)) new_ordered_set j,
    has-new j,
    elem-keep p (iterator it s) j,
    elem-iterator j,
  )

  -- `union` holds the texts of the receiver that the other set holds too.
  pub has-union : (j : Bytes) → has (union it s other) j ≡ (has s j && has other j)
  unfolding union
  has-union j = has_kept (has other) j

  -- `exclusion` holds the texts of the receiver that the other set does not hold.
  pub has-exclusion : (j : Bytes) → has (exclusion it s other) j ≡ (has s j && not (has other j))
  unfolding exclusion
  has-exclusion j = has_kept (λ k. not (has other k)) j

  pub union-IsValid : IsValid (union it s other)
  unfolding union
  union-IsValid = add_all-IsValid (keep (has other) (iterator it s)) new_ordered_set new-IsValid

  pub exclusion-IsValid : IsValid (exclusion it s other)
  unfolding exclusion
  exclusion-IsValid =
      add_all-IsValid (keep (λ k. not (has other k)) (iterator it s)) new_ordered_set new-IsValid

  -- The entries of a union are those of the receiver that the other set holds, in some order.
  pub keys-union :
      IsValid s → Permᴰ (keys (union it s other).entries) (keep (has other) (keys s.entries))
  unfolding union new_ordered_set
  keys-union v =
      rw
        (
          keys-add_all (keep (has other) (iterator it s)) new_ordered_set,
          first_occurrences_unique [] (keep (has other) (iterator it s))
              (IsUnique-keep (has other) (iterator it s) (iterator-IsUnique it s v)) (λ j h. refl),
        )
        (keep-Permᴰ (has other) (keys-Permᴰ (it.visit_perm s.entries)))

-- Every text of the first list is in the second.
abbrev IsWithin : List Bytes → List Bytes → Type 0
IsWithin xs ys = (j : Bytes) → elem j xs ≡ true → elem j ys ≡ true

length-keep_absent :
    (x : Bytes) (ys : List Bytes)
    → elem x ys ≡ false
    → length (keep (λ j. not (j == x)) ys) ≡ length ys
length-keep_absent x [] m = refl
length-keep_absent x (y ∷ ys) m = ground (arith, length-keep_absent x ys)

length-keep_ne :
    (x : Bytes) (ys : List Bytes)
    → IsUnique ys
    → elem x ys ≡ true
    → length (keep (λ j. not (j == x)) ys) + 1 ≡ length ys
length-keep_ne x [] u m = cc
length-keep_ne x (y ∷ ys) (f, u) m = elim (Bool-cases (y == x)) [
  | inl e ↦ rw e (omega (arith, length-keep_absent x ys (ground (arith, eq_list_iff y x))))
  | inr n ↦ rw n (omega (arith, length-keep_ne x ys u (ground arith)))
]

-- A unique list within another is no longer than it, and if it is as long it holds as much.
pigeonhole :
    (xs ys : List Bytes)
    → IsUnique xs
    → IsUnique ys
    → IsWithin xs ys
    → (length xs ≤ length ys) × (length ys ≤ length xs → IsWithin ys xs)
pigeonhole [] [] u v w = (omega arith, λ h j m. m)
pigeonhole [] (y ∷ ys) u v w = (omega arith, λ h. absurd (omega arith))
pigeonhole (x ∷ xs) ys (f, u) v w =
    let member : elem x ys ≡ true = w x (ground (arith, eq_list_iff x x)) in
    let rest = keep (λ j. not (j == x)) ys in
    let shorter = length-keep_ne x ys v member in
    let (le, back) =
      pigeonhole xs rest u (IsUnique-keep (λ j. not (j == x)) ys v)
        (λ j m. rw (elem-keep (λ i. not (i == x)) ys j) (ground (arith, w j, eq_list_iff j x))) in
    (
      omega arith,
      λ h j m. elim (Bool-cases (x == j)) [
        | inl e ↦ rw e refl
        | inr n ↦
            let found = back (omega arith) j (
              rw (elem-keep (λ i. not (i == x)) ys j)
                (ground (arith, eq_list_iff j x, eq_list_iff x j))) in
            ground arith
      ],
    )

all-elem :
    (p : Bytes → Bool) (xs : List Bytes)
    → (all p xs ≡ true → (j : Bytes) → elem j xs ≡ true → p j ≡ true)
      × (((j : Bytes) → elem j xs ≡ true → p j ≡ true) → all p xs ≡ true)
all-elem p [] = (λ h j m. cc, λ h. refl)
all-elem p (x ∷ xs) = (
  λ h j m. ground (arith, (all-elem p xs).0 (ground arith) j, eq_list_iff x j),
  λ h. ground (arith, h x, eq_list_iff x x, (all-elem p xs).1 (λ j m. h j (ground arith))),
)

length-keys : (d : Entries) → length (keys d) ≡ length d
length-keys [] = refl
length-keys (e ∷ d) = ap suc (length-keys d)

module _ (it : Iteration) (s other : OrderedSet) (v : IsValid s) (w : IsValid other) where
  equal_sound : equal it s other ≡ true → (j : Bytes) → has s j ≡ has other j
  unfolding equal len has
  equal_sound h j =
      let within : IsWithin (keys s.entries) (keys other.entries) = λ i m.
        (all-elem (has other) (iterator it s)).0 (ground arith) i
          (elem-iterator it s other i ∙ m) in
      let (le, back) = pigeonhole (keys s.entries) (keys other.entries) v.unique w.unique within in
      Bool-ext (has s j) (has other j) (within j)
        (back (ground (arith, length-keys s.entries, length-keys other.entries)) j)

  equal_complete : ((j : Bytes) → has s j ≡ has other j) → equal it s other ≡ true
  unfolding equal len has
  equal_complete h =
      let (le, _) =
        pigeonhole (keys s.entries) (keys other.entries) v.unique w.unique (λ i m. sym (h i) ∙ m) in
      let (ge, _) =
        pigeonhole (keys other.entries) (keys s.entries) w.unique v.unique (λ i m. h i ∙ m) in
      let held =
        (all-elem (has other) (iterator it s)).1
          (λ i m. sym (h i) ∙ (sym (elem-iterator it s other i) ∙ m)) in
      ground (arith, length-keys s.entries, length-keys other.entries)

  -- `equal` holds exactly when the two sets hold the same texts, whatever their order.
  pub equal_iff : (equal it s other ≡ true) ↔ ((j : Bytes) → has s j ≡ has other j)
  equal_iff = (equal_sound, equal_complete)
