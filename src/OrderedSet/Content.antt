-- ===== src/OrderedSet/Content.antt =====
-- Which texts a set holds after each operation, and that the operations keep a set valid.
use go_imapgrab.Base.{
  ℕ, suc, ◌+◌, ◌≤◌, ◌≡◌, refl, ap, Bool, false, not, ◌&&◌, ◌||◌, List, [], ◌∷◌, ◌++◌, Bytes, ◌==◌,
  list_eq, nat_eq, eq_list_iff, elem, elem-append, keep, Bool-cases, inl, inr, arith, if◌then◌else◌,
}
use go_imapgrab.OrderedSet.{
  Entries, OrderedSet, keys, new_ordered_set, has, add, remove, add_all, remove_all, IsRising,
  IsUnique, IsValid,
}

keys-snoc : (d : Entries) (k : Bytes) (n : ℕ) → keys (d ++ (k, n) ∷ []) ≡ keys d ++ k ∷ []
keys-snoc [] k n = refl
keys-snoc (e ∷ d) k n = ap (◌∷◌ e.0) (keys-snoc d k n)

-- The keys after an insertion, in order: a new key goes to the end.
pub keys-add :
    (s : OrderedSet) (k : Bytes)
    → keys (add s k).entries ≡ (if has s k then keys s.entries else keys s.entries ++ k ∷ [])
unfolding add
keys-add s k = elim (Bool-cases (has s k)) [
  | inl old ↦ rw old
  | inr new ↦ rw new (keys-snoc s.entries k s.order_count)
]

pub has-add : (s : OrderedSet) (k j : Bytes) → has (add s k) j ≡ (has s j || (k == j))
unfolding has
has-add s k j =
    rw keys-add (ground (arith, elem-append j (keys s.entries) (k ∷ []), eq_list_iff k j))

pub keys-remove :
    (d : Entries) (k : Bytes)
    → keys (keep (λ e. not (e.0 == k)) d) ≡ keep (λ j. not (j == k)) (keys d)
keys-remove [] k = refl
keys-remove (e ∷ d) k = ground (arith, keys-remove d k)

pub elem-keep :
    (p : Bytes → Bool) (ks : List Bytes) (j : Bytes) → elem j (keep p ks) ≡ (elem j ks && p j)
elem-keep p [] j = refl
elem-keep p (k ∷ ks) j = ground (arith, elem-keep p ks j, eq_list_iff k j)

pub has-remove : (s : OrderedSet) (k j : Bytes) → has (remove s k) j ≡ (has s j && not (j == k))
unfolding has remove
has-remove s k j = rw (keys-remove s.entries k) (elem-keep (λ i. not (i == k)) (keys s.entries) j)

pub has-new : (j : Bytes) → has new_ordered_set j ≡ false
unfolding has new_ordered_set
has-new j = refl

pub has-add_all :
    (xs : List Bytes) (s : OrderedSet) (j : Bytes) → has (add_all s xs) j ≡ (has s j || elem j xs)
unfolding add_all
has-add_all [] s j = ground arith
has-add_all (x ∷ xs) s j = rw (has-add_all xs (add s x) j, has-add s x j) (ground arith)

pub has-remove_all :
    (xs : List Bytes) (s : OrderedSet) (j : Bytes)
    → has (remove_all s xs) j ≡ (has s j && not (elem j xs))
unfolding remove_all
has-remove_all [] s j = ground arith
has-remove_all (x ∷ xs) s j =
    rw (has-remove_all xs (remove s x) j, has-remove s x j)
      (ground (arith, eq_list_iff j x, eq_list_iff x j))

IsRising-snoc :
    (d : Entries) (low high : ℕ) (k : Bytes)
    → IsRising low d high
    → IsRising low (d ++ (k, high) ∷ []) (high + 1)
IsRising-snoc [] low high k h = omega arith
IsRising-snoc (e ∷ d) low high k (h, hs) = (h, IsRising-snoc d (suc e.1) high k hs)

IsRising-weaken :
    (d : Entries) (low low' high : ℕ) → low' ≤ low → IsRising low d high → IsRising low' d high
IsRising-weaken [] low low' high le h = omega arith
IsRising-weaken (e ∷ d) low low' high le (h, hs) = (omega arith, hs)

IsRising-keep :
    (p : Bytes × ℕ → Bool) (d : Entries) (low high : ℕ)
    → IsRising low d high
    → IsRising low (keep p d) high
IsRising-keep p [] low high h = h
IsRising-keep p (e ∷ d) low high (h, hs) = elim (Bool-cases (p e)) [
  | inl y ↦ rw y (h, IsRising-keep p d (suc e.1) high hs)
  | inr n ↦ rw n (
      IsRising-weaken (keep p d) (suc e.1) low high (omega arith)
        (IsRising-keep p d (suc e.1) high hs))
]

IsUnique-snoc :
    (ks : List Bytes) (k : Bytes) → elem k ks ≡ false → IsUnique ks → IsUnique (ks ++ k ∷ [])
IsUnique-snoc [] k n u = (refl, tt)
IsUnique-snoc (j ∷ ks) k n (f, u) = (
  rw (elem-append j ks (k ∷ [])) (ground (arith, eq_list_iff k j, eq_list_iff j k)),
  IsUnique-snoc ks k (ground arith) u,
)

pub IsUnique-keep : (p : Bytes → Bool) (ks : List Bytes) → IsUnique ks → IsUnique (keep p ks)
IsUnique-keep p [] u = tt
IsUnique-keep p (k ∷ ks) (f, u) = elim (Bool-cases (p k)) [
  | inl y ↦ rw y (rw (elem-keep p ks k, f) refl, IsUnique-keep p ks u)
  | inr n ↦ rw n (IsUnique-keep p ks u)
]

pub new-IsValid : IsValid new_ordered_set
unfolding new_ordered_set
new-IsValid = record { unique = tt; rising = omega arith }

-- Adding a text keeps the set valid.
pub add-IsValid : (s : OrderedSet) (k : Bytes) → IsValid s → IsValid (add s k)
unfolding add has
add-IsValid s k v = elim (Bool-cases (elem k (keys s.entries))) [
  | inl old ↦ rw old v
  | inr new ↦ rw new (record {
    unique =
        rw (keys-snoc s.entries k s.order_count) (IsUnique-snoc (keys s.entries) k new v.unique);
    rising = IsRising-snoc s.entries 0 s.order_count k v.rising;
  })
]

-- Removing a text keeps the set valid.
pub remove-IsValid : (s : OrderedSet) (k : Bytes) → IsValid s → IsValid (remove s k)
unfolding remove
remove-IsValid s k v = record {
  unique =
      rw (keys-remove s.entries k) (IsUnique-keep (λ j. not (j == k)) (keys s.entries) v.unique);
  rising = IsRising-keep (λ e. not (e.0 == k)) s.entries 0 s.order_count v.rising;
}

pub add_all-IsValid : (xs : List Bytes) (s : OrderedSet) → IsValid s → IsValid (add_all s xs)
unfolding add_all
add_all-IsValid [] s v = v
add_all-IsValid (x ∷ xs) s v = add_all-IsValid xs (add s x) (add-IsValid s x v)

pub remove_all-IsValid : (xs : List Bytes) (s : OrderedSet) → IsValid s → IsValid (remove_all s xs)
unfolding remove_all
remove_all-IsValid [] s v = v
remove_all-IsValid (x ∷ xs) s v = remove_all-IsValid xs (remove s x) (remove-IsValid s x v)
