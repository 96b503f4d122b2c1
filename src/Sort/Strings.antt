-- ===== src/Sort/Strings.antt =====
-- `sort.Strings`: the order of texts by their bytes is total, so the result is determined.
use mathlib.Core.List.{Permᴰ}
use go_imapgrab.Base.{◌≡◌, refl, true, false, List, [], ◌∷◌, Bytes, le_bytes, arith, All}
use go_imapgrab.Sort.{insert, sort, IsSorted}
use go_imapgrab.Sort.Laws.{Apart, Commute, sort-Permᴰ, sort-IsSorted}

le_bytes_total : (s t : Bytes) → le_bytes s t ≡ false → le_bytes t s ≡ true
le_bytes_total [] t h = cc
le_bytes_total (c ∷ s) [] h = refl
le_bytes_total (c ∷ s) (d ∷ t) h = ground (arith, le_bytes_total s t)

le_bytes_trans : (s t u : Bytes) → le_bytes s t ≡ true → le_bytes t u ≡ true → le_bytes s u ≡ true
le_bytes_trans [] t u h k = refl
le_bytes_trans (c ∷ s) [] u h k = cc
le_bytes_trans (c ∷ s) (d ∷ t) [] h k = cc
le_bytes_trans (c ∷ s) (d ∷ t) (f ∷ u) h k = ground (arith, le_bytes_trans s t u)

le_bytes_antisym : (s t : Bytes) → le_bytes s t ≡ true → le_bytes t s ≡ true → s ≡ t
le_bytes_antisym [] [] h k = refl
le_bytes_antisym [] (d ∷ t) h k = cc
le_bytes_antisym (c ∷ s) [] h k = cc
le_bytes_antisym (c ∷ s) (d ∷ t) h k = ground (arith, le_bytes_antisym s t)

le_bytes-Commute : (s t : Bytes) → Commute le_bytes s t
unfolding insert
le_bytes-Commute s t [] = ground (arith, le_bytes_total s t, le_bytes_antisym s t)
le_bytes-Commute s t (u ∷ l) = ground (
  arith,
  le_bytes_total s t,
  le_bytes_antisym s t,
  le_bytes_trans s t u,
  le_bytes_trans t s u,
  le_bytes_total s u,
  le_bytes_total t u,
  le_bytes_trans t u s,
  le_bytes_trans s u t,
  le_bytes-Commute s t l,
)

all_Commute : (xs : List Bytes) → Apart (Commute le_bytes) xs
all_Commute [] = tt
all_Commute (x ∷ xs) = (commutes xs, all_Commute xs)
  where
    commutes : (ys : List Bytes) → All (Commute le_bytes x) ys
    commutes [] = tt
    commutes (y ∷ ys) = (le_bytes-Commute x y, commutes ys)

-- sort.Strings(list)
abbrev pub sort_strings : List Bytes → List Bytes
sort_strings = sort le_bytes

-- The same texts in another order are sorted to the same list.
pub sort_strings-Permᴰ : {xs ys : List Bytes} → Permᴰ xs ys → sort_strings xs ≡ sort_strings ys
sort_strings-Permᴰ {xs} p = sort-Permᴰ le_bytes p (all_Commute xs)

pub sort_strings-IsSorted : (xs : List Bytes) → IsSorted le_bytes (sort_strings xs)
sort_strings-IsSorted = sort-IsSorted le_bytes le_bytes_total le_bytes_trans
