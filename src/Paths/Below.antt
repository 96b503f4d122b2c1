-- ===== src/Paths/Below.antt =====
-- Where the maildir of a folder is, below the directory of the maildirs (core/maildir_path.go).
use mathlib.Core.Path.{subst}
use go_imapgrab.Base.{
  ◌≡◌, refl, sym, ap, ◌∙◌, Bool, true, false, not, ◌||◌, Bool-cases, List, [], ◌∷◌, ◌++◌,
  append_assoc, append-nil, Bytes, All, All-append, keep, eqb, ◌==◌, list_eq, nat_eq, elem, arith,
  ◌⊎◌, inl, inr,
}
use go_imapgrab.Paths.{
  dot, dot_dot, split, print_segments, is_rooted, print_path, parent, push, clean_from, rev,
  clean_segments, clean_path, join_paths, MaildirPath, base_path, folder_path,
}

-- A text without a slash.
abbrev Whole : Bytes → Type 0
Whole s = All (λ c. eqb c 47 ≡ false) s

split-cons : (s : Bytes) → (x : Bytes) × (xs : List Bytes) × (split s ≡ x ∷ xs)
split-cons [] = ([], [], refl)
split-cons (c ∷ s) = elim (Bool-cases (eqb c 47)) [
  | inl e ↦ ([], split s, rw e refl)
  | inr e ↦ let (x, xs, i) = split-cons s in (c ∷ x, xs, rw (e, i) refl)
]

split-append : (a b : Bytes) → split (a ++ 47 ∷ b) ≡ split a ++ split b
split-append [] b = refl
split-append (c ∷ a) b = elim (Bool-cases (eqb c 47)) [
  | inl e ↦ rw e (ap (λ xs. [] ∷ xs) (split-append a b))
  | inr e ↦ let (x, xs, i) = split-cons a in rw (e, split-append a b, i) refl
]

split-Whole : (s : Bytes) → Whole s → split s ≡ s ∷ []
split-Whole [] h = refl
split-Whole (c ∷ s) h = rw (h.0, split-Whole s h.1) refl

split-print :
    (x : Bytes) (xs : List Bytes) → All Whole (x ∷ xs) → split (print_segments (x ∷ xs)) ≡ x ∷ xs
split-print x [] h = split-Whole x h.0
split-print x (y ∷ xs) h =
    rw (split-append x (print_segments (y ∷ xs)), split-Whole x h.0, split-print y xs h.1) refl

-- What the code keeps of a path, the last segment first: segments that are neither empty nor `.`,
-- and `..` only at the start of a path that does not start at the root.
abbrev Stack : Bool → List Bytes → Type 0
Stack rooted [] = Unit
Stack rooted (k ∷ ks) =
    Whole k
    × ((k == []) ≡ false)
    × ((k == dot) ≡ false)
    × (((k == dot_dot) ≡ false) ⊎ (parent rooted ks ≡ k ∷ ks))
    × Stack rooted ks

parent-Stack :
    (rooted : Bool) (kept : List Bytes) → Stack rooted kept → Stack rooted (parent rooted kept)
parent-Stack true [] h = tt
parent-Stack false [] h = ((refl, (refl, tt)), refl, refl, inr refl, tt)
parent-Stack rooted (k ∷ ks) h = elim (Bool-cases (k == dot_dot)) [
  | inl t ↦ rw t ((refl, (refl, tt)), refl, refl, inr (rw t refl), h)
  | inr f ↦ let (w, e, d, p, h') = h in rw f h'
]

push-Stack :
    (rooted : Bool) (x : Bytes) (kept : List Bytes)
    → Whole x
    → Stack rooted kept
    → Stack rooted (push rooted x kept)
push-Stack rooted x kept w h = elim (Bool-cases (x == [] || x == dot)) [
  | inl e ↦ rw e h
  | inr e ↦ elim (Bool-cases (x == dot_dot)) [
    | inl d ↦ rw (e, d) (parent-Stack rooted kept h)
    | inr d ↦ rw (e, d) (w, (ground (arith, e)), (ground (arith, e)), inl d, h)
  ]
]

push-same :
    (rooted : Bool) (k : Bytes) (ks : List Bytes)
    → Stack rooted (k ∷ ks)
    → push rooted k ks ≡ k ∷ ks
push-same rooted k ks (w, e, d, p, h) = elim (Bool-cases (k == dot_dot)) [
  | inl t ↦ elim p [ inl f ↦ absurd (ground (arith, t, f)) | inr q ↦ rw (e, d, t) q ]
  | inr f ↦ rw (e, d, f) refl
]

clean_from-append :
    (rooted : Bool) (kept xs ys : List Bytes)
    → clean_from rooted kept (xs ++ ys) ≡ clean_from rooted (clean_from rooted kept xs) ys
clean_from-append rooted kept [] ys = refl
clean_from-append rooted kept (x ∷ xs) ys = clean_from-append rooted (push rooted x kept) xs ys

clean_from-rev :
    (rooted : Bool) (kept : List Bytes) → Stack rooted kept → clean_from rooted [] (rev kept) ≡ kept
clean_from-rev rooted [] h = refl
clean_from-rev rooted (k ∷ ks) (w, e, d, p, h) =
    rw (clean_from-append rooted [] (rev ks) (k ∷ []), clean_from-rev rooted ks h)
      (push-same rooted k ks (w, e, d, p, h))

clean_from-Stack :
    (rooted : Bool) (kept xs : List Bytes)
    → All Whole xs
    → Stack rooted kept
    → Stack rooted (clean_from rooted kept xs)
clean_from-Stack rooted kept [] w h = h
clean_from-Stack rooted kept (x ∷ xs) w h =
    clean_from-Stack rooted (push rooted x kept) xs w.1 (push-Stack rooted x kept w.0 h)

split-pieces : (s : Bytes) → All Whole (split s)
split-pieces [] = (tt, tt)
split-pieces (c ∷ s) = elim (Bool-cases (eqb c 47)) [
  | inl e ↦ rw e (tt, split-pieces s)
  | inr e ↦
      let (x, xs, i) = split-cons s in
      let h = subst (λ ys. All Whole ys) i (split-pieces s) in rw (e, i) ((e, h.0), h.1)
]

abbrev Piece : Bytes → Type 0
Piece x = Whole x × ((x == []) ≡ false)

Stack-pieces : (rooted : Bool) (kept : List Bytes) → Stack rooted kept → All Piece (rev kept)
Stack-pieces rooted [] h = tt
Stack-pieces rooted (k ∷ ks) (w, e, d, p, h) =
    All-append Piece (rev ks) (k ∷ []) (Stack-pieces rooted ks h) ((w, e), tt)

pieces-Whole : (xs : List Bytes) → All Piece xs → All Whole xs
pieces-Whole [] h = tt
pieces-Whole (x ∷ xs) h = (h.0.0, pieces-Whole xs h.1)

-- The segments of a folder that filepath.Clean keeps when there is no `..` among them.
abbrev pub proper : List Bytes → List Bytes
proper xs = keep (λ x. not (x == [] || x == dot)) xs

abbrev pub climbs : Bytes → Bool
climbs folder = elem dot_dot (split folder)

clean_from-proper :
    (rooted : Bool) (kept xs : List Bytes)
    → elem dot_dot xs ≡ false
    → rev (clean_from rooted kept xs) ≡ rev kept ++ proper xs
clean_from-proper rooted kept [] h = sym (append-nil (rev kept))
clean_from-proper rooted kept (x ∷ xs) h = elim (Bool-cases (x == [] || x == dot)) [
  | inl e ↦ rw e (clean_from-proper rooted kept xs (ground (arith, h)))
  | inr e ↦
      let d : (x == dot_dot) ≡ false = ground (arith, h) in
      rw (e, d)
        (clean_from-proper rooted (x ∷ kept) xs (ground (arith, h))
          ∙ append_assoc (rev kept) (x ∷ []) (proper xs))
]

print_path-split :
    (rooted : Bool) (xs : List Bytes)
    → All Whole xs
    → clean_from rooted [] (split (print_path rooted xs)) ≡ clean_from rooted [] xs
print_path-split true [] h = refl
print_path-split false [] h = refl
print_path-split true (x ∷ xs) h = rw (split-print x xs h) refl
print_path-split false (x ∷ xs) h = rw (split-print x xs h) refl

print_path-rooted :
    (rooted : Bool) (xs : List Bytes) (s : Bytes)
    → All Piece xs
    → is_rooted (print_path rooted xs ++ s) ≡ rooted
print_path-rooted true xs s h = refl
print_path-rooted false [] s h = refl
print_path-rooted false ([] ∷ xs) s h = ground (arith, h.0.1)
print_path-rooted false ((c ∷ x) ∷ []) s h = h.0.0.0
print_path-rooted false ((c ∷ x) ∷ y ∷ xs) s h = h.0.0.0

print_path-filled :
    (rooted : Bool) (xs : List Bytes) → All Piece xs → (print_path rooted xs == []) ≡ false
print_path-filled true xs h = refl
print_path-filled false [] h = refl
print_path-filled false ([] ∷ xs) h = ground (arith, h.0.1)
print_path-filled false ((c ∷ x) ∷ []) h = refl
print_path-filled false ((c ∷ x) ∷ y ∷ xs) h = refl

clean-at :
    (s : Bytes) (r : Bool) (xs : List Bytes)
    → is_rooted s ≡ r
    → rev (clean_from r [] (split s)) ≡ xs
    → clean_path s ≡ print_path r xs
unfolding clean_path
clean-at s r xs i e =
    ap (λ q. print_path q (rev (clean_from q [] (split s)))) i ∙ ap (print_path r) e

module _ (base : Bytes) where
  abbrev kept_of : List Bytes
  kept_of = clean_from (is_rooted base) [] (split base)

  base-Stack : Stack (is_rooted base) kept_of
  base-Stack = clean_from-Stack (is_rooted base) [] (split base) (split-pieces base) tt

  base-pieces : All Piece (clean_segments base)
  base-pieces = Stack-pieces (is_rooted base) kept_of base-Stack

  -- Cleaning the cleaned path again, with more behind it.
  clean-again :
      clean_from (is_rooted base) [] (split (print_path (is_rooted base) (clean_segments base)))
      ≡ kept_of
  clean-again =
      print_path-split (is_rooted base) (clean_segments base)
        (pieces-Whole (clean_segments base) base-pieces)
      ∙ clean_from-rev (is_rooted base) kept_of base-Stack

  below :
      (path folder : Bytes)
      → climbs folder ≡ false
      → clean_from (is_rooted base) [] (split path) ≡ kept_of
      → rev (clean_from (is_rooted base) [] (split (path ++ 47 ∷ folder)))
        ≡ clean_segments base ++ proper (split folder)
  below path folder h e =
      rw
        (
          split-append path folder,
          clean_from-append (is_rooted base) [] (split path) (split folder),
          e,
        )
        (clean_from-proper (is_rooted base) kept_of (split folder) h)

  join-proper :
      (folder : Bytes)
      → climbs folder ≡ false
      → join_paths (print_path (is_rooted base) (clean_segments base)) folder
        ≡ print_path (is_rooted base) (clean_segments base ++ proper (split folder))
  unfolding join_paths
  join-proper [] h =
      let path = print_path (is_rooted base) (clean_segments base) in
      let i : is_rooted path ≡ is_rooted base =
        ap is_rooted (sym (append-nil path))
        ∙ print_path-rooted (is_rooted base) (clean_segments base) [] base-pieces in
      rw (print_path-filled (is_rooted base) (clean_segments base) base-pieces) (
        clean-at path (is_rooted base) (clean_segments base ++ []) i
          (ap rev clean-again ∙ sym (append-nil (clean_segments base))))
  join-proper (c ∷ folder) h =
      let path = print_path (is_rooted base) (clean_segments base) in
      rw (print_path-filled (is_rooted base) (clean_segments base) base-pieces) (
        clean-at (path ++ 47 ∷ c ∷ folder) (is_rooted base)
          (clean_segments base ++ proper (split (c ∷ folder)))
          (print_path-rooted (is_rooted base) (clean_segments base) (47 ∷ c ∷ folder) base-pieces)
          (below path (c ∷ folder) h clean-again))

-- When no segment of a folder's name is `..`, the path of its maildir has the segments of the
-- cleaned path of the base, and behind them those of the name that are neither empty nor `.`, in
-- order: the maildir is below the base.
pub folder_path_below :
    (p : MaildirPath)
    → climbs p.folder ≡ false
    → (base_path p ≡ print_path (is_rooted p.base) (clean_segments p.base))
      × (folder_path p
          ≡ print_path (is_rooted p.base) (clean_segments p.base ++ proper (split p.folder)))
unfolding base_path folder_path clean_path
folder_path_below p h = (refl, join-proper p.base p.folder h)
