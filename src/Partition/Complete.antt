-- ===== src/Partition/Complete.antt =====
-- No folder is lost or taken twice, and no index is out of range.
use mathlib.Core.List.Permᴰ
use mathlib.Core.List.{Permᴰ, flatten}
use native.Mathlib.Nat.{mod-lt}
use go_imapgrab.Base.{
  ℕ, zero, suc, ◌%◌, ◌≤◌, ◌<◌, ◌≡◌, refl, sym, ap, ◌∙◌, List, [], ◌∷◌, ◌++◌, append_assoc,
  append-nil, ℤ, pos, some, length, arith,
}
use go_imapgrab.Partition.{num_partitions, replicate, append_at, distribute, partition_folders}

pub length-replicate {ℓ} : {A : Type ℓ} (n : ℕ) (a : A) → length (replicate n a) ≡ n
length-replicate zero a = refl
length-replicate (suc n) a = ap suc (length-replicate n a)

pub num_partitions_pos : (folders : ℕ) (n : ℤ) → 0 < folders → 0 < num_partitions folders n
unfolding num_partitions
num_partitions_pos folders n h = ground arith

pub num_partitions_zero : (n : ℤ) → num_partitions 0 n ≡ 0
unfolding num_partitions
num_partitions_zero n = ground arith

-- There are never more partitions than folders, nor more than asked for if that is positive.
pub num_partitions-le :
    (folders : ℕ) (n : ℤ)
    → (num_partitions folders n ≤ folders)
      × ((k : ℕ) → n ≡ pos (suc k) → num_partitions folders n ≤ suc k)
unfolding num_partitions
num_partitions-le folders n = (ground arith, λ k e. ground arith)

module _ {ℓ} {A : Type ℓ} where
  pub append_at_total :
      (i : ℕ) (x : A) (ps : List (List A))
      → i < length ps
      → (qs : List (List A)) × (append_at i x ps ≡ some qs)
        × (length qs ≡ length ps)
        × Permᴰ (flatten qs) (x ∷ flatten ps)
  unfolding append_at flatten
  append_at_total i x [] h = absurd (omega arith)
  append_at_total zero x (p ∷ ps) h =
      ((p ++ x ∷ []) ∷ ps, refl, refl, rw append_assoc (Permᴰ.middle x p (flatten ps)))
  append_at_total (suc i) x (p ∷ ps) h =
      let (qs, e, l, perm) = append_at_total i x ps (omega arith) in
      (
        p ∷ qs,
        rw e,
        ap suc l,
        Permᴰ.trans (Permᴰ.append_left p perm) (Permᴰ.middle x p (flatten ps)),
      )

  pub distribute_step :
      (num idx : ℕ) (x : A) (xs : List A) (ps : List (List A)) {qs : List (List A)}
      → append_at (idx % num) x ps ≡ some qs
      → distribute num idx (x ∷ xs) ps ≡ distribute num (suc idx) xs qs
  unfolding distribute
  distribute_step num idx x xs ps e = rw (e, distribute)

  distribute_total :
      (num idx : ℕ) (xs : List A) (ps : List (List A))
      → 0 < num
      → length ps ≡ num
      → (qs : List (List A)) × (distribute num idx xs ps ≡ some qs)
        × (length qs ≡ num)
        × Permᴰ (flatten qs) (xs ++ flatten ps)
  unfolding distribute
  distribute_total num idx [] ps h l = (ps, refl, l, Permᴰ.refl _)
  distribute_total num idx (x ∷ xs) ps h l =
      let (ps', e, l', perm) = append_at_total (idx % num) x ps (omega (arith, mod-lt idx h)) in
      let (qs, e', l'', perm') = distribute_total num (suc idx) xs ps' h (omega arith) in
      (
        qs,
        distribute_step num idx x xs ps e ∙ e',
        l'',
        Permᴰ.trans perm'
            (Permᴰ.trans (Permᴰ.append_left xs perm) (Permᴰ.middle x xs (flatten ps))),
      )

  flatten-replicate : (n : ℕ) → flatten (replicate {A = List A} n []) ≡ []
  unfolding flatten
  flatten-replicate zero = refl
  flatten-replicate (suc n) = flatten-replicate n

  pub partition_folders_nil : (n : ℤ) → partition_folders {A = A} [] n ≡ some []
  unfolding partition_folders distribute
  partition_folders_nil n = rw (num_partitions_zero n)

  -- Partitioning never indexes out of range. It gives as many partitions as computed, and together
  -- they hold exactly the given folders, each as often as given.
  pub partition_folders_total :
      (folders : List A) (n : ℤ)
      → (ps : List (List A)) × (partition_folders folders n ≡ some ps)
        × (length ps ≡ num_partitions (length folders) n)
        × Permᴰ (flatten ps) folders
  unfolding partition_folders flatten
  partition_folders_total [] n =
      ([], partition_folders_nil n, sym (num_partitions_zero n), Permᴰ.nil)
  partition_folders_total (x ∷ xs) n =
      let num = num_partitions (length (x ∷ xs)) n in
      let (ps, e, l, perm) =
        distribute_total num 0 (x ∷ xs) (replicate num [])
          (num_partitions_pos (length (x ∷ xs)) n (omega arith)) (length-replicate num []) in
      (ps, e, l, rw (flatten-replicate num, append-nil) at perm)
