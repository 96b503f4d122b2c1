-- ===== src/Partition.antt =====
-- `partitionFolders` and `intToUint32` of core/core.go.
pub mod Complete
pub mod Balance
use go_imapgrab.Base.{
  ℕ, zero, suc, ◌%◌, ◌^◌, List, [], ◌∷◌, ◌++◌, ℤ, pos, negsuc, Option, none, some, ◌||◌, length,
  ltb, eqb, if◌then◌else◌,
}

-- `numPartitions` after the correction at the start: never more than there are folders, and all
-- of them for what is not positive.
unfoldable pub num_partitions : ℕ → ℤ → ℕ
num_partitions folders (negsuc n) = folders
num_partitions folders (pos n) = if ltb folders n || eqb n 0 then folders else n

abbrev pub replicate {ℓ} : {A : Type ℓ} → ℕ → A → List A
replicate zero a = []
replicate (suc n) a = a ∷ replicate n a

module _ {ℓ} {A : Type ℓ} where
  -- partitions[i] = append(partitions[i], x); `none` is the panic of an index out of range.
  unfoldable pub append_at : ℕ → A → List (List A) → Option (List (List A))
  append_at i x [] = none
  append_at zero x (p ∷ ps) = some ((p ++ x ∷ []) ∷ ps)
  append_at (suc i) x (p ∷ ps) = elim (append_at i x ps) [ none ↦ none | some qs ↦ some (p ∷ qs) ]

  -- The loop, with its counter.
  unfoldable pub distribute : ℕ → ℕ → List A → List (List A) → Option (List (List A))
  distribute num idx [] ps = some ps
  distribute num idx (x ∷ xs) ps = elim (append_at (idx % num) x ps) [
    | none ↦ none
    | some qs ↦ distribute num (suc idx) xs qs
  ]

  unfoldable pub partition_folders : List A → ℤ → Option (List (List A))
  partition_folders folders n =
      let num = num_partitions (length folders) n in distribute num 0 folders (replicate num [])

-- `intToUint32`: `none` is the panic. Go's `int` has 64 bits here.
unfoldable pub int_to_uint32 : ℤ → Option ℕ
int_to_uint32 (negsuc n) = none
int_to_uint32 (pos n) = if ltb n (2 ^ 31) then some n else none
