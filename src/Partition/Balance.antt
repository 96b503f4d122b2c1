-- ===== src/Partition/Balance.antt =====
-- The folders are dealt out evenly.
use mathlib.Core.Path.{subst}
use native.Mathlib.Decide.{dec_lt}
use native.Mathlib.Nat.{mod-eq_of_lt, mul-add-mod_self_right}
use go_imapgrab.Base.{
  ℕ, zero, suc, ◌+◌, ◌*◌, ◌%◌, ◌≤◌, ◌<◌, ◌≡◌, refl, sym, ap, ◌∙◌, List, [], ◌∷◌, ℤ, some, length,
  length-append, All, Option-cases, inl, inr, arith,
}
use go_imapgrab.Partition.{num_partitions, replicate, append_at, distribute, partition_folders}
use go_imapgrab.Partition.Complete.{
  length-replicate, num_partitions_pos, append_at_total, distribute_step, partition_folders_nil,
}

-- The first `r` partitions hold `q + 1` folders, the others `q`.
abbrev Loads {ℓ} : {A : Type ℓ} → ℕ → ℕ → List (List A) → Type 0
Loads q r [] = Unit
Loads q zero (p ∷ ps) = (length p ≡ q) × Loads q 0 ps
Loads q (suc r) (p ∷ ps) = (length p ≡ suc q) × Loads q r ps

Loads-replicate {ℓ} : (A : Type ℓ) (n : ℕ) → Loads 0 0 (replicate {A = List A} n [])
Loads-replicate A zero = tt
Loads-replicate A (suc n) = (refl, Loads-replicate A n)

module _ {ℓ} {A : Type ℓ} where
  append_at_inv :
      (i : ℕ) (x : A) (p : List A) (ps qs : List (List A))
      → append_at (suc i) x (p ∷ ps) ≡ some qs
      → (ps' : List (List A)) × (append_at i x ps ≡ some ps') × (qs ≡ p ∷ ps')
  unfolding append_at
  append_at_inv i x p ps qs e = elim (Option-cases (append_at i x ps)) [
    | inl n ↦ cc
    | inr (ps', y) ↦ (ps', y, ground arith)
  ]

  Loads-append_at :
      (q r : ℕ) (x : A) (ps qs : List (List A))
      → Loads q r ps
      → append_at r x ps ≡ some qs
      → Loads q (suc r) qs × (length qs ≡ length ps)
  unfolding append_at
  Loads-append_at q r x [] qs h e = cc
  Loads-append_at q zero x (p ∷ ps) qs h e = ground (arith, length-append p (x ∷ []))
  Loads-append_at q (suc r) x (p ∷ ps) qs h e =
      let (ps', e', same) = append_at_inv r x p ps qs e in
      let (loads, l) = Loads-append_at q r x ps ps' h.1 e' in rw same ((h.0, loads), ap suc l)

  Loads-wrap : (q r : ℕ) (ps : List (List A)) → length ps ≤ r → Loads q r ps → Loads (suc q) 0 ps
  Loads-wrap q r [] le h = tt
  Loads-wrap q zero (p ∷ ps) le h = absurd (omega arith)
  Loads-wrap q (suc r) (p ∷ ps) le h = (h.0, Loads-wrap q r ps (omega arith) h.1)

  Loads-All :
      (q r : ℕ) (ps : List (List A))
      → Loads q r ps
      → All (λ p. (q ≤ length p) × (length p ≤ q + 1)) ps
  Loads-All q r [] h = tt
  Loads-All q zero (p ∷ ps) h = (omega arith, Loads-All q 0 ps h.1)
  Loads-All q (suc r) (p ∷ ps) h = (omega arith, Loads-All q r ps h.1)

  Loads-distribute :
      (num q r : ℕ) (xs : List A) (ps qs : List (List A))
      → r < num
      → length ps ≡ num
      → Loads q r ps
      → distribute num (q * num + r) xs ps ≡ some qs
      → (k : ℕ) × All (λ p. (k ≤ length p) × (length p ≤ k + 1)) qs
  Loads-distribute num q r [] ps qs lt l h e = (
    q,
    unfold distribute in
        subst (All (λ p. (q ≤ length p) × (length p ≤ q + 1))) (ground arith) (Loads-All q r ps h),
  )
  Loads-distribute num q r (x ∷ xs) ps qs lt l h e =
      let index : (q * num + r) % num ≡ r = mul-add-mod_self_right q num r ∙ mod-eq_of_lt lt in
      let (ps', placed, _, _) = append_at_total r x ps (omega arith) in
      let (loads, l') = Loads-append_at q r x ps ps' h placed in
      let rest : distribute num (suc (q * num + r)) xs ps' ≡ some qs =
        sym (distribute_step num (q * num + r) x xs ps (ap (λ i. append_at i x ps) index ∙ placed))
        ∙ e in
      elim (dec_lt (suc r) num) [
        | yes more ↦
            Loads-distribute num q (suc r) xs ps' qs more (l' ∙ l) loads
              (ap (λ i. distribute num i xs ps') (omega arith) ∙ rest)
        | no full ↦
            Loads-distribute num (suc q) 0 xs ps' qs (omega arith) (l' ∙ l)
              (Loads-wrap q (suc r) ps' (omega arith) loads)
              (ap (λ i. distribute num i xs ps') (omega arith) ∙ rest)
      ]

  -- The numbers of folders in two partitions differ by at most one.
  pub partition_folders_balanced :
      (folders : List A) (n : ℤ) (ps : List (List A))
      → partition_folders folders n ≡ some ps
      → (k : ℕ) × All (λ p. (k ≤ length p) × (length p ≤ k + 1)) ps
  unfolding partition_folders
  partition_folders_balanced [] n [] e = (0, tt)
  partition_folders_balanced [] n (p ∷ ps) e = cc (partition_folders_nil {A = A} n)
  partition_folders_balanced (x ∷ xs) n ps e =
      let num = num_partitions (length (x ∷ xs)) n in
      Loads-distribute num 0 0 (x ∷ xs) (replicate num []) ps
        (num_partitions_pos (length (x ∷ xs)) n (omega arith)) (length-replicate num [])
        (Loads-replicate A num)
        (ap (λ i. distribute num i (x ∷ xs) (replicate num [])) (omega arith) ∙ e)
