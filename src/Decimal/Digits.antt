-- ===== src/Decimal/Digits.antt =====
-- What printed integers consist of, and that different numbers are printed differently.
use mathlib.Core.Path.{subst}
use go_imapgrab.Base.{
  drop, ◌≢◌, ℕ, zero, suc, ◌/◌, ◌≡◌, refl, sym, ap, ◌∙◌, Bool, true, false, ◌||◌, Option, some, [],
  ◌∷◌, ◌++◌, Bytes, ℤ, pos, negsuc, All, All-append, Bool-cases, inl, inr, arith, ltb, ltb→lt, eqb,
}
use go_imapgrab.Decimal.{digits_fuel, print_ℕ, print_ℤ, is_digit, scan_ℕ}
use go_imapgrab.Decimal.RoundTrip.{scan_ℕ-print_ℕ}

abbrev pub IsDigit : ℕ → Type 0
IsDigit c = is_digit c ≡ true

-- A digit or the sign.
abbrev pub IsNumeric : ℕ → Type 0
IsNumeric c = (is_digit c || eqb c b'-') ≡ true

digits_fuel-All : (f n : ℕ) → All IsDigit (digits_fuel f n)
unfolding digits_fuel
digits_fuel-All zero n = tt
digits_fuel-All (suc f) n = elim (Bool-cases (ltb n 10)) [
  | inl small ↦ rw small (ground (arith, ltb→lt n 10 small))
  | inr large ↦
      rw large
        (All-append IsDigit (digits_fuel f (n / 10)) _ (digits_fuel-All f (n / 10)) (ground arith))
]

pub print_ℕ-All : (n : ℕ) → All IsDigit (print_ℕ n)
unfolding print_ℕ
print_ℕ-All n = digits_fuel-All (suc n) n

IsNumeric-of_digits : (s : Bytes) → All IsDigit s → All IsNumeric s
IsNumeric-of_digits [] h = tt
IsNumeric-of_digits (c ∷ s) h = (ground arith, IsNumeric-of_digits s h.1)

pub print_ℤ-All : (i : ℤ) → All IsNumeric (print_ℤ i)
unfolding print_ℤ
print_ℤ-All (pos n) = IsNumeric-of_digits (print_ℕ n) (print_ℕ-All n)
print_ℤ-All (negsuc n) = (refl, IsNumeric-of_digits (print_ℕ (suc n)) (print_ℕ-All (suc n)))

-- A text of one kind of bytes and what follows it, from a byte of another kind on, are determined
-- by the whole.
pub split_unique :
    (p : ℕ → Bool) (a b x y : Bytes) (c : ℕ)
    → p c ≡ false
    → All (λ d. p d ≡ true) a
    → All (λ d. p d ≡ true) b
    → a ++ c ∷ x ≡ b ++ c ∷ y
    → (a ≡ b) × (x ≡ y)
split_unique p [] [] x y c n ha hb e = (refl, cc)
split_unique p [] (d ∷ b) x y c n ha hb e =
    let same : c ≡ d = cc in absurd (ground (arith, ap p same))
split_unique p (d ∷ a) [] x y c n ha hb e =
    let same : d ≡ c = cc in absurd (ground (arith, ap p same))
split_unique p (d ∷ a) (d' ∷ b) x y c n ha hb e =
    let rest : a ++ c ∷ x ≡ b ++ c ∷ y = cc in
    let (same, after) = split_unique p a b x y c n ha.1 hb.1 rest in (cc, after)

some_inj : (n m : ℕ) → ◌≡◌ {A = Option (ℕ × Bytes)} (some (n, [])) (some (m, [])) → n ≡ m
some_inj n m e = ground arith

pub print_ℕ_injective : (n m : ℕ) → print_ℕ n ≡ print_ℕ m → n ≡ m
print_ℕ_injective n m e =
    some_inj n m (
      sym (scan_ℕ-print_ℕ n [] tt)
      ∙ ap (λ (s : Bytes). scan_ℕ (s ++ [])) e
      ∙ scan_ℕ-print_ℕ m [] tt)

-- A printed number begins with a digit, so no sign.
no_sign : (n : ℕ) (s : Bytes) → print_ℕ n ≢ b'-' ∷ s
no_sign n s e = let h = subst (All IsDigit) e (print_ℕ-All n) in ground arith

pub print_ℤ_injective : (i j : ℤ) → print_ℤ i ≡ print_ℤ j → i ≡ j
unfolding print_ℤ
print_ℤ_injective (pos n) (pos m) e = ap pos (print_ℕ_injective n m e)
print_ℤ_injective (pos n) (negsuc m) e = absurd (no_sign n (print_ℕ (suc m)) e)
print_ℤ_injective (negsuc n) (pos m) e = absurd (no_sign m (print_ℕ (suc n)) (sym e))
print_ℤ_injective (negsuc n) (negsuc m) e =
    ap negsuc (omega (arith, print_ℕ_injective (suc n) (suc m) (ap (drop 1) e)))
