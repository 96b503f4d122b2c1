-- ===== src/Decimal/RoundTrip.antt =====
-- A printed integer is scanned back, whatever follows it, as long as that is no digit.
use go_imapgrab.Base.{
  ℕ, zero, suc, ◌+◌, ◌/◌, ◌%◌, ◌<◌, ◌≡◌, refl, true, false, some, [], ◌∷◌, ◌++◌, append_assoc,
  append-nil, sym, ap, ◌∙◌, Bytes, ℤ, pos, negsuc, Bool-cases, inl, inr, arith, ltb, ltb→lt, ltb→le,
}
use go_imapgrab.Decimal.{
  digits_fuel, print_ℕ, print_ℤ, is_digit, scan_digits, scan_ℕ, in_int64, scan_ℤ,
}

-- What may follow a number without being read as part of it.
abbrev pub EndsNumber : Bytes → Type 0
EndsNumber [] = Unit
EndsNumber (c ∷ s) = is_digit c ≡ false

scan_digits_end : (n : ℕ) (rest : Bytes) → EndsNumber rest → scan_digits n rest ≡ (n, rest)
unfolding scan_digits
scan_digits_end n [] h = refl
scan_digits_end n (c ∷ s) h = ground arith

scan_digits-digits_fuel :
    (f n : ℕ) (rest : Bytes) → n < f → scan_digits 0 (digits_fuel f n ++ rest) ≡ scan_digits n rest
unfolding scan_digits digits_fuel
scan_digits-digits_fuel zero n rest h = absurd (omega arith)
scan_digits-digits_fuel (suc f) n rest h = elim (Bool-cases (ltb n 10)) [
  | inl small ↦ rw small (ground (arith, ltb→lt n 10 small))
  | inr large ↦
      rw
        (
          large,
          append_assoc,
          scan_digits-digits_fuel f (n / 10) ((b'0' + n % 10) ∷ rest)
              (ground (arith, ltb→le n 10 large)),
        )
        (ground arith)
]

-- The text begins with a digit.
abbrev pub StartsDigit : Bytes → Type 0
StartsDigit [] = ⊥
StartsDigit (c ∷ s) = is_digit c ≡ true

digits_fuel-StartsDigit : (f n : ℕ) (rest : Bytes) → n < f → StartsDigit (digits_fuel f n ++ rest)
unfolding digits_fuel
digits_fuel-StartsDigit zero n rest h = absurd (omega arith)
digits_fuel-StartsDigit (suc f) n rest h = elim (Bool-cases (ltb n 10)) [
  | inl small ↦ rw small (ground (arith, ltb→lt n 10 small))
  | inr large ↦
      rw (large, append_assoc)
        (digits_fuel-StartsDigit f (n / 10) ((b'0' + n % 10) ∷ rest)
          (ground (arith, ltb→le n 10 large)))
]

pub print_ℕ-StartsDigit : (n : ℕ) (rest : Bytes) → StartsDigit (print_ℕ n ++ rest)
unfolding print_ℕ
print_ℕ-StartsDigit n rest = digits_fuel-StartsDigit (suc n) n rest (omega arith)

scan_ℕ-digits : (s : Bytes) → StartsDigit s → scan_ℕ s ≡ some (scan_digits 0 s)
unfolding scan_ℕ
scan_ℕ-digits [] d = absurd d
scan_ℕ-digits (c ∷ s) d = rw d refl

scan_digits-print_ℕ :
    (n : ℕ) (rest : Bytes) → EndsNumber rest → scan_digits 0 (print_ℕ n ++ rest) ≡ (n, rest)
unfolding print_ℕ
scan_digits-print_ℕ n rest h =
    scan_digits-digits_fuel (suc n) n rest (omega arith) ∙ scan_digits_end n rest h

pub scan_ℕ-print_ℕ :
    (n : ℕ) (rest : Bytes) → EndsNumber rest → scan_ℕ (print_ℕ n ++ rest) ≡ some (n, rest)
scan_ℕ-print_ℕ n rest h =
    scan_ℕ-digits _ (print_ℕ-StartsDigit n rest) ∙ ap some (scan_digits-print_ℕ n rest h)

scan_ℤ_unsigned :
    (s : Bytes) (n : ℕ) (rest : Bytes)
    → StartsDigit s
    → scan_ℕ s ≡ some (n, rest)
    → in_int64 (pos n) ≡ true
    → scan_ℤ s ≡ some (pos n, rest)
unfolding scan_ℤ
scan_ℤ_unsigned [] n rest d e h = absurd d
scan_ℤ_unsigned (c ∷ s) n rest d e h = ground arith

scan_ℤ_negative :
    (s : Bytes) (n : ℕ) (rest : Bytes)
    → scan_ℕ s ≡ some (suc n, rest)
    → in_int64 (negsuc n) ≡ true
    → scan_ℤ (b'-' ∷ s) ≡ some (negsuc n, rest)
unfolding scan_ℤ
scan_ℤ_negative s n rest e h = ground arith

-- `%d` scans back what `%d` printed, for every value of an `int64`.
pub scan_ℤ-print_ℤ :
    (i : ℤ) (rest : Bytes)
    → in_int64 i ≡ true
    → EndsNumber rest
    → scan_ℤ (print_ℤ i ++ rest) ≡ some (i, rest)
scan_ℤ-print_ℤ (pos n) rest fits h =
    unfold print_ℤ in
    scan_ℤ_unsigned _ n rest (print_ℕ-StartsDigit n rest) (scan_ℕ-print_ℕ n rest h) fits
scan_ℤ-print_ℤ (negsuc n) rest fits h =
    unfold print_ℤ in scan_ℤ_negative _ n rest (scan_ℕ-print_ℕ (suc n) rest h) fits

pub scan_ℤ-print_ℤ_end : (i : ℤ) → in_int64 i ≡ true → scan_ℤ (print_ℤ i) ≡ some (i, [])
scan_ℤ-print_ℤ_end i h = ap scan_ℤ (sym (append-nil (print_ℤ i))) ∙ scan_ℤ-print_ℤ i [] h tt
