-- ===== src/Oldmail/Lines.antt =====
-- Splitting into lines, and the two byte replacements, undo what the writer did.
use go_imapgrab.Base.{
  ℕ, zero, suc, ◌/◌, ◌^◌, ◌≤◌, ◌<◌, ◌≡◌, ◌≢◌, refl, ap, true, [], ◌∷◌, ◌++◌, append_assoc, Bytes, ℤ,
  pos, negsuc, length, length-append, All, All-append, replace_all, Bool-cases, inl, inr, arith,
  ltb, lt→ltb, eqb,
}
use native.Mathlib.Nat.{pow-suc}
use go_imapgrab.Decimal.{digits_fuel, print_ℤ, in_int64}
use go_imapgrab.Oldmail.{split_lines, drop_cr}

-- What a line of the oldmail format consists of: no control character.
abbrev pub IsVisible : Bytes → Type 0
IsVisible = All (λ c. 33 ≤ c)

digits_fuel-IsVisible : (f n : ℕ) → IsVisible (digits_fuel f n)
unfolding digits_fuel
digits_fuel-IsVisible zero n = tt
digits_fuel-IsVisible (suc f) n = elim (Bool-cases (ltb n 10)) [
  | inl small ↦ rw small (omega arith)
  | inr large ↦ rw large (
      All-append (λ c. 33 ≤ c) (digits_fuel f (n / 10)) _ (digits_fuel-IsVisible f (n / 10))
        (omega arith))
]

pub print_ℤ-IsVisible : (i : ℤ) → IsVisible (print_ℤ i)
unfolding print_ℤ
print_ℤ-IsVisible (pos n) = digits_fuel-IsVisible (suc n) n
print_ℤ-IsVisible (negsuc n) = (omega arith, digits_fuel-IsVisible (suc (suc n)) (suc n))

length-digits_fuel-le : (k f n : ℕ) → n < 10 ^ suc k → length (digits_fuel f n) ≤ suc k
unfolding digits_fuel
length-digits_fuel-le k zero n h = omega arith
length-digits_fuel-le zero (suc f) n h = rw (lt→ltb n 10 h) (omega arith)
length-digits_fuel-le (suc k) (suc f) n h = elim (Bool-cases (ltb n 10)) [
  | inl small ↦ rw small (omega arith)
  | inr large ↦
      rw (large, length-append {0})
        (omega (arith, length-digits_fuel-le k f (n / 10) (omega (arith, pow-suc 10 (suc k)))))
]

pub length-print_ℤ-le : (i : ℤ) → in_int64 i ≡ true → length (print_ℤ i) ≤ 20
unfolding print_ℤ
length-print_ℤ-le (pos n) h = omega (arith, length-digits_fuel-le 18 (suc n) n (ground arith))
length-print_ℤ-le (negsuc n) h =
    omega (arith, length-digits_fuel-le 18 (suc (suc n)) (suc n) (ground arith))

-- Writing `_` as a null byte and reading it back loses nothing, as long as there was no null byte.
pub replace_all-replace_all :
    (s : Bytes) → IsVisible s → replace_all 0 (b'_' ∷ []) (replace_all b'_' (0 ∷ []) s) ≡ s
replace_all-replace_all [] v = refl
replace_all-replace_all (c ∷ s) v = ground (arith, replace_all-replace_all s v.1)

pub replace_all-append :
    (old : ℕ) (new s t : Bytes)
    → replace_all old new (s ++ t) ≡ replace_all old new s ++ replace_all old new t
replace_all-append old new [] t = refl
replace_all-append old new (c ∷ s) t = elim (Bool-cases (eqb c old)) [
  | inl e ↦ rw (e, replace_all-append old new s t, append_assoc)
  | inr e ↦ rw (e, replace_all-append old new s t)
]

-- What the file holds of a line before its newline: neither a newline nor a carriage return.
abbrev pub IsOneLine : Bytes → Type 0
IsOneLine = All (λ c. (c ≢ 10) × (c ≢ 13))

pub replace_all-IsOneLine : (s : Bytes) → IsVisible s → IsOneLine (replace_all b'_' (0 ∷ []) s)
replace_all-IsOneLine [] v = tt
replace_all-IsOneLine (c ∷ s) v = ground (arith, replace_all-IsOneLine s v.1)

pub length-replace_all :
    (s : Bytes) (old new : ℕ) → length (replace_all old (new ∷ []) s) ≡ length s
length-replace_all [] old new = refl
length-replace_all (c ∷ s) old new = ground (arith, length-replace_all s old new)

pub drop_cr-IsOneLine : (s : Bytes) → IsOneLine s → drop_cr s ≡ s
unfolding drop_cr
drop_cr-IsOneLine [] h = refl
drop_cr-IsOneLine (c ∷ []) h = ground arith
drop_cr-IsOneLine (c ∷ d ∷ s) h = ap (◌∷◌ c) (drop_cr-IsOneLine (d ∷ s) h.1)

-- A line and its newline come off the front.
pub split_lines-line :
    (l rest : Bytes) → IsOneLine l → split_lines (l ++ 10 ∷ rest) ≡ l ∷ split_lines rest
unfolding split_lines
split_lines-line [] rest h = refl
split_lines-line (c ∷ l) rest h = ground (arith, split_lines-line l rest h.1)
