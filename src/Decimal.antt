-- ===== src/Decimal.antt =====
-- Decimal integers, as the `%d` of Go's `fmt` prints and scans them. The program prints them in
-- core/oldmail.go, core/maildir.go and cli/keyring.go, and scans them in core/oldmail.go.
pub mod RoundTrip
pub mod Digits
use go_imapgrab.Base.{
  ℕ, zero, suc, ◌+◌, ◌-◌, ◌*◌, ◌/◌, ◌%◌, ◌^◌, Bool, not, ◌&&◌, ◌||◌, Option, none, some, [], ◌∷◌,
  ◌++◌, Bytes, ℤ, pos, negsuc, ltb, leb, eqb, if◌then◌else◌,
}

-- The digits of `n`; `n + 1` rounds are more than it has digits.
unfoldable pub digits_fuel : ℕ → ℕ → Bytes
digits_fuel zero n = []
digits_fuel (suc f) n =
    let front = digits_fuel f (n / 10) in
    if ltb n 10 then (b'0' + n) ∷ [] else front ++ (b'0' + n % 10) ∷ []

unfoldable pub print_ℕ : ℕ → Bytes
unfolding digits_fuel
print_ℕ n = digits_fuel (suc n) n

-- `%d` of `Sprintf`.
unfoldable pub print_ℤ : ℤ → Bytes
unfolding print_ℕ
print_ℤ (pos n) = print_ℕ n
print_ℤ (negsuc n) = b'-' ∷ print_ℕ (suc n)

abbrev pub is_digit : ℕ → Bool
is_digit c = leb b'0' c && leb c b'9'

-- The space that `Sscanf` skips, for ASCII, without the newline.
abbrev pub is_blank : ℕ → Bool
is_blank c = eqb c b' ' || leb 9 c && leb c 13 && not (eqb c 10)

-- Read digits behind the value `n`: the value, and what follows them.
unfoldable pub scan_digits : ℕ → Bytes → ℕ × Bytes
scan_digits n [] = (n, [])
scan_digits n (c ∷ s) =
    let rest = scan_digits (n * 10 + (c - b'0')) s in if is_digit c then rest else (n, c ∷ s)

unfoldable pub skip_blanks : Bytes → Bytes
skip_blanks [] = []
skip_blanks (c ∷ s) = if is_blank c then skip_blanks s else c ∷ s

-- An unsigned number: at least one digit.
unfoldable pub scan_ℕ : Bytes → Option (ℕ × Bytes)
unfolding scan_digits
scan_ℕ [] = none
scan_ℕ (c ∷ s) = if is_digit c then some (scan_digits 0 (c ∷ s)) else none

-- strconv.ParseInt refuses what does not fit an `int64`.
abbrev pub in_int64 : ℤ → Bool
in_int64 (pos n) = ltb n (2 ^ 63)
in_int64 (negsuc n) = ltb n (2 ^ 63)

abbrev pub negate : ℕ → ℤ
negate zero = pos 0
negate (suc n) = negsuc n

abbrev fit : Option (ℕ × Bytes) → (ℕ → ℤ) → Option (ℤ × Bytes)
fit none sign = none
fit (some (n, rest)) sign = if in_int64 (sign n) then some (sign n, rest) else none

-- The sign, and the number behind it.
unfoldable pub scan_signed : Bytes → Option (ℤ × Bytes)
unfolding scan_ℕ
scan_signed [] = none
scan_signed (c ∷ s) =
    if eqb c b'-'
    then fit (scan_ℕ s) negate
    else if eqb c b'+'
    then fit (scan_ℕ s) pos
    else fit (scan_ℕ (c ∷ s)) pos

-- `%d` of `Sscanf`: skip space, then read an integer.
unfoldable pub scan_ℤ : Bytes → Option (ℤ × Bytes)
unfolding skip_blanks scan_signed
scan_ℤ s = scan_signed (skip_blanks s)
