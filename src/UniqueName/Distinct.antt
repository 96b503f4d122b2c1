-- ===== src/UniqueName/Distinct.antt =====
-- Two deliveries of one process never get the same file name.
use go_imapgrab.Base.{ℕ, ◌+◌, ◌/◌, ◌≤◌, ◌≡◌, ◌≢◌, refl, ap, drop, ◌||◌, Bytes, eqb, arith}
use go_imapgrab.Decimal.{print_ℕ, print_ℤ, is_digit}
use go_imapgrab.Decimal.Digits.{print_ℕ-All, print_ℤ-All, split_unique, print_ℕ_injective}
use go_imapgrab.UniqueName.{ThreadSafeCounter, Moment, inc, format_name, new_unique_name}

-- Equal file names have equal delivery numbers.
format_name_count :
    (m m' : Moment) (k k' : ℕ) (r r' h h' : Bytes)
    → format_name m k r h ≡ format_name m' k' r' h'
    → k ≡ k'
unfolding format_name
format_name_count m m' k k' r r' h h' e =
    let (_, e₁) =
      split_unique (λ c. is_digit c || eqb c b'-') (print_ℤ m.unix) (print_ℤ m'.unix) _ _ b'.' refl
        (print_ℤ-All m.unix) (print_ℤ-All m'.unix) e in
    let (_, e₂) =
      split_unique is_digit (print_ℕ (m.nanosecond / 1000)) (print_ℕ (m'.nanosecond / 1000)) _ _
        b'P' refl (print_ℕ-All (m.nanosecond / 1000)) (print_ℕ-All (m'.nanosecond / 1000))
        (ap (drop 1) e₁) in
    let (_, e₃) =
      split_unique is_digit (print_ℕ m.pid) (print_ℕ m'.pid) _ _ b'Q' refl (print_ℕ-All m.pid)
        (print_ℕ-All m'.pid) e₂ in
    let (e₄, _) =
      split_unique is_digit (print_ℕ k) (print_ℕ k') _ _ b'R' refl (print_ℕ-All k) (print_ℕ-All k')
        e₃ in
    print_ℕ_injective k k' e₄

-- A later delivery of the same process gets another file name, whatever the clock, the process id,
-- the host name and the random bytes are at the two times. Later means that the counter has
-- passed the number of the first delivery.
pub new_unique_name_distinct :
    (c d : ThreadSafeCounter) (m m' : Moment) (h h' : Bytes)
    → (new_unique_name c m h).0.count ≤ d.count
    → (new_unique_name c m h).1 ≢ (new_unique_name d m' h').1
unfolding new_unique_name inc
new_unique_name_distinct c d m m' h h' later same =
    absurd (omega (arith, format_name_count m m' (c.count + 1) (d.count + 1) _ _ _ _ same))
