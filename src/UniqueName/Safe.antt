-- ===== src/UniqueName/Safe.antt =====
-- A file name is one path component, with no byte that breaks a maildir name.
use go_imapgrab.Base.{
  ℕ, ◌+◌, ◌/◌, ◌≡◌, ◌≢◌, ◌⊎◌, false, Option, none, some, [], ◌∷◌, ◌++◌, Bytes, codes, nat_eq, eqb,
  replace_all, elem, All, All-append, Bool-cases, Option-cases, inl, inr, arith,
}
use go_imapgrab.Decimal.Digits.{IsDigit, IsNumeric, print_ℕ-All, print_ℤ-All}
use go_imapgrab.UniqueName.{
  ThreadSafeCounter, Moment, NameError, inc, hex, format_name, choose_hostname, choose_random,
  clean_hostname, new_unique_name,
}

-- Neither a path separator nor a colon, which separates the flags in a maildir.
abbrev pub IsSafe : Bytes → Type 0
IsSafe = All (λ c. (c ≢ b'/') × (c ≢ b':'))

IsSafe-of_numeric : (s : Bytes) → All IsNumeric s → IsSafe s
IsSafe-of_numeric [] h = tt
IsSafe-of_numeric (c ∷ s) h = (ground arith, IsSafe-of_numeric s h.1)

IsSafe-of_digits : (s : Bytes) → All IsDigit s → IsSafe s
IsSafe-of_digits [] h = tt
IsSafe-of_digits (c ∷ s) h = (ground arith, IsSafe-of_digits s h.1)

hex-IsSafe : (s : Bytes) → IsSafe (hex s)
unfolding hex
hex-IsSafe [] = tt
hex-IsSafe (b ∷ s) = ground (arith, hex-IsSafe s)

replaced :
    (P Q : ℕ → Type 0) (old : ℕ) (new s : Bytes)
    → All Q new
    → ((c : ℕ) → P c → c ≢ old → Q c)
    → All P s
    → All Q (replace_all old new s)
replaced P Q old new [] hn h hs = tt
replaced P Q old new (c ∷ s) hn h hs = elim (Bool-cases (eqb c old)) [
  | inl e ↦ rw e (All-append Q new _ hn (replaced P Q old new s hn h hs.1))
  | inr e ↦ rw e ((h c hs.0 (ground arith), replaced P Q old new s hn h hs.1))
]

any_bytes : (s : Bytes) → All (λ c. Unit {0}) s
any_bytes [] = tt
any_bytes (c ∷ s) = (tt, any_bytes s)

-- Whatever the host name, what is left of it breaks no path and no maildir name.
clean_hostname-IsSafe : (s : Bytes) → IsSafe (clean_hostname s)
unfolding clean_hostname
clean_hostname-IsSafe s =
    replaced (λ c. c ≢ b'/') (λ c. (c ≢ b'/') × (c ≢ b':')) b':' (codes "\\072") _ (omega arith)
      (λ c n m. (n, m))
      (replaced (λ c. Unit {0}) (λ c. c ≢ b'/') b'/' (codes "\\057") s (omega arith) (λ c _ n. n)
        (any_bytes s))

random-IsSafe : (m : Moment) (e : Option NameError) → IsSafe (choose_random m e).0
unfolding choose_random
random-IsSafe m (some e) = tt
random-IsSafe m none = elim (Option-cases m.random) [
  | inl n ↦ rw n tt
  | inr (bytes, r) ↦ rw r (hex-IsSafe bytes)
]

joined : (s t : Bytes) → IsSafe s → IsSafe t → IsSafe (s ++ t)
joined s t = All-append (λ c. (c ≢ b'/') × (c ≢ b':')) s t

format_name-IsSafe :
    (m : Moment) (k : ℕ) (r h : Bytes) → IsSafe r → IsSafe h → IsSafe (format_name m k r h)
unfolding format_name
format_name-IsSafe m k r h hr hh = joined _ _ (IsSafe-of_numeric _ (print_ℤ-All m.unix)) (
  omega arith,
  (
    omega arith,
    joined _ _ (IsSafe-of_digits _ (print_ℕ-All (m.nanosecond / 1000))) (
      omega arith,
      joined _ _ (IsSafe-of_digits _ (print_ℕ-All m.pid)) (
        omega arith,
        joined _ _ (IsSafe-of_digits _ (print_ℕ-All k))
            (omega arith, joined _ _ hr (omega arith, hh)),
      ),
    ),
  ),
)

-- Every file name, also one that comes with an error, has no slash and no colon, so it is one
-- component of a path; and it comes with an error or has no space.
pub new_unique_name-IsSafe :
    (c : ThreadSafeCounter) (m : Moment) (h : Bytes)
    → IsSafe (new_unique_name c m h).1
      × (((new_unique_name c m h).2 ≢ none) ⊎ (elem b' ' (new_unique_name c m h).1 ≡ false))
unfolding new_unique_name inc
new_unique_name-IsSafe c m h = (
  format_name-IsSafe m (c.count + 1) _ _ (random-IsSafe m (choose_hostname m h).1)
      (clean_hostname-IsSafe (choose_hostname m h).0),
  elim (Bool-cases (elem b' ' (new_unique_name c m h).1)) [
    | inl e ↦ inl (ground arith)
    | inr e ↦ inr e
  ],
)
