-- ===== src/UniqueName.antt =====
-- `newUniqueName` of core/maildir.go, and the delivery counter of core/threading.go.
--
-- The clock, the process id, the host name and the random bytes come from outside: they are the
-- fields of `Moment`.
pub mod Safe
pub mod Distinct
use go_imapgrab.Base.{
  ℕ, ◌+◌, ◌/◌, ◌%◌, Option, none, some, List, [], ◌∷◌, ◌++◌, Bytes, codes, ℤ, pos, replace_all,
  elem, nat_eq, Bool, ltb, if◌then◌else◌,
}
use go_imapgrab.Decimal.{print_ℕ, print_ℤ}

-- The counter is `inc`remented under a lock, so each delivery gets a number of its own.
pub record ThreadSafeCounter : Type 0 where
  pub count : ℕ

unfoldable pub inc : ThreadSafeCounter → ThreadSafeCounter × ℕ
inc t = (record t { count = t.count + 1 }, t.count + 1)

unfoldable pub get : ThreadSafeCounter → ℕ
get t = t.count

-- What the operating system answers during one call.
pub record Moment : Type 0 where
  pub unix : ℤ
  pub nanosecond : ℕ
  pub pid : ℕ
  pub os_hostname : Option Bytes
  pub random : Option Bytes

pub data NameError : Type 0 where
  no_hostname no_random whitespace : NameError

-- hex.EncodeToString
abbrev pub hex_digit : ℕ → ℕ
hex_digit n = if ltb n 10 then b'0' + n else 87 + n

unfoldable pub hex : Bytes → Bytes
hex [] = []
hex (b ∷ bs) = hex_digit (b / 16 % 16) ∷ hex_digit (b % 16) ∷ hex bs

-- The replacements for broken host names: `/` by \057 and `:` by \072.
unfoldable pub clean_hostname : Bytes → Bytes
clean_hostname hostname =
    replace_all b':' (codes "\\072") (replace_all b'/' (codes "\\057") hostname)

-- Sprintf("%d.M%dP%dQ%dR%s.%s", …)
unfoldable pub format_name : Moment → ℕ → Bytes → Bytes → Bytes
format_name m local_count random_hex hostname =
    print_ℤ m.unix
    ++ (b'.'
        ∷ (b'M' ∷ print_ℕ (m.nanosecond / 1000)
            ++ (b'P' ∷ print_ℕ m.pid
                ++ (b'Q' ∷ print_ℕ local_count ++ (b'R' ∷ random_hex ++ (b'.' ∷ hostname))))))

abbrev has_space : Bytes → Bool
has_space s = elem b' ' s

-- The host name that is used, and the first error so far.
unfoldable pub choose_hostname : Moment → Bytes → Bytes × Option NameError
choose_hostname m [] = elim m.os_hostname [ none ↦ ([], some no_hostname) | some h ↦ (h, none) ]
choose_hostname m (c ∷ hostname) = (c ∷ hostname, none)

-- The random part, and the first error so far. Without an earlier error random bytes are read.
unfoldable pub choose_random : Moment → Option NameError → Bytes × Option NameError
choose_random m (some e) = ([], some e)
choose_random m none = elim m.random [
  | none ↦ ([], some no_random)
  | some bytes ↦ (hex bytes, none)
]

-- The new counter, the file name, and the error.
unfoldable pub new_unique_name :
    ThreadSafeCounter → Moment → Bytes → ThreadSafeCounter × Bytes × Option NameError
new_unique_name counter m hostname =
    let (counter', local_count) = inc counter in
    let (chosen, e) = choose_hostname m hostname in
    let (random_hex, e') = choose_random m e in
    let filename = format_name m local_count random_hex (clean_hostname chosen) in
    (
      counter',
      filename,
      elim e' [ some err ↦ some err | none ↦ if has_space filename then some whitespace else none ],
    )
