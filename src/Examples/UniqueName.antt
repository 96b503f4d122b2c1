-- ===== src/Examples/UniqueName.antt =====
-- `newUniqueName` of core/maildir.go at concrete inputs.
use go_imapgrab.Base.{
  ◌≡◌, ◌≢◌, ◌⊎◌, refl, none, some, [], ◌∷◌, codes, pos, elem, false, nat_eq, arith,
}
use go_imapgrab.UniqueName.{
  ThreadSafeCounter, Moment, new_unique_name, inc, hex, format_name, choose_hostname, choose_random,
  clean_hostname,
}
use go_imapgrab.UniqueName.Safe.{IsSafe, new_unique_name-IsSafe}
use go_imapgrab.UniqueName.Distinct.{new_unique_name_distinct}
use go_imapgrab.Decimal.{print_ℤ}

abbrev counter : ThreadSafeCounter
counter = record { count = 4 }

abbrev moment : Moment
moment = record {
  unix = pos 1700000000;
  nanosecond = 123456;
  pid = 77;
  os_hostname = none;
  random = some (1 ∷ 255 ∷ []);
}

escaped_bytes : codes "\\072" ≡ 92 ∷ 48 ∷ 55 ∷ 50 ∷ []
escaped_bytes = refl

name_of_mail :
    new_unique_name counter moment (codes "a:b/c")
    ≡ (record { count = 5 }, codes "1700000000.M123P77Q5R01ff.a\\072b\\057c", none)
unfolding new_unique_name inc hex format_name choose_hostname choose_random clean_hostname print_ℤ
name_of_mail = refl

new_unique_name-IsSafe_example :
    IsSafe (new_unique_name counter moment (codes "a:b/c")).1
    × (((new_unique_name counter moment (codes "a:b/c")).2 ≢ none)
        ⊎ (elem b' ' (new_unique_name counter moment (codes "a:b/c")).1 ≡ false))
new_unique_name-IsSafe_example = new_unique_name-IsSafe counter moment (codes "a:b/c")

new_unique_name_distinct_example :
    (new_unique_name counter moment (codes "a:b/c")).1
    ≢ (new_unique_name (record { count = 5 }) moment (codes "host")).1
unfolding new_unique_name inc
new_unique_name_distinct_example =
    new_unique_name_distinct counter (record { count = 5 }) moment moment (codes "a:b/c")
      (codes "host") (omega arith)
