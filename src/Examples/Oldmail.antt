-- ===== src/Examples/Oldmail.antt =====
-- core/oldmail.go at concrete inputs.
use go_imapgrab.Base.{◌≡◌, refl, none, some, [], ◌∷◌, ◌++◌, codes, pos, negsuc}
use go_imapgrab.Decimal.{print_ℤ, scan_ℤ}
use go_imapgrab.Oldmail.{
  Oldmail, parse_oldmails, format_oldmails, stored_line, split_lines, drop_cr, scan_fields,
  parse_line, read_lines, too_few_fields,
}
use go_imapgrab.Oldmail.RoundTrip.{parse_oldmails-format_oldmails}

abbrev first : Oldmail
first = record { uid_folder = pos 1234567; uid = pos 42; timestamp = pos 1651501919 }

abbrev second : Oldmail
second = record { uid_folder = pos 1234567; uid = pos 43; timestamp = negsuc 0 }

parse_oldmails-format_oldmails_example :
    parse_oldmails (format_oldmails (first ∷ second ∷ [])) ≡ (first ∷ second ∷ [], none)
parse_oldmails-format_oldmails_example = parse_oldmails-format_oldmails (first ∷ second ∷ []) (
  record { folder_fits = refl; uid_fits = refl; timestamp_fits = refl },
  (record { folder_fits = refl; uid_fits = refl; timestamp_fits = refl }, tt),
)

-- The null byte stands where the format has an underscore.
stored : stored_line second ≡ codes "1234567/43" ++ 0 ∷ codes "-1" ++ 10 ∷ []
unfolding stored_line print_ℤ
stored = refl

-- A line without a time stamp ends the reading with an error.
too_few : parse_oldmails (codes "1/2" ++ 10 ∷ []) ≡ ([], some (too_few_fields (codes "1/2")))
unfolding parse_oldmails split_lines read_lines drop_cr parse_line scan_fields scan_ℤ
too_few = refl
