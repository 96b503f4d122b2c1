-- ===== src/Examples/Writeout.antt =====
-- `streamingOldmailWriteout` of core/oldmail.go at concrete inputs.
use go_imapgrab.Base.{
  ◌≡◌, refl, ℕ, true, false, none, some, Option, List, [], ◌∷◌, ◌++◌, Bytes, codes, pos,
}
use go_imapgrab.Decimal.{print_ℤ}
use go_imapgrab.Oldmail.{Oldmail, format_oldmails, parse_oldmails}
use go_imapgrab.Oldmail.Writeout.{
  WriteAnswer, written, write_failed, streaming_oldmail_writeout, content_of, write_all, write,
  records_of, AllWritten,
}
use go_imapgrab.Oldmail.Writeout.Content.{Completed, streaming_oldmail_writeout_keeps}

abbrev record_of : ℕ → Oldmail
record_of n = record { uid_folder = pos 7; uid = pos n; timestamp = pos 5 }

abbrev one_write : List (Oldmail × WriteAnswer)
one_write = (record_of 2, written) ∷ []

abbrev failing : List (Oldmail × WriteAnswer)
failing = (record_of 2, written) ∷ (record_of 3, write_failed 1) ∷ (record_of 4, written) ∷ []

abbrev kept : Option Bytes
kept = some (format_oldmails (record_of 1 ∷ []))

abbrev both : Bytes
both = content_of kept ++ format_oldmails (record_of 2 ∷ [])

-- After an error nothing is written, also not the part of a line that is missing.
half_a_line :
    streaming_oldmail_writeout false none failing true
    ≡ some (format_oldmails (record_of 2 ∷ []) ++ codes "7", 2)
unfolding streaming_oldmail_writeout content_of write_all write format_oldmails print_ℤ
half_a_line = refl

clean_run : streaming_oldmail_writeout false kept one_write false ≡ some (both, 0)
unfolding streaming_oldmail_writeout content_of write_all write format_oldmails print_ℤ
clean_run = refl

streaming_oldmail_writeout_keeps_example :
    (before : List (Oldmail × WriteAnswer)) × (rest : List Oldmail) × (content : Bytes) × (errs : ℕ)
    × AllWritten before
    × Completed failing before
    × (streaming_oldmail_writeout false kept failing false ≡ some (content, errs))
    × ((parse_oldmails content).0 ≡ (record_of 1 ∷ []) ++ (records_of before ++ rest))
streaming_oldmail_writeout_keeps_example =
    streaming_oldmail_writeout_keeps (record_of 1 ∷ []) failing false
      (record { folder_fits = refl; uid_fits = refl; timestamp_fits = refl }, tt)
      (
        record { folder_fits = refl; uid_fits = refl; timestamp_fits = refl },
        (
          record { folder_fits = refl; uid_fits = refl; timestamp_fits = refl },
          (record { folder_fits = refl; uid_fits = refl; timestamp_fits = refl }, tt),
        ),
      )
