-- ===== src/Oldmail/Writeout.antt =====
-- `streamingOldmailWriteout` of core/oldmail.go: records are appended to the oldmail file until a
-- write fails.
--
-- What the operating system answers is a parameter: `WriteAnswer` for each write (how many bytes
-- came through before an error, if there was one), and whether the file can be opened and closed.
pub mod Content
use go_imapgrab.Base.{
  ℕ, ◌+◌, ◌≤◌, ◌≡◌, ◌↔◌, refl, Bool, true, false, Option, none, some, List, [], ◌∷◌, ◌++◌,
  append_assoc, append-nil, Bytes, take, length, map, All, All-append, if◌then◌else◌, arith, inl,
  inr, Bool-cases, ap, sym, ◌∙◌,
}
use go_imapgrab.Oldmail.{Oldmail, ReadError, stored_line, format_oldmails, parse_oldmails, Fits}
use go_imapgrab.Oldmail.RoundTrip.{parse_format_append, parse_oldmails-format_oldmails}

-- `Write` wrote everything, or some bytes before it failed.
pub data WriteAnswer : Type 0 where
  written : WriteAnswer
  write_failed : ℕ → WriteAnswer

-- The file, and the variables `err` (whether it is set) and `errCount` of the goroutine.
pub record Writer : Type 0 where
  pub content : Bytes
  pub failed : Bool
  pub err_count : ℕ

-- handle.Write(lineAsBytes)
unfoldable pub write : Writer → Bytes → WriteAnswer → Writer
write w bytes written = record w { content = w.content ++ bytes }
write w bytes (write_failed n) = record w {
  content = w.content ++ take n bytes;
  failed = true;
  err_count = w.err_count + 1;
}

-- The loop over the channel. After an error records are taken, but not written.
unfoldable pub write_all : Writer → List (Oldmail × WriteAnswer) → Writer
write_all w [] = w
write_all w ((om, answer) ∷ rest) =
    write_all (if w.failed then w else write w (stored_line om) answer) rest

-- O_CREATE makes a missing file an empty one.
unfoldable pub content_of : Option Bytes → Bytes
content_of none = []
content_of (some bytes) = bytes

abbrev pub opened : Bytes → Writer
opened old = record { content = old; failed = false; err_count = 0 }

-- The content of the file afterwards, and `errCount`. `none` is a file that cannot be opened.
unfoldable pub streaming_oldmail_writeout :
    Bool → Option Bytes → List (Oldmail × WriteAnswer) → Bool → Option (Bytes × ℕ)
streaming_oldmail_writeout open_fails file oms close_fails =
    let w = write_all (opened (content_of file)) oms in
    if open_fails
    then none
    else some (w.content, if close_fails then w.err_count + 1 else w.err_count)

abbrev pub records_of : List (Oldmail × WriteAnswer) → List Oldmail
records_of = map (λ p. p.0)

abbrev pub AllWritten : List (Oldmail × WriteAnswer) → Type 0
AllWritten = All (λ p. p.1 ≡ written)

-- What a run adds and the errors it counts, told without the loop: all of the records; or those
-- before the first write that failed, and a part of the line of that write.
pub data Outcome (oms : List (Oldmail × WriteAnswer)) (added : Bytes) (errs : ℕ) : Type 0 where
  complete :
      AllWritten oms → added ≡ format_oldmails (records_of oms) → errs ≡ 0 → Outcome oms added errs
  broken :
      (before after : List (Oldmail × WriteAnswer)) (om : Oldmail) (n : ℕ)
      → AllWritten before
      → oms ≡ before ++ ((om, write_failed n) ∷ after)
      → added ≡ format_oldmails (records_of before) ++ take n (stored_line om)
      → errs ≡ 1
      → Outcome oms added errs
