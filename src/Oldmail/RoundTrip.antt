-- ===== src/Oldmail/RoundTrip.antt =====
-- Reading an oldmail file gives back what was written to it (core/oldmail.go).
use go_imapgrab.Base.{
  ◌≤◌, ◌≡◌, refl, sym, ap, ◌∙◌, false, none, some, List, [], ◌∷◌, ◌++◌, append_assoc, append-nil,
  Bytes, inl, length, length-append, All, All-append, replace_all, arith, leb,
}
use go_imapgrab.Decimal.{print_ℤ, skip_blanks}
use go_imapgrab.Decimal.RoundTrip.{scan_ℤ-print_ℤ, scan_ℤ-print_ℤ_end}
use go_imapgrab.Oldmail.{
  Oldmail, format_line, stored_line, split_lines, max_token, scan_fields, parse_line, read_lines,
  parse_oldmails, format_oldmails, Fits,
}
use go_imapgrab.Oldmail.Lines.{
  IsVisible, print_ℤ-IsVisible, length-print_ℤ-le, replace_all-replace_all, replace_all-append,
  IsOneLine, replace_all-IsOneLine, length-replace_all, drop_cr-IsOneLine, split_lines-line,
}

-- A line without its newline.
abbrev line_body : Oldmail → Bytes
line_body om = print_ℤ om.uid_folder ++ (b'/' ∷ print_ℤ om.uid ++ (b'_' ∷ print_ℤ om.timestamp))

parse_line-scan_fields :
    (bytes : Bytes) (om : Oldmail)
    → scan_fields (replace_all 0 (b'_' ∷ []) bytes) ≡ some (om, [])
    → parse_line bytes ≡ inl om
unfolding parse_line skip_blanks
parse_line-scan_fields bytes om h = ground arith

module _ (om : Oldmail) where
  format_line-body : format_line om ≡ line_body om ++ 10 ∷ []
  unfolding format_line
  format_line-body = rw (append_assoc, append_assoc)

  line_body-IsVisible : IsVisible (line_body om)
  line_body-IsVisible =
      All-append (λ c. 33 ≤ c) (print_ℤ om.uid_folder) _ (print_ℤ-IsVisible om.uid_folder)
        (
          omega arith,
          All-append (λ c. 33 ≤ c) (print_ℤ om.uid) _ (print_ℤ-IsVisible om.uid)
              (omega arith, print_ℤ-IsVisible om.timestamp),
        )

  length-line_body-le : Fits om → length (line_body om) ≤ 62
  length-line_body-le h =
      rw (length-append {0}, length-append {0})
        (omega (
          arith,
          length-print_ℤ-le om.uid_folder h.folder_fits,
          length-print_ℤ-le om.uid h.uid_fits,
          length-print_ℤ-le om.timestamp h.timestamp_fits,
        ))

  scan_fields-line_body : Fits om → scan_fields (line_body om) ≡ some (om, [])
  unfolding scan_fields
  scan_fields-line_body h = rw (
    scan_ℤ-print_ℤ om.uid_folder _ h.folder_fits refl,
    scan_ℤ-print_ℤ om.uid _ h.uid_fits refl,
    scan_ℤ-print_ℤ_end om.timestamp h.timestamp_fits,
  )

  -- One stored line is parsed back.
  parse_line-stored : Fits om → parse_line (replace_all b'_' (0 ∷ []) (line_body om)) ≡ inl om
  parse_line-stored h = parse_line-scan_fields _ om (
      ap scan_fields (replace_all-replace_all (line_body om) line_body-IsVisible)
      ∙ scan_fields-line_body h)

  stored_line-body : stored_line om ≡ replace_all b'_' (0 ∷ []) (line_body om) ++ 10 ∷ []
  unfolding stored_line
  stored_line-body =
      rw (format_line-body, replace_all-append b'_' (0 ∷ []) (line_body om) (10 ∷ []))

  body-IsOneLine : IsOneLine (replace_all b'_' (0 ∷ []) (line_body om))
  body-IsOneLine = replace_all-IsOneLine (line_body om) line_body-IsVisible

  split_lines-stored :
      (rest : Bytes)
      → split_lines (stored_line om ++ rest)
        ≡ replace_all b'_' (0 ∷ []) (line_body om) ∷ split_lines rest
  split_lines-stored rest =
      rw (stored_line-body, append_assoc)
        (split_lines-line (replace_all b'_' (0 ∷ []) (line_body om)) rest body-IsOneLine)

  short_enough : Fits om → leb max_token (length (replace_all b'_' (0 ∷ []) (line_body om))) ≡ false
  short_enough h =
      rw (length-replace_all (line_body om) b'_' 0) (ground (arith, length-line_body-le h))

  -- The first line of what is left of the file is read as the record that was stored.
  read_lines-stored :
      (ls : List Bytes)
      → Fits om
      → read_lines (replace_all b'_' (0 ∷ []) (line_body om) ∷ ls)
        ≡ (om ∷ (read_lines ls).0, (read_lines ls).1)
  unfolding read_lines
  read_lines-stored ls h =
      rw (short_enough h, drop_cr-IsOneLine _ body-IsOneLine, parse_line-stored h)

parse_stored :
    (om : Oldmail) (rest : Bytes)
    → Fits om
    → parse_oldmails (stored_line om ++ rest)
      ≡ (om ∷ (parse_oldmails rest).0, (parse_oldmails rest).1)
unfolding parse_oldmails
parse_stored om rest h = rw (split_lines-stored om rest) (read_lines-stored om (split_lines rest) h)

-- Behind any records that were written without error, reading goes on with the rest of the file.
pub parse_format_append :
    (oms : List Oldmail) (rest : Bytes)
    → All Fits oms
    → parse_oldmails (format_oldmails oms ++ rest)
      ≡ (oms ++ (parse_oldmails rest).0, (parse_oldmails rest).1)
unfolding format_oldmails
parse_format_append [] rest h = refl
parse_format_append (om ∷ oms) rest h = rw (
  append_assoc,
  parse_stored om (format_oldmails oms ++ rest) h.0,
  parse_format_append oms rest h.1,
)

-- Reading an oldmail file that holds the lines written for some records gives back these records,
-- all of them and in their order, with no error, provided that their numbers fit 64 bits.
pub parse_oldmails-format_oldmails :
    (oms : List Oldmail) → All Fits oms → parse_oldmails (format_oldmails oms) ≡ (oms, none)
parse_oldmails-format_oldmails oms h =
    ap parse_oldmails (sym (append-nil (format_oldmails oms)))
    ∙ parse_format_append oms [] h
    ∙ unfold parse_oldmails split_lines read_lines in rw append-nil
