-- ===== src/Oldmail.antt =====
-- core/oldmail.go: the record of a delivered email, the lines of an oldmail file, and how they are
-- read. The file is a list of bytes; the proofs are in the modules below.
pub mod Lines
pub mod RoundTrip
pub mod Writeout
use go_imapgrab.Base.{
  ℕ, Bool, true, Option, none, some, ◌⊎◌, inl, inr, ◌≡◌, List, [], ◌∷◌, ◌++◌, Bytes, ℤ, replace_all,
  length, leb, eqb, if◌then◌else◌, ◌>>=◌, onto_first,
}
use go_imapgrab.Decimal.{print_ℤ, scan_ℤ, skip_blanks, in_int64}

pub record Oldmail : Type 0 where
  pub uid_folder : ℤ
  pub uid : ℤ
  pub timestamp : ℤ

-- What `readOldmail` reports.
pub data ReadError : Type 0 where
  not_found : ReadError
  open_failed : ReadError
  too_few_fields : Bytes → ReadError
  newline_mismatch : Bytes → ReadError
  token_too_long : ReadError
  close_failed : ReadError

-- Sprintf(oldmailFormat, om.uidFolder, om.uid, om.timestamp) with "%d/%d_%d\n"
unfoldable pub format_line : Oldmail → Bytes
format_line om =
    print_ℤ om.uid_folder ++ (b'/' ∷ print_ℤ om.uid ++ (b'_' ∷ print_ℤ om.timestamp ++ (10 ∷ [])))

-- The bytes that the writer puts into the file: each `_` becomes a null byte.
unfoldable pub stored_line : Oldmail → Bytes
unfolding format_line
stored_line om = replace_all b'_' (0 ∷ []) (format_line om)

-- The tokens of `bufio.ScanLines`, before a trailing carriage return is dropped. What follows the
-- last newline is a token only if it is not empty.
unfoldable pub split_lines : Bytes → List Bytes
split_lines [] = []
split_lines (c ∷ s) = let rest = split_lines s in if eqb c 10 then [] ∷ rest else onto_first c rest

unfoldable pub drop_cr : Bytes → Bytes
drop_cr [] = []
drop_cr (c ∷ []) = if eqb c 13 then [] else c ∷ []
drop_cr (c ∷ d ∷ s) = c ∷ drop_cr (d ∷ s)

-- bufio.MaxScanTokenSize: a line must be found within a buffer of this size.
abbrev pub max_token : ℕ
max_token = 65536

-- A literal byte of the format.
abbrev pub expect : ℕ → Bytes → Option Bytes
expect b [] = none
expect b (c ∷ s) = if eqb c b then some s else none

-- The three integers of the format, and what is left of the line.
unfoldable pub scan_fields : Bytes → Option (Oldmail × Bytes)
scan_fields s = do
  (folder, s₁) ← scan_ℤ s
  s₂ ← expect b'/' s₁
  (uid, s₃) ← scan_ℤ s₂
  s₄ ← expect b'_' s₃
  (timestamp, s₅) ← scan_ℤ s₄
  some (record { uid_folder = folder; uid = uid; timestamp = timestamp }, s₅)

-- The newline of the format: blanks, then a newline or the end of the input.
abbrev pub at_newline : Bytes → Bool
at_newline s = elim (skip_blanks s) [ [] ↦ true | c ∷ _ ↦ eqb c 10 ]

-- One line: null bytes become `_`, then `Sscanf` with the three fields.
unfoldable pub parse_line : Bytes → Oldmail ⊎ ReadError
parse_line bytes =
    let line = replace_all 0 (b'_' ∷ []) bytes in
    elim (scan_fields line) [
      | none ↦ inr (too_few_fields line)
      | some (om, rest) ↦ if at_newline rest then inl om else inr (newline_mismatch line)
    ]

-- The loop of `readOldmail`: the records read before the first error, and that error.
unfoldable pub read_lines : List Bytes → List Oldmail × Option ReadError
read_lines [] = ([], none)
read_lines (l ∷ ls) =
    let (oms, e) = read_lines ls in
    if leb max_token (length l)
    then ([], some token_too_long)
    else elim (parse_line (drop_cr l)) [ inr e' ↦ ([], some e') | inl om ↦ (om ∷ oms, e) ]

-- The content of an oldmail file, read to its end.
unfoldable pub parse_oldmails : Bytes → List Oldmail × Option ReadError
parse_oldmails content = read_lines (split_lines content)

-- `none` is a missing file. Opening and closing can fail.
unfoldable pub read_oldmail : Bool → Bool → Option Bytes → List Oldmail × Option ReadError
read_oldmail open_fails close_fails none = ([], some not_found)
read_oldmail open_fails close_fails (some content) =
    let (oms, err) = parse_oldmails content in
    if open_fails then ([], some open_failed) else elim err [
      | some e ↦ (oms, some e)
      | none ↦ (oms, if close_fails then some close_failed else none)
    ]

-- The content that a run without write errors appends.
unfoldable pub format_oldmails : List Oldmail → Bytes
unfolding stored_line
format_oldmails [] = []
format_oldmails (om ∷ oms) = stored_line om ++ format_oldmails oms

-- Every number fits Go's `int`.
pub record Fits (om : Oldmail) : Type 0 where
  pub folder_fits : in_int64 om.uid_folder ≡ true
  pub uid_fits : in_int64 om.uid ≡ true
  pub timestamp_fits : in_int64 om.timestamp ≡ true
