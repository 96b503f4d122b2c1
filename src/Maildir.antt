-- ===== src/Maildir.antt =====
-- core/maildir.go: the delivery of one email. It is written to a new file in `tmp` of a maildir and
-- then moved to `new` under the same name.
--
-- The directories are maps from file names to contents; a file name has no slash (see
-- UniqueName/Safe), so it is one entry of its directory. What the operating system answers to each
-- call is the parameter `Answers`. `errorIfExists` is from core/fs.go.
pub mod Delivery
use go_imapgrab.Base.{
  ℕ, Bool, true, false, ◌||◌, Option, none, some, Bytes, take, [], eq_list, list_eq, nat_eq, ◌==◌,
  if◌then◌else◌,
}
use go_imapgrab.UniqueName.{ThreadSafeCounter, Moment, NameError, new_unique_name}

-- The files of a directory.
abbrev pub Dir : Type 0
Dir = Bytes → Option Bytes

abbrev pub put_file : Dir → Bytes → Bytes → Dir
put_file d name content other = if other == name then some content else d other

abbrev pub remove_file : Dir → Bytes → Dir
remove_file d name other = if other == name then none else d other

abbrev pub exists_in : Dir → Bytes → Bool
exists_in d name = elim (d name) [ none ↦ false | some _ ↦ true ]

pub record Maildir : Type 0 where
  pub tmp : Dir
  pub new : Dir

-- os.WriteFile wrote all, or failed: before it opened the file, or behind some bytes.
pub data WriteFile : Type 0 where
  wrote not_opened : WriteFile
  wrote_part : ℕ → WriteFile

-- Whether `Stat` fails otherwise than by a missing file, for the file in `tmp` and in `new`, and
-- what the write and the rename do.
pub record Answers : Type 0 where
  pub stat_tmp_fails : Bool
  pub write_file : WriteFile
  pub stat_new_fails : Bool
  pub rename_fails : Bool

abbrev pub no_faults : Answers
no_faults = record {
  stat_tmp_fails = false;
  write_file = wrote;
  stat_new_fails = false;
  rename_fails = false;
}

pub data DeliverError : Type 0 where
  bad_name : NameError → DeliverError
  not_unique already_exists write_error rename_error : DeliverError

-- Only a missing file is no error.
unfoldable pub error_if_exists : Dir → Bytes → Bool → Bool
error_if_exists d name stat_fails = stat_fails || exists_in d name

-- What is in `tmp` after the write.
unfoldable pub written_to : Dir → Bytes → Bytes → WriteFile → Dir
written_to d name content wrote = put_file d name content
written_to d name content not_opened = d
written_to d name content (wrote_part n) = put_file d name (take n content)

unfoldable pub not_wrote : WriteFile → Bool
not_wrote wrote = false
not_wrote not_opened = true
not_wrote (wrote_part n) = true

-- os.Rename, from `tmp` to `new`.
unfoldable pub rename : Maildir → Bytes → Maildir
rename dir name = elim (dir.tmp name) [
  | none ↦ dir
  | some content ↦ record { tmp = remove_file dir.tmp name; new = put_file dir.new name content }
]

-- What follows the choice of the name.
unfoldable pub store_message : Answers → Bytes → Bytes → Maildir → Maildir × Option DeliverError
store_message os name rfc822 dir =
    let filled = record dir { tmp = written_to dir.tmp name rfc822 os.write_file } in
    if error_if_exists dir.tmp name os.stat_tmp_fails
    then (dir, some not_unique)
    else if not_wrote os.write_file
    then (filled, some write_error)
    else if error_if_exists dir.new name os.stat_new_fails
    then (filled, some already_exists)
    else if os.rename_fails
    then (filled, some rename_error)
    else (rename filled name, none)

unfoldable pub deliver_message :
    Answers
    → Moment
    → Bytes
    → ThreadSafeCounter × Maildir
    → (ThreadSafeCounter × Maildir) × Option DeliverError
deliver_message os m rfc822 (counter, dir) =
    let (counter', file_name, err) = new_unique_name counter m [] in
    elim err [
      | some e ↦ ((counter', dir), some (bad_name e))
      | none ↦ let (dir', e) = store_message os file_name rfc822 dir in ((counter', dir'), e)
    ]
