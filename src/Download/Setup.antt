-- ===== src/Download/Setup.antt =====
-- The folder that a download starts from, behind `initMaildir` (core/maildir.go).
use go_imapgrab.Base.{◌≡◌, ◌∙◌, true, Option, some, List, [], inl, Bytes, All, arith, if◌then◌else◌}
use go_imapgrab.Oldmail.{Oldmail, format_oldmails, Fits, read_oldmail}
use go_imapgrab.Oldmail.RoundTrip.{parse_oldmails-format_oldmails}
use go_imapgrab.Download.{
  FolderState, InitAnswers, is_maildir, init_maildir, init_existing_maildir, create_maildir,
}

-- The oldmail file that a run starts from: an empty one when the folder is not there yet.
abbrev pub on_disk : FolderState → Option Bytes
on_disk f = if f.has_dir then f.oldmail else some []

module _ (os : InitAnswers) (f : FolderState) (oldmails : List Oldmail) where
  pub init_maildir-on_disk :
      (init_maildir os f).1 ≡ inl oldmails → (init_maildir os f).0.oldmail ≡ on_disk f
  unfolding init_maildir create_maildir
  init_maildir-on_disk h = ground arith

  pub init_maildir-store :
      (init_maildir os f).1 ≡ inl oldmails → (init_maildir os f).0.store ≡ f.store
  unfolding init_maildir create_maildir
  init_maildir-store h = ground arith

  init_maildir-existing :
      (init_maildir os f).1 ≡ inl oldmails
      → init_existing_maildir os (init_maildir os f).0 ≡ inl oldmails
  unfolding init_maildir
  init_maildir-existing h = ground arith

  init_existing_maildir-reads :
      (g : FolderState) (olds : List Oldmail)
      → g.oldmail ≡ some (format_oldmails olds)
      → All Fits olds
      → init_existing_maildir os g ≡ inl oldmails
      → oldmails ≡ olds
  unfolding init_existing_maildir read_oldmail
  init_existing_maildir-reads g olds o fits h =
      ground (arith, o, parse_oldmails-format_oldmails olds fits)

  -- The records that a run starts from are those of the file; of a new folder there are none.
  pub init_maildir-reads :
      (olds : List Oldmail)
      → on_disk f ≡ some (format_oldmails olds)
      → All Fits olds
      → (init_maildir os f).1 ≡ inl oldmails
      → oldmails ≡ olds
  init_maildir-reads olds o fits h =
      init_existing_maildir-reads (init_maildir os f).0 olds (init_maildir-on_disk h ∙ o) fits
        (init_maildir-existing h)

-- All directories of a maildir are there.
abbrev pub IsMade : FolderState → Type 0
IsMade f = (f.has_dir ≡ true) × (f.has_new ≡ true) × (f.has_cur ≡ true) × (f.has_tmp ≡ true)

pub init_maildir-IsMade :
    (os : InitAnswers) (f : FolderState) (oldmails : List Oldmail)
    → (init_maildir os f).1 ≡ inl oldmails
    → IsMade (init_maildir os f).0
unfolding init_maildir create_maildir init_existing_maildir is_maildir
init_maildir-IsMade os f oldmails h = ground arith
