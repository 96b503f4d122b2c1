-- ===== src/Download/Folder.antt =====
-- `initMaildir` and `initExistingMaildir` of core/maildir.go: a folder on disk is checked, or made.
use go_imapgrab.Base.{
  Bool, true, false, not, ◌&&◌, Option, none, some, List, [], ◌⊎◌, inl, inr, Bytes, if◌then◌else◌,
}
use go_imapgrab.Oldmail.{Oldmail, ReadError, read_oldmail}
use go_imapgrab.Download.Delivery.{Store}

-- Which directories there are, the oldmail file, and the delivery counter with the files of the
-- maildir.
pub record FolderState : Type 0 where
  pub has_dir : Bool
  pub has_new : Bool
  pub has_cur : Bool
  pub has_tmp : Bool
  pub oldmail : Option Bytes
  pub store : Store

-- Which calls fail: the making of the four directories and of the file, and reading the file.
pub record InitAnswers : Type 0 where
  pub mkdir_fails : Bool
  pub mkdir_new_fails : Bool
  pub mkdir_cur_fails : Bool
  pub mkdir_tmp_fails : Bool
  pub touch_fails : Bool
  pub read_open_fails : Bool
  pub read_close_fails : Bool

pub data InitError : Type 0 where
  cannot_create no_maildir : InitError
  cannot_read : ReadError → InitError

unfoldable pub is_maildir : FolderState → Bool
is_maildir f = f.has_new && f.has_cur && f.has_tmp

unfoldable pub init_existing_maildir : InitAnswers → FolderState → List Oldmail ⊎ InitError
init_existing_maildir os f =
    let (oms, err) = read_oldmail os.read_open_fails os.read_close_fails f.oldmail in
    if not (is_maildir f)
    then inr no_maildir
    else elim err [ none ↦ inl oms | some e ↦ inr (cannot_read e) ]

-- `if err == nil { err = … }`: the state, and whether there is an error.
abbrev pub attempt : Bool → (FolderState → FolderState) → FolderState × Bool → FolderState × Bool
attempt fails act (f, failed) =
    if failed then (f, true) else if fails then (f, true) else (act f, false)

-- The directories, and an empty oldmail file, also over one that was there.
unfoldable pub create_maildir : InitAnswers → FolderState → FolderState × Bool
create_maildir os f =
    attempt os.touch_fails (λ g. record g { oldmail = some [] })
      (attempt os.mkdir_tmp_fails (λ g. record g { has_tmp = true })
        (attempt os.mkdir_cur_fails (λ g. record g { has_cur = true })
          (attempt os.mkdir_new_fails (λ g. record g { has_new = true })
            (attempt os.mkdir_fails (λ g. record g { has_dir = true }) (f, false)))))

unfoldable pub init_maildir : InitAnswers → FolderState → FolderState × (List Oldmail ⊎ InitError)
init_maildir os f =
    if f.has_dir
    then (f, init_existing_maildir os f)
    else let (f', failed) = create_maildir os f in
      if failed then (f', inr cannot_create) else (f', init_existing_maildir os f')
