-- ===== src/Disk.antt =====
-- core/fs.go, and how core/maildir.go (`isMaildir`, `initMaildir`, `initExistingMaildir`) checks and
-- makes a maildir, over a tree of directories and files.
--
-- A path is the list of its segments from the root. Parameters: which paths the system refuses to
-- create (`refuses`), and whether the oldmail file can be opened and closed.
pub mod Kept
pub mod Again
use go_imapgrab.Base.{
  Bool, true, false, Option, none, some, ◌>>=◌, List, [], ◌∷◌, ◌++◌, Bytes, codes, ◌==◌, list_eq,
  nat_eq, ◌⊎◌, inl, inr, replace_all, if◌then◌else◌,
}
use go_imapgrab.Oldmail.{Oldmail, ReadError, read_oldmail}
use go_imapgrab.Download.{InitError, cannot_create, no_maildir, cannot_read}

pub data Node : Type 0 where
  missing dir : Node
  file : Bytes → Node

-- What os.Stat answers: `stat_error` is another error than that there is no such file.
pub data Stat : Type 0 where
  found_dir found_file not_exist stat_error : Stat

abbrev pub stat_node : Node → Stat
stat_node missing = not_exist
stat_node dir = found_dir
stat_node (file c) = found_file

-- From a path on, along some segments: those before the last have to be directories.
abbrev pub stat_from : (List Bytes → Node) → List Bytes → List Bytes → Stat
stat_from disk here [] = stat_node (disk here)
stat_from disk here (x ∷ xs) = elim (disk here) [
  | missing ↦ not_exist
  | file c ↦ stat_error
  | dir ↦ stat_from disk (here ++ x ∷ []) xs
]

abbrev pub stat : (List Bytes → Node) → List Bytes → Stat
stat disk path = stat_from disk [] path

-- `isFile` and `isDir`; `none` is the panic of the missing answer.
abbrev pub is_file : Stat → Option Bool
is_file not_exist = some false
is_file found_file = some true
is_file found_dir = some false
is_file stat_error = none

abbrev pub is_dir : Stat → Option Bool
is_dir not_exist = some false
is_dir found_file = some false
is_dir found_dir = some true
is_dir stat_error = none

abbrev pub put_node : (List Bytes → Node) → List Bytes → Node → List Bytes → Node
put_node disk path n q = if q == path then n else disk q

abbrev pub sub_dirs : List Bytes
sub_dirs = codes "new" ∷ codes "cur" ∷ codes "tmp" ∷ []

-- `isMaildir`
unfoldable pub is_maildir_from : (List Bytes → Node) → List Bytes → List Bytes → Option Bool
is_maildir_from disk path [] = some true
is_maildir_from disk path (sub ∷ subs) = do
  found ← is_dir (stat disk (path ++ sub ∷ []))
  if found then is_maildir_from disk path subs else some false

abbrev pub node_content : Node → Option Bytes
node_content missing = none
node_content dir = none
node_content (file c) = some c

module _ (refuses : List Bytes → Bool) where
  -- What is made where there is nothing.
  unfoldable pub make_node : List Bytes → Node → (List Bytes → Node) → (List Bytes → Node) × Bool
  make_node path n disk = if refuses path then (disk, true) else (put_node disk path n, false)

  -- os.MkdirAll: the directories on the way to a path, and whether there is an error.
  unfoldable pub make_dir : List Bytes → (List Bytes → Node) → Node → (List Bytes → Node) × Bool
  make_dir path disk dir = (disk, false)
  make_dir path disk (file c) = (disk, true)
  make_dir path disk missing = make_node path dir disk

  unfoldable pub mkdir_from :
      List Bytes → List Bytes → (List Bytes → Node) → (List Bytes → Node) × Bool
  mkdir_from here [] disk = make_dir here disk (disk here)
  mkdir_from here (x ∷ xs) disk =
      let (disk', failed) = make_dir here disk (disk here) in
      let rest = mkdir_from (here ++ x ∷ []) xs disk' in if failed then (disk', true) else rest

  -- The loop over the sub-directories, after what was made before.
  unfoldable pub mkdir_subs :
      List Bytes → List Bytes → (List Bytes → Node) × Bool → (List Bytes → Node) × Bool
  mkdir_subs path [] (disk, failed) = (disk, failed)
  mkdir_subs path (sub ∷ subs) (disk, failed) =
      mkdir_subs path subs (if failed then (disk, true) else mkdir_from [] (path ++ sub ∷ []) disk)

  -- `touch`: an empty file, also over one that was there, in a directory.
  unfoldable pub touch_node :
      List Bytes → (List Bytes → Node) → Stat → Node → (List Bytes → Node) × Bool
  touch_node path disk found_file n = (disk, true)
  touch_node path disk not_exist n = (disk, true)
  touch_node path disk stat_error n = (disk, true)
  touch_node path disk found_dir dir = (disk, true)
  touch_node path disk found_dir missing = make_node path (file []) disk
  touch_node path disk found_dir (file c) = make_node path (file []) disk

  unfoldable pub touch : List Bytes → Bytes → (List Bytes → Node) → (List Bytes → Node) × Bool
  touch base name disk =
      let path = base ++ name ∷ [] in touch_node path disk (stat disk base) (disk path)

  -- The part of `initMaildir` that makes the maildir.
  unfoldable pub create :
      List Bytes → List Bytes → Bytes → (List Bytes → Node) → (List Bytes → Node) × Bool
  create base path name disk =
      let (disk', failed) = mkdir_subs path sub_dirs (mkdir_from [] path disk) in
      if failed then (disk', true) else touch base name disk'

module _ (open_fails close_fails : Bool) where
  abbrev pub init_result : List Oldmail × Option ReadError → List Oldmail ⊎ InitError
  init_result (oms, none) = inl oms
  init_result (oms, some e) = inr (cannot_read e)

  unfoldable pub read_oldmail_at :
      List Bytes → (List Bytes → Node) → Option (List Oldmail ⊎ InitError)
  read_oldmail_at path disk = do
    is_there ← is_file (stat disk path)
    some (
        init_result (
          read_oldmail open_fails close_fails
            (if is_there then node_content (disk path) else none)))

  -- `initExistingMaildir`
  unfoldable pub init_existing :
      List Bytes → List Bytes → Bytes → (List Bytes → Node) → Option (List Oldmail ⊎ InitError)
  init_existing base path name disk = do
    found ← is_maildir_from disk path sub_dirs
    if found then read_oldmail_at (base ++ name ∷ []) disk else some (inr no_maildir)

  unfoldable pub finish_init :
      List Bytes
      → List Bytes
      → Bytes
      → (List Bytes → Node) × Bool
      → Option ((List Bytes → Node) × (List Oldmail ⊎ InitError))
  finish_init base path name (disk, true) = some (disk, inr cannot_create)
  finish_init base path name (disk, false) = do
    result ← init_existing base path name disk
    some (disk, result)

  -- `initMaildir`, with the name of the oldmail file after its slashes were replaced.
  unfoldable pub init_on_disk :
      (List Bytes → Bool)
      → List Bytes
      → List Bytes
      → Bytes
      → (List Bytes → Node)
      → Option ((List Bytes → Node) × (List Oldmail ⊎ InitError))
  init_on_disk refuses base path name disk = do
    exists ← is_dir (stat disk path)
    finish_init base path name
        (if exists then (disk, false) else create refuses base path name disk)

  unfoldable pub init_maildir_on_disk :
      (List Bytes → Bool)
      → List Bytes
      → List Bytes
      → Bytes
      → (List Bytes → Node)
      → Option ((List Bytes → Node) × (List Oldmail ⊎ InitError))
  init_maildir_on_disk refuses base path oldmail_name disk =
      init_on_disk refuses base path (replace_all 47 (46 ∷ []) oldmail_name) disk
