-- ===== src/Examples/Disk.antt =====
-- A maildir on a small disk.
use go_imapgrab.Base.{
  ◌≡◌, refl, Bool, true, false, none, some, List, [], ◌∷◌, ◌++◌, Bytes, codes, ◌==◌, list_eq, ◌||◌,
  nat_eq, inl, replace_all, if◌then◌else◌,
}
use go_imapgrab.Oldmail.{read_oldmail, parse_oldmails, read_lines, split_lines}
use go_imapgrab.Disk.{
  Node, missing, dir, file, stat, is_dir, is_maildir_from, make_node, make_dir, mkdir_from,
  mkdir_subs, touch, touch_node, read_oldmail_at, init_existing, create, finish_init, init_on_disk,
  init_maildir_on_disk,
}
use go_imapgrab.Disk.Kept.{Keeps, init_maildir_on_disk-Keeps}
use go_imapgrab.Disk.Again.{init_maildir_on_disk_again}

abbrev base : List Bytes
base = codes "mail" ∷ []

abbrev path : List Bytes
path = codes "mail" ∷ codes "box" ∷ []

abbrev note : List Bytes
note = codes "mail" ∷ codes "note" ∷ []

abbrev disk : List Bytes → Node
disk q = if q == [] || q == base then dir else if q == note then file (codes "n") else missing

abbrev anything : List Bytes → Bool
anything q = false

-- A path through a file: the panic.
through_file : is_dir (stat disk (note ++ codes "x" ∷ [])) ≡ none
through_file = refl

abbrev made : List Bytes → Node
made = (create anything base path (codes "box.old") disk).0

box_made :
    init_maildir_on_disk false false anything base path (codes "box/old") disk ≡ some (made, inl [])
unfolding init_maildir_on_disk init_on_disk finish_init init_existing read_oldmail_at
    is_maildir_from create mkdir_subs mkdir_from make_dir make_node touch touch_node read_oldmail
    parse_oldmails read_lines split_lines
box_made = refl

init_maildir_on_disk-Keeps_example :
    Keeps (base ++ replace_all 47 (46 ∷ []) (codes "box/old") ∷ []) disk made
init_maildir_on_disk-Keeps_example =
    init_maildir_on_disk-Keeps anything false false base path (codes "box/old") disk made (inl [])
      box_made

init_maildir_on_disk_again_example :
    init_maildir_on_disk false false (λ q. true) base path (codes "box/old") made
    ≡ some (made, inl [])
init_maildir_on_disk_again_example =
    init_maildir_on_disk_again anything (λ q. true) false false base path (codes "box/old") disk
      made [] box_made
