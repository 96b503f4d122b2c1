-- ===== src/Disk/Again.antt =====
-- `initMaildir` of core/maildir.go on the disk that it has left.
use mathlib.Core.Path.{subst}
use mathlib.Core.Option.{some-injective}
use go_imapgrab.Base.{
  ◌≡◌, refl, ap, ◌∙◌, Bool, true, false, Bool-cases, some, bind-some, List, [], ◌∷◌, ◌++◌, Bytes,
  list_eq, nat_eq, inl, inr, replace_all, if◌then◌else◌, arith, codes,
}
use go_imapgrab.Oldmail.{Oldmail}
use go_imapgrab.Disk.{
  Node, missing, dir, file, Stat, found_dir, found_file, not_exist, stat_error, stat_from, stat,
  is_dir, sub_dirs, is_maildir_from, init_existing, create, finish_init, init_on_disk,
  init_maildir_on_disk,
}

is_dir-found : (s : Stat) → is_dir s ≡ some true → s ≡ found_dir
is_dir-found found_dir h = refl
is_dir-found found_file h = ground (arith, some-injective _ _ h)
is_dir-found not_exist h = ground (arith, some-injective _ _ h)
is_dir-found stat_error h = ground (arith, h)

abbrev is_found : Stat → Bool
is_found found_dir = true
is_found found_file = false
is_found not_exist = false
is_found stat_error = false

-- What a directory stands in is a directory.
stat_from-above :
    (disk : List Bytes → Node) (here xs : List Bytes) (y : Bytes) (n : Node)
    → disk here ≡ n
    → stat_from disk here (xs ++ y ∷ []) ≡ found_dir
    → stat_from disk here xs ≡ found_dir
stat_from-above disk here [] y dir e h = rw e refl
stat_from-above disk here [] y missing e h = ground (arith, ap is_found (rw e at h))
stat_from-above disk here [] y (file c) e h = ground (arith, ap is_found (rw e at h))
stat_from-above disk here (x ∷ xs) y dir e h =
    rw (e, stat_from)
      (stat_from-above disk (here ++ x ∷ []) xs y (disk (here ++ x ∷ [])) refl (rw e at h))
stat_from-above disk here (x ∷ xs) y missing e h = ground (arith, ap is_found (rw e at h))
stat_from-above disk here (x ∷ xs) y (file c) e h = ground (arith, ap is_found (rw e at h))

is_maildir-is_dir :
    (disk : List Bytes → Node) (path : List Bytes)
    → is_maildir_from disk path sub_dirs ≡ some true
    → is_dir (stat disk path) ≡ some true
unfolding is_maildir_from
is_maildir-is_dir disk path h =
    let sub = codes "new" in
    let (found, e, last) = bind-some (is_dir (stat disk (path ++ sub ∷ []))) _ _ h in
    elim (Bool-cases found) [
      | inl t ↦
          let there = is_dir-found (stat disk (path ++ sub ∷ [])) (e ∙ ap (λ b. some b) t) in
          ap is_dir (stat_from-above disk [] path sub (disk []) refl there)
      | inr f ↦ ground (arith, some-injective _ _ (rw f at last))
    ]

module _ (open_fails close_fails : Bool) (base path : List Bytes) (name : Bytes) where
  existing-is_dir :
      (disk : List Bytes → Node) (oms : List Oldmail)
      → init_existing open_fails close_fails base path name disk ≡ some (inl oms)
      → is_dir (stat disk path) ≡ some true
  unfolding init_existing
  existing-is_dir disk oms h =
      let (found, e, last) = bind-some (is_maildir_from disk path sub_dirs) _ _ h in
      elim (Bool-cases found) [
        | inl t ↦ is_maildir-is_dir disk path (e ∙ ap (λ b. some b) t)
        | inr f ↦ ground (arith, some-injective _ _ (rw f at last))
      ]

  finish_init-existing :
      (made : (List Bytes → Node) × Bool) (disk' : List Bytes → Node) (oms : List Oldmail)
      → finish_init open_fails close_fails base path name made ≡ some (disk', inl oms)
      → init_existing open_fails close_fails base path name disk' ≡ some (inl oms)
  unfolding finish_init
  finish_init-existing (disk, true) disk' oms h =
      ground (arith, ap (λ x. x.1) (some-injective _ _ h))
  finish_init-existing (disk, false) disk' oms h =
      let (result, e, last) =
        bind-some (init_existing open_fails close_fails base path name disk) _ _ h in
      let same = some-injective _ _ last in
      subst (λ d. init_existing open_fails close_fails base path name d ≡ some (inl oms))
        (ap (λ x. x.0) same) (e ∙ ap (λ x. some x.1) same)

-- When checking or making a maildir has no error, doing it again on the disk it has left, whatever
-- the system then refuses to create, changes nothing and gives the same records.
pub init_maildir_on_disk_again :
    (refuses refuses' : List Bytes → Bool) (open_fails close_fails : Bool) (base path : List Bytes)
    (oldmail_name : Bytes) (disk disk' : List Bytes → Node) (oms : List Oldmail)
    → init_maildir_on_disk open_fails close_fails refuses base path oldmail_name disk
      ≡ some (disk', inl oms)
    → init_maildir_on_disk open_fails close_fails refuses' base path oldmail_name disk'
      ≡ some (disk', inl oms)
unfolding init_maildir_on_disk init_on_disk finish_init
init_maildir_on_disk_again refuses refuses' open_fails close_fails base path oldmail_name disk disk'
      oms h =
    let name = replace_all 47 (46 ∷ []) oldmail_name in
    let (exists, e, last) = bind-some (is_dir (stat disk path)) _ _ h in
    let made = if exists then (disk, false) else create refuses base path name disk in
    let found = finish_init-existing open_fails close_fails base path name made disk' oms last in
    let there = existing-is_dir open_fails close_fails base path name disk' oms found in
    rw (there, found) refl
