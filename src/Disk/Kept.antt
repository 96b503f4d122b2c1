-- ===== src/Disk/Kept.antt =====
-- The files of a disk when a maildir is made (core/maildir.go: `initMaildir`).
use mathlib.Core.Path.{subst}
use mathlib.Core.Option.{some-injective}
use go_imapgrab.Base.{
  ◌≡◌, refl, sym, ap, ◌∙◌, Bool, true, false, Bool-cases, some, eq_list_iff, bind-some, List, [],
  ◌∷◌, ◌++◌, Bytes, ◌==◌, list_eq, nat_eq, ◌⊎◌, inl, inr, replace_all, arith,
}
use go_imapgrab.Oldmail.{Oldmail}
use go_imapgrab.Download.{InitError}
use go_imapgrab.Disk.{
  Node, missing, dir, file, Stat, found_dir, found_file, not_exist, stat_error, stat, is_dir,
  put_node, sub_dirs, make_node, make_dir, mkdir_from, mkdir_subs, touch, touch_node, init_existing,
  create, finish_init, init_on_disk, init_maildir_on_disk,
}

-- The files of a disk, apart from one path, are there afterwards, with their contents.
pub Keeps : List Bytes → (List Bytes → Node) → (List Bytes → Node) → Type 0
Keeps o disk disk' =
    (q : List Bytes) (c : Bytes) → disk q ≡ file c → (q == o) ≡ false → disk' q ≡ file c

Keeps-refl : (o : List Bytes) (disk : List Bytes → Node) → Keeps o disk disk
unfolding Keeps
Keeps-refl o disk q c h n = h

Keeps-trans : (o : List Bytes) (a b c : List Bytes → Node) → Keeps o a b → Keeps o b c → Keeps o a c
unfolding Keeps
Keeps-trans o a b c f g q t h n = g q t (f q t h n) n

abbrev is_missing : Node → Bool
is_missing missing = true
is_missing dir = false
is_missing (file c) = false

put_dir-Keeps :
    (o path : List Bytes) (disk : List Bytes → Node)
    → disk path ≡ missing
    → Keeps o disk (put_node disk path dir)
unfolding Keeps
put_dir-Keeps o path disk m q c h n = elim (Bool-cases (q == path)) [
  | inl e ↦
      let same : q ≡ path = (eq_list_iff q path).0 e in
      let clash : missing ≡ file c = sym m ∙ ap disk (sym same) ∙ h in
      ground (arith, ap is_missing clash)
  | inr e ↦ rw e h
]

put_own-Keeps :
    (o : List Bytes) (disk : List Bytes → Node) (n : Node) → Keeps o disk (put_node disk o n)
unfolding Keeps
put_own-Keeps o disk n q c h e = rw e h

module _ (refuses : List Bytes → Bool) (open_fails close_fails : Bool) where
  make_dir-Keeps :
      (o path : List Bytes) (disk : List Bytes → Node) (n : Node)
      → disk path ≡ n
      → Keeps o disk (make_dir refuses path disk n).0
  unfolding make_dir make_node
  make_dir-Keeps o path disk dir e = Keeps-refl o disk
  make_dir-Keeps o path disk (file c) e = Keeps-refl o disk
  make_dir-Keeps o path disk missing e = elim (Bool-cases (refuses path)) [
    | inl r ↦ rw r (Keeps-refl o disk)
    | inr r ↦ rw r (put_dir-Keeps o path disk e)
  ]

  mkdir_from-Keeps :
      (o here xs : List Bytes) (disk : List Bytes → Node)
      → Keeps o disk (mkdir_from refuses here xs disk).0
  unfolding mkdir_from
  mkdir_from-Keeps o here [] disk = make_dir-Keeps o here disk (disk here) refl
  mkdir_from-Keeps o here (x ∷ xs) disk =
      let made = make_dir refuses here disk (disk here) in
      let first = make_dir-Keeps o here disk (disk here) refl in
      elim (Bool-cases made.1) [
        | inl e ↦ rw e first
        | inr e ↦
            rw e (Keeps-trans o disk made.0 _ first (mkdir_from-Keeps o (here ++ x ∷ []) xs made.0))
      ]

  mkdir_subs-Keeps :
      (o path subs : List Bytes) (disk : List Bytes → Node) (failed : Bool)
      → Keeps o disk (mkdir_subs refuses path subs (disk, failed)).0
  unfolding mkdir_subs
  mkdir_subs-Keeps o path [] disk failed = Keeps-refl o disk
  mkdir_subs-Keeps o path (sub ∷ subs) disk true = mkdir_subs-Keeps o path subs disk true
  mkdir_subs-Keeps o path (sub ∷ subs) disk false =
      let made = mkdir_from refuses [] (path ++ sub ∷ []) disk in
      Keeps-trans o disk made.0 _ (mkdir_from-Keeps o [] (path ++ sub ∷ []) disk)
        (mkdir_subs-Keeps o path subs made.0 made.1)

  touch_node-Keeps :
      (path : List Bytes) (disk : List Bytes → Node) (s : Stat) (n : Node)
      → Keeps path disk (touch_node refuses path disk s n).0
  unfolding touch_node make_node
  touch_node-Keeps path disk found_file n = Keeps-refl path disk
  touch_node-Keeps path disk not_exist n = Keeps-refl path disk
  touch_node-Keeps path disk stat_error n = Keeps-refl path disk
  touch_node-Keeps path disk found_dir dir = Keeps-refl path disk
  touch_node-Keeps path disk found_dir missing = elim (Bool-cases (refuses path)) [
    | inl r ↦ rw r (Keeps-refl path disk)
    | inr r ↦ rw r (put_own-Keeps path disk (file []))
  ]
  touch_node-Keeps path disk found_dir (file c) = elim (Bool-cases (refuses path)) [
    | inl r ↦ rw r (Keeps-refl path disk)
    | inr r ↦ rw r (put_own-Keeps path disk (file []))
  ]

  create-Keeps :
      (base path : List Bytes) (name : Bytes) (disk : List Bytes → Node)
      → Keeps (base ++ name ∷ []) disk (create refuses base path name disk).0
  unfolding create touch
  create-Keeps base path name disk =
      let o = base ++ name ∷ [] in
      let first = mkdir_from refuses [] path disk in
      let dirs = mkdir_subs refuses path sub_dirs first in
      let kept =
        Keeps-trans o disk first.0 dirs.0 (mkdir_from-Keeps o [] path disk)
          (mkdir_subs-Keeps o path sub_dirs first.0 first.1) in
      elim (Bool-cases dirs.1) [
        | inl e ↦ rw e kept
        | inr e ↦ rw e (
            Keeps-trans o disk dirs.0 _ kept
              (touch_node-Keeps o dirs.0 (stat dirs.0 base) (dirs.0 o)))
      ]

  finish_init-disk :
      (base path : List Bytes) (name : Bytes) (made : (List Bytes → Node) × Bool)
      (disk' : List Bytes → Node) (r : List Oldmail ⊎ InitError)
      → finish_init open_fails close_fails base path name made ≡ some (disk', r)
      → made.0 ≡ disk'
  unfolding finish_init
  finish_init-disk base path name (disk, true) disk' r h = ap (λ x. x.0) (some-injective _ _ h)
  finish_init-disk base path name (disk, false) disk' r h =
      let (result, e, last) =
        bind-some (init_existing open_fails close_fails base path name disk) _ _ h in
      ap (λ x. x.0) (some-injective _ _ last)

  -- Checking or making a maildir never touches a file but the oldmail file: every other file is
  -- there afterwards, with its content, whatever the system refuses and whether or not there is an
  -- error.
  pub init_maildir_on_disk-Keeps :
      (base path : List Bytes) (oldmail_name : Bytes) (disk disk' : List Bytes → Node)
      (r : List Oldmail ⊎ InitError)
      → init_maildir_on_disk open_fails close_fails refuses base path oldmail_name disk
        ≡ some (disk', r)
      → Keeps (base ++ replace_all 47 (46 ∷ []) oldmail_name ∷ []) disk disk'
  unfolding init_maildir_on_disk init_on_disk
  init_maildir_on_disk-Keeps base path oldmail_name disk disk' r h =
      let name = replace_all 47 (46 ∷ []) oldmail_name in
      let o = base ++ name ∷ [] in
      let (exists, e, last) = bind-some (is_dir (stat disk path)) _ _ h in
      elim (Bool-cases exists) [
        | inl t ↦
            subst (Keeps o disk)
              (finish_init-disk base path name (disk, false) disk' r (rw t at last))
              (Keeps-refl o disk)
        | inr f ↦
            let made = create refuses base path name disk in
            subst (Keeps o disk) (finish_init-disk base path name made disk' r (rw f at last))
              (create-Keeps base path name disk)
      ]
