-- ===== src/Examples/Folder.antt =====
-- core/ordered_set.go and core/folder.go at concrete inputs.
use mathlib.Core.List.Permᴰ
use mathlib.Core.List.{reverse}
use go_imapgrab.Base.{
  ◌≡◌, refl, false, ◌&&◌, List, [], ◌∷◌, Bytes, codes, list_eq, nat_eq, elem, le_bytes,
}
use go_imapgrab.Sort.{insert, sort, IsSorted}
use go_imapgrab.OrderedSet.{
  OrderedSet, Iteration, new_ordered_set, has, add, remove, add_all, remove_all, set_from_slice,
  ordered_entries, union, exclusion, IsUnique,
}
use go_imapgrab.OrderedSet.Order.{Call, insert_key, delete_key, run_spec}
use go_imapgrab.Folder.{
  is_gmail_dir, deselect, select, apply_spec, apply_specs, expand_folders, unselected_folders,
}
use go_imapgrab.Folder.Selection.{selected}
use go_imapgrab.Folder.Expansion.{expand_folders_exact}

-- Two runtimes: one visits a map in the order of insertion, one the other way round.
abbrev pub forwards : Iteration
forwards = record { visit = λ d. d; visit_perm = Permᴰ.refl }

abbrev backwards : Iteration
backwards = record { visit = reverse; visit_perm = Permᴰ.reverse }

abbrev calls : List Call
calls =
    insert_key (codes "b")
    ∷ insert_key (codes "a")
    ∷ insert_key (codes "b")
    ∷ delete_key (codes "b")
    ∷ insert_key (codes "c")
    ∷ insert_key (codes "b")
    ∷ []

calls_result : run_spec [] calls ≡ codes "a" ∷ codes "c" ∷ codes "b" ∷ []
unfolding run_spec
calls_result = refl

abbrev ab : OrderedSet
ab = add_all new_ordered_set (codes "a" ∷ codes "b" ∷ [])

abbrev ba : OrderedSet
ba = add_all new_ordered_set (codes "b" ∷ codes "a" ∷ [])

abbrev available : List Bytes
available =
    codes "INBOX" ∷ codes "[Gmail]/Trash" ∷ codes "Archive" ∷ codes "-old" ∷ codes "old" ∷ []

abbrev specs : List Bytes
specs = codes "_ALL_" ∷ codes "-_Gmail_" ∷ codes "Missing" ∷ codes "-old" ∷ []

expand_folders_exact_example :
    ((j : Bytes)
      → elem j (expand_folders backwards specs available)
        ≡ (selected available false specs j && elem j available))
    × IsSorted le_bytes (expand_folders backwards specs available)
    × IsUnique (expand_folders backwards specs available)
expand_folders_exact_example = expand_folders_exact specs available backwards

program : Unit {0}
unfolding insert sort has add remove add_all remove_all set_from_slice ordered_entries union
    exclusion new_ordered_set is_gmail_dir deselect select apply_spec apply_specs expand_folders
    unselected_folders
program = tt

expanded :
    expand_folders forwards specs available ≡ codes "-old" ∷ codes "Archive" ∷ codes "INBOX" ∷ []
unfolding program
expanded = refl

warned : unselected_folders forwards specs available ≡ codes "Missing" ∷ []
unfolding program
warned = refl
