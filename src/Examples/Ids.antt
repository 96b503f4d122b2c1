-- ===== src/Examples/Ids.antt =====
-- core/ids.go and `partitionFolders` of core/core.go at concrete inputs.
use mathlib.Core.List.{Permᴰ, flatten}
use go_imapgrab.Base.{
  ◌≡◌, ◌↔◌, ℕ, refl, some, not, ◌&&◌, List, [], ◌∷◌, inl, inr, ℤ, pos, negsuc, int_eq, elem, length,
  Bytes, codes,
}
use go_imapgrab.Oldmail.{Oldmail}
use go_imapgrab.Ids.{UidExt, determine_missing_uids, oldmail_uids, inconsistent_stored}
use go_imapgrab.Ids.Missing.{
  IsConsistent, server_uids, determine_missing_uids-IsConsistent, determine_missing_uids_exact,
}
use go_imapgrab.Partition.{num_partitions, append_at, distribute, partition_folders}
use go_imapgrab.Partition.Complete.{partition_folders_total}

abbrev on_server : List UidExt
on_server =
    record { folder = pos 7; msg = pos 1 }
    ∷ record { folder = pos 7; msg = pos 2 }
    ∷ record { folder = pos 7; msg = pos 3 }
    ∷ []

abbrev stored_mail : ℕ → Oldmail
stored_mail n = record { uid_folder = pos 7; uid = pos n; timestamp = pos 0 }

on_server-IsConsistent : IsConsistent (pos 7) (stored_mail 2 ∷ []) on_server
on_server-IsConsistent = record { retrieved = (refl, (refl, (refl, tt))); stored = (refl, tt) }

missing_result : determine_missing_uids (stored_mail 2 ∷ []) on_server ≡ inl (pos 1 ∷ pos 3 ∷ [])
unfolding determine_missing_uids
missing_result = refl

-- A mailbox that the server has numbered anew is an error.
renumbered :
    determine_missing_uids (stored_mail 2 ∷ []) (record { folder = pos 8; msg = pos 1 } ∷ [])
    ≡ inr inconsistent_stored
unfolding determine_missing_uids
renumbered = refl

determine_missing_uids-IsConsistent_example :
    IsConsistent (pos 7) (stored_mail 2 ∷ []) on_server
    ↔ ((ms : List ℤ) × (determine_missing_uids (stored_mail 2 ∷ []) on_server ≡ inl ms))
determine_missing_uids-IsConsistent_example =
    determine_missing_uids-IsConsistent (stored_mail 2 ∷ [])
      (record { folder = pos 7; msg = pos 1 })
      (record { folder = pos 7; msg = pos 2 } ∷ record { folder = pos 7; msg = pos 3 } ∷ [])

determine_missing_uids_exact_example : elem (pos 3) (pos 1 ∷ pos 3 ∷ []) ≡ (
    elem (pos 3) (server_uids on_server) && not (elem (pos 3) (oldmail_uids (stored_mail 2 ∷ []))))
determine_missing_uids_exact_example =
    determine_missing_uids_exact (stored_mail 2 ∷ []) on_server (pos 1 ∷ pos 3 ∷ []) missing_result
      (pos 3)

abbrev five : List Bytes
five = codes "a" ∷ codes "b" ∷ codes "c" ∷ codes "d" ∷ codes "e" ∷ []

abbrev dealt : List (List Bytes)
dealt = (codes "a" ∷ codes "c" ∷ codes "e" ∷ []) ∷ (codes "b" ∷ codes "d" ∷ []) ∷ []

partition_five : partition_folders five (pos 2) ≡ some dealt
unfolding partition_folders num_partitions distribute append_at
partition_five = refl

partition_folders_total_example :
    (ps : List (List Bytes)) × (partition_folders five (negsuc 0) ≡ some ps)
    × (length ps ≡ num_partitions 5 (negsuc 0))
    × Permᴰ (flatten ps) five
partition_folders_total_example = partition_folders_total five (negsuc 0)
