-- ===== src/Examples/Imapgrab.antt =====
-- core/core.go at concrete inputs.
use go_imapgrab.Base.{
  arith, ℕ, ◌≡◌, ◌≤◌, ◌*◌, ◌+◌, refl, List, [], ◌∷◌, Bytes, true, false, Option, none, some, codes,
  pos, suc, length,
}
use go_imapgrab.Decimal.{print_ℤ}
use go_imapgrab.Connection.{ClientError, Network, authenticate_client, new_imap_client}
use go_imapgrab.Examples.Connection.{open_network, local}
use go_imapgrab.Examples.Folder.{forwards}
use go_imapgrab.Sort.{insert, sort}
use go_imapgrab.Folder.{is_gmail_dir, deselect, select, apply_spec, apply_specs, expand_folders}
use go_imapgrab.Partition.{partition_folders, num_partitions, distribute, append_at}
use go_imapgrab.Imapgrab.Threads.Places.{count, names, Clean}
use go_imapgrab.OrderedSet.{
  new_ordered_set, has, add, remove, add_all, remove_all, set_from_slice, ordered_entries, union,
}
use go_imapgrab.Threading.{bad, err, add_error, interrupted, new_interrupt_ops, register}
use go_imapgrab.Imapgrab.FolderList
use go_imapgrab.Imapgrab.{Imapgrabber, LogoutAnswer, authenticate, logout, download_missing}
use go_imapgrab.Imapgrab.Threads.{
  Worker, finished, panicked, State, open_thread, prepare, decide, finish, download_next,
  end_thread, prepares, decides, downloads, ends, finishes, Run, here, moved, first_state, begin,
  begin_loop, running, download_folder,
}
use go_imapgrab.Imapgrab.Threads.Bounded.{download_folder_terminates, download_folder_threads}
use go_imapgrab.Imapgrab.Threads.ListFailed.{download_folder_list_failed}
use go_imapgrab.Imapgrab.Threads.Progress.{Ending, download_folder_ends}
use go_imapgrab.Imapgrab.Threads.Finished.{
  download_folder_complete, download_folder_once, download_folder_panics,
}

abbrev text : ClientError → Bytes
text e = codes "login failed"

abbrev closed_network : Network
closed_network = record open_network { dial = λ _. false }

abbrev goodbye : LogoutAnswer
goodbye = record { terminated = none; logged_out = none }

abbrev two_folders : List Bytes
two_folders = codes "a" ∷ codes "b" ∷ []

abbrev reply : List Bytes × Option Bytes
reply = (two_folders, none)

abbrev session : Imapgrabber
session = (authenticate open_network local).0

abbrev s0 : State
s0 = first_state session none ((codes "a" ∷ []) ∷ (codes "b" ∷ []) ∷ [])

begins :
    download_folder forwards text local open_network (codes "_ALL_" ∷ []) (pos 2) reply ≡ running s0
unfolding insert sort has add remove add_all remove_all set_from_slice ordered_entries union
    new_ordered_set is_gmail_dir deselect select apply_spec apply_specs expand_folders
    partition_folders num_partitions distribute append_at download_folder begin begin_loop
    authenticate authenticate_client new_imap_client print_ℤ
begins = refl

-- Both logins come about, the second thread is interrupted by nobody, and all ends well.

abbrev first_worker : List Bytes → Worker
first_worker folders = record { ops = none; partition = folders }

abbrev second_worker : List Bytes → Worker
second_worker folders = record { ops = some session; partition = folders }

abbrev s2 : State
s2 = decide goodbye (first_worker (codes "a" ∷ [])) (prepare text local open_network s0)

abbrev s4 : State
s4 = decide goodbye (second_worker (codes "b" ∷ [])) (prepare text local open_network s2)

abbrev s5 : State
s5 = prepare text local open_network s4

abbrev s6 : State
s6 = download_next none (first_worker (codes "a" ∷ []) ∷ []) [] (some session) (codes "b") [] s5

abbrev s7 : State
s7 = download_next none [] (second_worker [] ∷ []) none (codes "a") [] s6

abbrev s8 : State
s8 = end_thread goodbye [] (second_worker [] ∷ []) none s7

abbrev s9 : State
s9 = end_thread goodbye [] [] (some session) s8

abbrev s10 : State
s10 = finish goodbye s9

good-Run : Run text local 10 s0 s10
unfolding prepare open_thread decide download_next end_thread finish authenticate
    authenticate_client new_imap_client print_ℤ interrupted new_interrupt_ops register bad add_error
    download_missing logout
good-Run = moved 9 s0 (prepare text local open_network s0) s10 (prepares open_network refl) (
    moved 8 (prepare text local open_network s0) s2 s10
      (decides goodbye (first_worker (codes "a" ∷ [])) refl)
      (moved 7 s2 (prepare text local open_network s2) s10 (prepares open_network refl) (
        moved 6 (prepare text local open_network s2) s4 s10
          (decides goodbye (second_worker (codes "b" ∷ [])) refl)
          (moved 5 s4 s5 s10 (prepares open_network refl) (
            moved 4 s5 s6 s10
              (downloads none (first_worker (codes "a" ∷ []) ∷ []) [] (some session) (codes "b") []
                refl)
              (moved 3 s6 s7 s10
                (downloads none [] (second_worker [] ∷ []) none (codes "a") [] refl)
                (moved 2 s7 s8 s10 (ends goodbye [] (second_worker [] ∷ []) none refl) (
                  moved 1 s8 s9 s10 (ends goodbye [] [] (some session) refl)
                    (moved 0 s9 s10 s10 (finishes goodbye refl refl) (here s10))))))))))

good_end : (s10.phase ≡ finished) × (err s10.errs ≡ none)
unfolding prepare open_thread decide download_next end_thread finish authenticate
    authenticate_client new_imap_client print_ℤ interrupted new_interrupt_ops register bad add_error
    download_missing logout err
good_end = (refl, refl)

-- The login of the second thread fails.
abbrev p3 : State
p3 = prepare text local closed_network s2

abbrev lost_session : Imapgrabber
lost_session = (authenticate closed_network local).0

abbrev p4 : State
p4 = decide goodbye (record { ops = some lost_session; partition = codes "b" ∷ [] }) p3

bad-Run : Run text local 4 s0 p4
unfolding prepare open_thread decide authenticate authenticate_client new_imap_client print_ℤ
    interrupted new_interrupt_ops register bad add_error logout
bad-Run = moved 3 s0 (prepare text local open_network s0) p4 (prepares open_network refl) (
    moved 2 (prepare text local open_network s0) s2 p4
      (decides goodbye (first_worker (codes "a" ∷ [])) refl)
      (moved 1 s2 p3 p4 (prepares closed_network refl) (
        moved 0 p3 p4 p4
          (decides goodbye (record { ops = some lost_session; partition = codes "b" ∷ [] }) refl)
          (here p4))))

bad_end : p4.phase ≡ panicked
unfolding prepare open_thread decide authenticate authenticate_client new_imap_client print_ℤ
    interrupted new_interrupt_ops register bad add_error logout
bad_end = refl

download_folder_terminates_example :
    10
    ≤ 3 * num_partitions (length (expand_folders forwards (codes "_ALL_" ∷ []) two_folders)) (pos 2)
      + length (expand_folders forwards (codes "_ALL_" ∷ []) two_folders)
      + 3
download_folder_terminates_example =
    download_folder_terminates forwards text local open_network (codes "_ALL_" ∷ []) (pos 2) reply
      10 s0 s10 begins good-Run

download_folder_threads_example :
    (length s10.workers ≤ length (expand_folders forwards (codes "_ALL_" ∷ []) two_folders))
    × ((k : ℕ) → pos 2 ≡ pos (suc k) → length s10.workers ≤ suc k)
download_folder_threads_example =
    download_folder_threads forwards text local open_network (codes "_ALL_" ∷ []) (pos 2) reply 10
      s0 s10 begins good-Run

download_folder_complete_example :
    ((f : Bytes)
      → count f (names s10.results)
        ≡ count f (expand_folders forwards (codes "_ALL_" ∷ []) two_folders))
    × Clean s10.results
download_folder_complete_example =
    download_folder_complete forwards text local open_network (codes "_ALL_" ∷ []) (pos 2) reply 10
      s0 s10 begins good-Run good_end.0 good_end.1

download_folder_once_example : count (codes "a") (names s10.results) ≤ 1
download_folder_once_example =
    download_folder_once forwards text local open_network (codes "_ALL_" ∷ []) (pos 2) reply 10 s0
      s10 begins good-Run (codes "a")

download_folder_panics_example : bad p4.errs ≡ true
download_folder_panics_example =
    download_folder_panics forwards text local open_network (codes "_ALL_" ∷ []) (pos 2) reply 4 s0
      p4 begins bad-Run bad_end

-- The first thread is about to be started.
abbrev s1 : State
s1 = prepare text local open_network s0

first-Run : Run text local 1 s0 s1
unfolding prepare
first-Run = moved 0 s0 s1 s1 (prepares open_network refl) (here s1)

download_folder_ends_example : Ending text local s1
download_folder_ends_example =
    download_folder_ends forwards text local open_network (codes "_ALL_" ∷ []) (pos 2) reply 1 s0 s1
      begins first-Run closed_network goodbye

-- The request for the folders fails after the first folder.
abbrev q0 : State
q0 = first_state session (some (codes "lost")) ((codes "a" ∷ []) ∷ [])

begins_failed :
    download_folder forwards text local open_network
      (codes "_ALL_" ∷ [])
      (pos 2)
      (codes "a" ∷ [], some (codes "lost"))
    ≡ running q0
unfolding insert sort has add remove add_all remove_all set_from_slice ordered_entries union
    new_ordered_set is_gmail_dir deselect select apply_spec apply_specs expand_folders
    partition_folders num_partitions distribute append_at download_folder begin begin_loop
    authenticate authenticate_client new_imap_client print_ℤ
begins_failed = refl

abbrev q2 : State
q2 = decide goodbye (first_worker (codes "a" ∷ [])) (prepare text local open_network q0)

failed-Run : Run text local 2 q0 q2
unfolding prepare open_thread
failed-Run = moved 1 q0 (prepare text local open_network q0) q2 (prepares open_network refl) (
    moved 0 (prepare text local open_network q0) q2 q2
      (decides goodbye (first_worker (codes "a" ∷ [])) refl) (here q2))

abbrev one_folder : List Bytes
one_folder = codes "a" ∷ []

-- The listing: one folder is sent, then `List` answers with an error, and only then the loop ends.
abbrev lost : Option Bytes
lost = some (codes "lost")

abbrev sending : FolderList.State
sending = FolderList.first_state (codes "a" ∷ [])

abbrev on_the_way : FolderList.State
on_the_way = record sending { to_send = []; mailboxes = codes "a" ∷ [] }

abbrev shut : FolderList.State
shut = record on_the_way { closed = true }

abbrev noted : FolderList.State
noted = record shut { list_ended = true; err = lost }

abbrev collected : FolderList.State
collected = record noted { mailboxes = []; folders = codes "a" ∷ [] }

abbrev listed : FolderList.State
listed = record collected { reply = some (codes "a" ∷ [], lost) }

listing : FolderList.Steps lost 5 sending listed
listing =
    FolderList.next 4 sending on_the_way listed (FolderList.sends (codes "a") [] refl (omega arith))
      (FolderList.next 3 on_the_way shut listed (FolderList.closes refl refl) (
        FolderList.next 2 shut noted listed (FolderList.list_ends refl refl) (
          FolderList.next 1 noted collected listed (FolderList.receives (codes "a") [] refl refl) (
            FolderList.next 0 collected listed listed (FolderList.returns refl refl refl)
              (FolderList.here listed)))))

-- The loop ends first: the error is lost.
abbrev unnoted : FolderList.State
unnoted = record shut { mailboxes = []; folders = codes "a" ∷ [] }

abbrev error_lost : FolderList.State
error_lost = record unnoted { reply = some (codes "a" ∷ [], none) }

losing : FolderList.Steps lost 4 sending error_lost
losing =
    FolderList.next 3 sending on_the_way error_lost
      (FolderList.sends (codes "a") [] refl (omega arith))
      (FolderList.next 2 on_the_way shut error_lost (FolderList.closes refl refl) (
        FolderList.next 1 shut unnoted error_lost (FolderList.receives (codes "a") [] refl refl) (
          FolderList.next 0 unnoted error_lost error_lost (FolderList.returns refl refl refl)
            (FolderList.here error_lost))))

download_folder_list_failed_example :
    (lost ≡ some (codes "lost"))
    × (one_folder ≡ one_folder)
    × (q2.results ≡ [])
    × (q2.workers ≡ [])
    × (bad q2.errs ≡ true)
download_folder_list_failed_example =
    download_folder_list_failed forwards text local open_network (codes "_ALL_" ∷ []) (pos 2)
      (codes "a" ∷ []) lost 5 listed (codes "a" ∷ []) (codes "lost") 2 q0 q2 listing refl
      begins_failed failed-Run
