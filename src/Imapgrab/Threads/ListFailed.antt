-- ===== src/Imapgrab/Threads/ListFailed.antt =====
-- `DownloadFolder` (core/core.go) when `getFolderList` has returned an error.
use mathlib.Core.Path.{subst}
use go_imapgrab.Base.{
  inl, inr, ℕ, ◌≡◌, sym, ap, ◌∙◌, true, Option, some, List, [], ◌∷◌, map, Bytes, ℤ, arith,
}
use go_imapgrab.Connection.{ImapConfig, ClientError, Network}
use go_imapgrab.Folder.{expand_folders}
use go_imapgrab.OrderedSet.{Iteration}
use go_imapgrab.Threading.{bad}
use go_imapgrab.Imapgrab.FolderList
use go_imapgrab.Imapgrab.FolderList.Race.{folder_list_sent}
use go_imapgrab.Imapgrab.{Imapgrabber, LogoutAnswer, authenticate}
use go_imapgrab.Imapgrab.Threads.{
  Worker, State, open_thread, prepare, decide, finish, signal_all, signal_worker, Move, prepares,
  decides, downloads, ends, finishes, Run, here, signalled, moved, running, download_folder,
}
use go_imapgrab.Imapgrab.Threads.Start.{download_folder-IsStart}
use go_imapgrab.Imapgrab.Threads.Clients.{HasClients, bad-add_some}
use go_imapgrab.Imapgrab.Threads.Clients.Steps.{
  start-HasClients, Move-HasClients, signal_all-HasClients,
}
use go_imapgrab.Imapgrab.Threads.Places.{nil_ne_middle}
use go_imapgrab.Imapgrab.Threads.Places.Steps.{Move-Kept}

abbrev IsIdle : State → Type 0
IsIdle s = (s.workers ≡ []) × (s.results ≡ [])

open_thread-IsIdle :
    (text : ClientError → Bytes) (a : Imapgrabber × Option ClientError) (ps : List (List Bytes))
    (s : State)
    → IsIdle s
    → IsIdle (open_thread text a ps s)
unfolding open_thread
open_thread-IsIdle text a [] s h = h
open_thread-IsIdle text a (p ∷ ps) s h = ground arith

decide-IsIdle :
    (answer : LogoutAnswer) (w : Worker) (s : State)
    → bad s.errs ≡ true
    → IsIdle s
    → IsIdle (decide answer w s)
unfolding decide
decide-IsIdle answer w s b h = ground arith

finish-IsIdle : (answer : LogoutAnswer) (s : State) → IsIdle s → IsIdle (finish answer s)
unfolding finish
finish-IsIdle answer s h = ground arith

module _ (text : ClientError → Bytes) (cfg : ImapConfig) where
  Move-IsIdle : (s t : State) → Move text cfg s t → bad s.errs ≡ true → IsIdle s → IsIdle t
  unfolding prepare
  Move-IsIdle s _ (prepares net e) b h =
      open_thread-IsIdle text (authenticate net cfg) s.partitions s h
  Move-IsIdle s _ (decides answer w e) b h = decide-IsIdle answer w s b h
  Move-IsIdle s _ (downloads result before after ops folder folders e) b h = absurd (
      nil_ne_middle before after (record { ops = ops; partition = folder ∷ folders }) (sym h.0 ∙ e))
  Move-IsIdle s _ (ends answer before after ops e) b h =
      absurd (nil_ne_middle before after (record { ops = ops; partition = [] }) (sym h.0 ∙ e))
  Move-IsIdle s _ (finishes answer e n) b h = finish-IsIdle answer s h

  Run-IsIdle :
      (n : ℕ) (s t : State)
      → Run text cfg n s t
      → HasClients s
      → bad s.errs ≡ true
      → IsIdle s
      → IsIdle t × (bad t.errs ≡ true)
  unfolding signal_all
  Run-IsIdle _ _ _ (here s) c b h = (h, b)
  Run-IsIdle _ _ _ (signalled n s t r) c b h =
      Run-IsIdle n (signal_all s) t r (signal_all-HasClients s c) b
        (ap (map signal_worker) h.0, h.1)
  Run-IsIdle _ _ _ (moved n s t u m r) c b h =
      Run-IsIdle n t u r (Move-HasClients text cfg s t m c) ((Move-Kept text cfg s t m c).mono b)
        (Move-IsIdle s t m b h)

nothing_started :
    (it : Iteration) (text : ClientError → Bytes) (cfg : ImapConfig) (net : Network)
    (folders : List Bytes) (threads : ℤ) (available : List Bytes) (e : Bytes) (n : ℕ) (s t : State)
    → download_folder it text cfg net folders threads (available, some e) ≡ running s
    → Run text cfg n s t
    → (t.results ≡ []) × (t.workers ≡ []) × (bad t.errs ≡ true)
nothing_started it text cfg net folders threads available e n s t h r =
    let st = download_folder-IsStart it text cfg net folders threads (available, some e) s h in
    let ((workers, results), failed) =
      Run-IsIdle text cfg n s t r
        (start-HasClients (expand_folders it folders available) threads (some e) s st)
        (subst (λ r. bad r ≡ true) (sym st.collected) (bad-add_some [] e))
        (st.no_workers, st.no_results) in
    (results, workers, failed)

-- When `getFolderList` returns an error, it is the error of the request for the folders, and the
-- folders that it returns with it are those that the server had listed before; then no folder is
-- downloaded and no thread is started, however the threads are interleaved and whatever signals
-- come, and there is an error in the end. (`getFolderList` need not return the error of a request
-- that has failed: it does not wait for it.)
pub download_folder_list_failed :
    (it : Iteration) (text : ClientError → Bytes) (cfg : ImapConfig) (net : Network)
    (folders : List Bytes) (threads : ℤ) (sent : List Bytes) (answer : Option Bytes) (k : ℕ)
    (l : FolderList.State) (available : List Bytes) (e : Bytes) (n : ℕ) (s t : State)
    → FolderList.Steps answer k (FolderList.first_state sent) l
    → l.reply ≡ some (available, some e)
    → download_folder it text cfg net folders threads (available, some e) ≡ running s
    → Run text cfg n s t
    → (answer ≡ some e)
      × (available ≡ sent)
      × (t.results ≡ [])
      × (t.workers ≡ [])
      × (bad t.errs ≡ true)
download_folder_list_failed it text cfg net folders threads sent answer k l available e n s t
      listing reply h r =
    let (same, from) = folder_list_sent sent answer k l available (some e) listing reply in
    let own : answer ≡ some e = elim from [ inl o ↦ absurd (ground (arith, o)) | inr o ↦ sym o ] in
    let (results, workers, bad_end) =
      nothing_started it text cfg net folders threads available e n s t h r in
    (own, same, results, workers, bad_end)
