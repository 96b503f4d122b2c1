-- ===== src/Imapgrab/Threads/Start.antt =====
-- The state in which the loop of `DownloadFolder` (core/core.go) begins.
use mathlib.Core.Path.{subst}
use mathlib.Core.List.{Permᴰ, flatten}
use go_imapgrab.Base.{◌≡◌, refl, sym, ap, ◌∙◌, Option, some, List, [], inl, inr, Bytes, ℤ, length}
use go_imapgrab.Connection.{ImapConfig, Client, ClientError, Network}
use go_imapgrab.Folder.{expand_folders}
use go_imapgrab.OrderedSet.{Iteration}
use go_imapgrab.Partition.{partition_folders, num_partitions}
use go_imapgrab.Partition.Complete.{partition_folders_total}
use go_imapgrab.Threading.{err, add_error}
use go_imapgrab.Imapgrab.Sessions.{new_session, authenticate_cases}
use go_imapgrab.Imapgrab.Threads.{
  starting, State, running, download_folder, first_state, begin, begin_loop, returned,
}

-- Nothing has been done, the main thread is logged in, and the partitions hold the folders.
pub record IsStart (all : List Bytes) (threads : ℤ) (list_err : Option Bytes) (s : State)
    : Type 0 where
  pub client : Client
  pub connected : s.main_ops.imap_ops ≡ some client
  pub collected : s.errs ≡ add_error [] list_err
  pub at_head : s.phase ≡ starting
  pub no_workers : s.workers ≡ []
  pub no_results : s.results ≡ []
  pub partitioned : partition_folders all threads ≡ some s.partitions
  pub number : length s.partitions ≡ num_partitions (length all) threads
  pub complete : Permᴰ (flatten s.partitions) all

returned_ne_running : (e : Option Bytes) (s : State) → returned e ≡ running s → ⊥
returned_ne_running e s h = cc

running_inj : (s t : State) → running s ≡ running t → s ≡ t
running_inj s t e = cc

module _ (it : Iteration) (text : ClientError → Bytes) where
  -- The arithmetic of the partitions never fails, so after the login the loop is reached.
  pub download_folder-IsStart :
      (cfg : ImapConfig) (net : Network) (folders : List Bytes) (threads : ℤ)
      (reply : List Bytes × Option Bytes) (s : State)
      → download_folder it text cfg net folders threads reply ≡ running s
      → IsStart (expand_folders it folders reply.0) threads reply.1 s
  unfolding download_folder begin begin_loop
  download_folder-IsStart cfg net folders threads reply s h =
      let (ps, e, l, perm) = partition_folders_total (expand_folders it folders reply.0) threads in
      elim (authenticate_cases net cfg) [
        | inl (client, _, a) ↦
            let same : first_state (new_session (some client)) reply.1 ps ≡ s =
              running_inj (first_state (new_session (some client)) reply.1 ps) s (
                sym (
                  ap (begin it text folders threads reply) a
                  ∙ ap (begin_loop (new_session (some client)) reply.1) e)
                ∙ h) in
            subst (IsStart (expand_folders it folders reply.0) threads reply.1) same (record {
              client = client;
              connected = refl;
              collected = refl;
              at_head = refl;
              no_workers = refl;
              no_results = refl;
              partitioned = e;
              number = l;
              complete = perm;
            })
        | inr (e', _, a) ↦ absurd (
            returned_ne_running (err (add_error [] (some (text e')))) s
              (sym (ap (begin it text folders threads reply) a) ∙ h))
      ]
