-- ===== src/Imapgrab/Threads.antt =====
-- `DownloadFolder` of core/core.go: the download threads and the main thread, interleaved.
--
-- A call of `errs.add`, of a session or of the interrupter is one step together with what leads to
-- it. How the download of a folder ends is open: each step of a thread has its own answer, as each
-- login and logout has.
pub mod Start
pub mod Clients
pub mod Places
pub mod Finished
pub mod Bounded
pub mod Progress
pub mod ListFailed
use go_imapgrab.Base.{
  ℕ, suc, Bool, true, false, not, ◌&&◌, ◌≡◌, Option, none, some, List, [], ◌∷◌, ◌++◌, map, Bytes,
  codes, ℤ, eqb, length, if◌then◌else◌,
}
use go_imapgrab.Connection.{ImapConfig, ClientError, Network}
use go_imapgrab.Folder.{expand_folders}
use go_imapgrab.OrderedSet.{Iteration}
use go_imapgrab.Partition.{partition_folders}
use go_imapgrab.Threading.{
  Interrupter, new_interrupt_ops, interrupted, signal, deregister, ThreadSafeErrors, add_error, bad,
  err,
}
use go_imapgrab.Imapgrab.{
  Imapgrabber, signals_to_wait_for, LogoutAnswer, authenticate, logout, download_missing,
}

-- A thread has its own session, but for the first, which has that of the main thread, here `none`;
-- and the folders that it has still to download.
pub record Worker : Type 0 where
  pub ops : Option Imapgrabber
  pub partition : List Bytes

-- The main thread: at the head of the loop; behind the login of a thread; in `wg.Wait`; and after
-- the return.
pub data Phase : Type 0 where
  starting : Phase
  opened : Worker → Phase
  waiting finished panicked : Phase

pub record State : Type 0 where
  pub main_ops : Imapgrabber
  pub interrupt : Interrupter
  pub errs : ThreadSafeErrors
  pub thread_idx : ℕ
  -- The partitions that the loop has still to come to.
  pub partitions : List (List Bytes)
  pub phase : Phase
  pub workers : List Worker
  -- The downloads that have ended, with their errors.
  pub results : List (Bytes × Option Bytes)

abbrev pub ops_of : State → Option Imapgrabber → Imapgrabber
ops_of s none = s.main_ops
ops_of s (some ops) = ops

-- The session of a thread, after it was used.
abbrev pub keep_main : State → Option Imapgrabber → Imapgrabber → Imapgrabber
keep_main s none used = used
keep_main s (some ops) used = s.main_ops

abbrev pub keep_ops : Option Imapgrabber → Imapgrabber → Option Imapgrabber
keep_ops none used = none
keep_ops (some ops) used = some used

-- The head of the loop, with the login of a new session.
unfoldable pub open_thread :
    (ClientError → Bytes) → Imapgrabber × Option ClientError → List (List Bytes) → State → State
open_thread text (ops, e) [] s = record s { phase = waiting }
open_thread text (ops, e) (p ∷ ps) s =
    if eqb s.thread_idx 0
    then record s { partitions = ps; phase = opened (record { ops = none; partition = p }) }
    else record s {
      partitions = ps;
      phase = opened (record { ops = some ops; partition = p });
      errs = add_error s.errs (elim e [ none ↦ none | some e' ↦ some (text e') ]);
    }

unfoldable pub prepare : (ClientError → Bytes) → ImapConfig → Network → State → State
prepare text cfg net s = open_thread text (authenticate net cfg) s.partitions s

-- The thread is started, or the loop is left.
unfoldable pub decide : LogoutAnswer → Worker → State → State
decide answer w s =
    let (i, hit) = interrupted s.interrupt in
    if not hit && not (bad s.errs)
    then record s {
      interrupt = i;
      phase = starting;
      thread_idx = suc s.thread_idx;
      workers = s.workers ++ w ∷ [];
    }
    else elim (logout answer (bad s.errs) (ops_of s w.ops)) [
      | none ↦ record s { interrupt = i; phase = panicked }
      | some (ops, e) ↦ record s {
        main_ops = keep_main s w.ops ops;
        interrupt = i;
        phase = waiting;
        errs =
            add_error (add_error s.errs e)
              (some (codes "stopping download threads due to user interrupt or error"));
      }
    ]

-- The deferred calls, after `wg.Wait`.
unfoldable pub finish : LogoutAnswer → State → State
finish answer s = elim (logout answer (bad s.errs) s.main_ops) [
  | none ↦ record s { phase = panicked }
  | some (ops, e) ↦ record s {
    main_ops = ops;
    interrupt = deregister s.interrupt;
    phase = finished;
    errs = add_error s.errs e;
  }
]

-- A thread downloads its next folder.
unfoldable pub download_next :
    Option Bytes
    → List Worker
    → List Worker
    → Option Imapgrabber
    → Bytes
    → List Bytes
    → State
    → State
download_next result before after ops folder folders s =
    let (used, e) = download_missing result (ops_of s ops) in
    record s {
      main_ops = keep_main s ops used;
      errs = add_error s.errs e;
      workers = before ++ record { ops = keep_ops ops used; partition = folders } ∷ after;
      results = (folder, e) ∷ s.results;
    }

-- A thread that is through logs out, but for the first.
unfoldable pub end_thread :
    LogoutAnswer → List Worker → List Worker → Option Imapgrabber → State → State
end_thread answer before after ops s = elim ops [
  | none ↦ record s { workers = before ++ after }
  | some own ↦ elim (logout answer (bad s.errs) own) [
    | none ↦ record s { phase = panicked; workers = before ++ after }
    | some (used, e) ↦ record s { workers = before ++ after; errs = add_error s.errs e }
  ]
]

-- The system hands a signal to all interrupters.
abbrev signal_ops : Imapgrabber → Imapgrabber
signal_ops ops = record ops { interrupt_ops = signal ops.interrupt_ops }

abbrev pub signal_worker : Worker → Worker
signal_worker w = record w { ops = elim w.ops [ none ↦ none | some ops ↦ some (signal_ops ops) ] }

abbrev pub signal_phase : Phase → Phase
signal_phase (opened w) = opened (signal_worker w)
signal_phase starting = starting
signal_phase waiting = waiting
signal_phase finished = finished
signal_phase panicked = panicked

unfoldable pub signal_all : State → State
signal_all s = record s {
  main_ops = signal_ops s.main_ops;
  interrupt = signal s.interrupt;
  phase = signal_phase s.phase;
  workers = map signal_worker s.workers;
}

-- A step of the program.
pub data Move (text : ClientError → Bytes) (cfg : ImapConfig) (s : State) : State → Type 0 where
  prepares : (net : Network) → s.phase ≡ starting → Move text cfg s (prepare text cfg net s)
  decides :
      (answer : LogoutAnswer) (w : Worker)
      → s.phase ≡ opened w
      → Move text cfg s (decide answer w s)
  downloads :
      (result : Option Bytes) (before after : List Worker) (ops : Option Imapgrabber)
      (folder : Bytes) (folders : List Bytes)
      → s.workers ≡ before ++ record { ops = ops; partition = folder ∷ folders } ∷ after
      → Move text cfg s (download_next result before after ops folder folders s)
  ends :
      (answer : LogoutAnswer) (before after : List Worker) (ops : Option Imapgrabber)
      → s.workers ≡ before ++ record { ops = ops; partition = [] } ∷ after
      → Move text cfg s (end_thread answer before after ops s)
  finishes :
      (answer : LogoutAnswer)
      → s.phase ≡ waiting
      → s.workers ≡ []
      → Move text cfg s (finish answer s)

-- A run with its number of moves; signals come at any time.
pub data Run (text : ClientError → Bytes) (cfg : ImapConfig) : ℕ → State → State → Type 0 where
  here : (s : State) → Run text cfg 0 s s
  signalled : (n : ℕ) (s t : State) → Run text cfg n (signal_all s) t → Run text cfg n s t
  moved :
      (n : ℕ) (s t u : State) → Move text cfg s t → Run text cfg n t u → Run text cfg (suc n) s u

-- What comes before the loop: an early return with an error, a panic, or the loop.
pub data Begin : Type 0 where
  returned : Option Bytes → Begin
  out_of_range : Begin
  running : State → Begin

abbrev pub first_state : Imapgrabber → Option Bytes → List (List Bytes) → State
first_state ops list_err ps = record {
  main_ops = ops;
  interrupt = new_interrupt_ops signals_to_wait_for;
  errs = add_error [] list_err;
  thread_idx = 0;
  partitions = ps;
  phase = starting;
  workers = [];
  results = [];
}

unfoldable pub begin_loop : Imapgrabber → Option Bytes → Option (List (List Bytes)) → Begin
begin_loop ops list_err none = out_of_range
begin_loop ops list_err (some ps) = running (first_state ops list_err ps)

module _ (it : Iteration) (text : ClientError → Bytes) where
  unfoldable pub begin :
      List Bytes → ℤ → List Bytes × Option Bytes → Imapgrabber × Option ClientError → Begin
  begin folders threads reply (ops, some e) = returned (err (add_error [] (some (text e))))
  begin folders threads (available, list_err) (ops, none) =
      begin_loop ops list_err (partition_folders (expand_folders it folders available) threads)

  -- With the folders that the server lists, and the error of the request for them.
  unfoldable pub download_folder :
      ImapConfig → Network → List Bytes → ℤ → List Bytes × Option Bytes → Begin
  download_folder cfg net folders threads reply = begin folders threads reply (authenticate net cfg)
