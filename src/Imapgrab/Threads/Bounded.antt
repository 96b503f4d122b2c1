-- ===== src/Imapgrab/Threads/Bounded.antt =====
-- How long `DownloadFolder` of core/core.go runs, and how many threads it has.
use go_imapgrab.Base.{
  ℕ, suc, ◌+◌, ◌*◌, ◌≤◌, ◌<◌, ◌≡◌, refl, ap, ◌∙◌, Option, List, [], ◌∷◌, ◌++◌, map, Bytes, ℤ, pos,
  length, length-append, arith,
}
use mathlib.Core.List.{Permᴰ, flatten}
use go_imapgrab.Folder.{expand_folders}
use go_imapgrab.OrderedSet.{Iteration}
use go_imapgrab.Partition.{num_partitions}
use go_imapgrab.Partition.Complete.{num_partitions-le}
use go_imapgrab.Imapgrab.Threads.Start.{IsStart, download_folder-IsStart}
use go_imapgrab.Connection.{ImapConfig, ClientError, Network}
use go_imapgrab.Imapgrab.{Imapgrabber, LogoutAnswer, download_missing, authenticate}
use go_imapgrab.Imapgrab.Threads.{
  Worker, Phase, starting, opened, waiting, finished, panicked, State, ops_of, keep_ops, prepare,
  open_thread, decide, finish, download_next, end_thread, signal_all, signal_worker, signal_phase,
  download_folder, running, Move, prepares, decides, downloads, ends, finishes, Run, here,
  signalled, moved,
}

abbrev load : List Worker → ℕ
load [] = 0
load (w ∷ ws) = 1 + length w.partition + load ws

abbrev ahead : List (List Bytes) → ℕ
ahead [] = 0
ahead (p ∷ ps) = 3 + length p + ahead ps

abbrev weight : Phase → List (List Bytes) → ℕ
weight starting ps = 3 + ahead ps
weight (opened w) ps = 5 + length w.partition + ahead ps
weight waiting ps = 1
weight finished ps = 0
weight panicked ps = 0

-- What is left to do, in steps.
abbrev pub measure : State → ℕ
measure s = load s.workers + weight s.phase s.partitions

abbrev opening : Phase → ℕ
opening (opened w) = 1
opening starting = 0
opening waiting = 0
opening finished = 0
opening panicked = 0

-- The threads that run or can still be started.
abbrev pub threads_of : State → ℕ
threads_of s = length s.workers + opening s.phase + length s.partitions

load-append : (ws vs : List Worker) → load (ws ++ vs) ≡ load ws + load vs
load-append [] vs = omega arith
load-append (w ∷ ws) vs = omega (arith, load-append ws vs)

load-signal : (ws : List Worker) → load (map signal_worker ws) ≡ load ws
load-signal [] = refl
load-signal (w ∷ ws) = omega (arith, load-signal ws)

length-signal : (ws : List Worker) → length (map signal_worker ws) ≡ length ws
length-signal [] = refl
length-signal (w ∷ ws) = ap suc (length-signal ws)

weight-signal : (p : Phase) (ps : List (List Bytes)) → weight (signal_phase p) ps ≡ weight p ps
weight-signal starting ps = refl
weight-signal (opened w) ps = refl
weight-signal waiting ps = refl
weight-signal finished ps = refl
weight-signal panicked ps = refl

opening-signal : (p : Phase) → opening (signal_phase p) ≡ opening p
opening-signal starting = refl
opening-signal (opened w) = refl
opening-signal waiting = refl
opening-signal finished = refl
opening-signal panicked = refl

signal-measure : (s : State) → measure (signal_all s) ≡ measure s
unfolding signal_all
signal-measure s = omega (arith, load-signal s.workers, weight-signal s.phase s.partitions)

signal-threads : (s : State) → threads_of (signal_all s) ≡ threads_of s
unfolding signal_all
signal-threads s = omega (arith, length-signal s.workers, opening-signal s.phase)

-- A step leaves less to do, and gives no place for a thread.
abbrev IsProgress : State → State → Type 0
IsProgress s t = (measure t < measure s) × (threads_of t ≤ threads_of s)

open_thread-IsProgress :
    (text : ClientError → Bytes) (a : Imapgrabber × Option ClientError) (ps : List (List Bytes))
    (s : State)
    → s.phase ≡ starting
    → s.partitions ≡ ps
    → IsProgress s (open_thread text a ps s)
unfolding open_thread
open_thread-IsProgress text a [] s e f = ground arith
open_thread-IsProgress text a (p ∷ ps) s e f = ground arith

prepare-IsProgress :
    (text : ClientError → Bytes) (cfg : ImapConfig) (net : Network) (s : State)
    → s.phase ≡ starting
    → IsProgress s (prepare text cfg net s)
unfolding prepare
prepare-IsProgress text cfg net s e =
    open_thread-IsProgress text (authenticate net cfg) s.partitions s e refl

decide-IsProgress :
    (answer : LogoutAnswer) (w : Worker) (s : State)
    → s.phase ≡ opened w
    → IsProgress s (decide answer w s)
unfolding decide
decide-IsProgress answer w s e =
    ground (arith, load-append s.workers (w ∷ []), length-append s.workers (w ∷ []))

finish-IsProgress :
    (answer : LogoutAnswer) (s : State) → s.phase ≡ waiting → IsProgress s (finish answer s)
unfolding finish
finish-IsProgress answer s e = ground arith

module _ (before after : List Worker) (ops : Option Imapgrabber) (s : State) where
  download_next-IsProgress :
      (result : Option Bytes) (folder : Bytes) (folders : List Bytes)
      → s.workers ≡ before ++ record { ops = ops; partition = folder ∷ folders } ∷ after
      → IsProgress s (download_next result before after ops folder folders s)
  unfolding download_next
  download_next-IsProgress result folder folders e = ground (
    arith,
    ap load e,
    ap length e,
    load-append before (record { ops = ops; partition = folder ∷ folders } ∷ after),
    length-append before (record { ops = ops; partition = folder ∷ folders } ∷ after),
    load-append before (
        record {
          ops = keep_ops ops (download_missing result (ops_of s ops)).0;
          partition = folders;
        }
        ∷ after),
    length-append before (
        record {
          ops = keep_ops ops (download_missing result (ops_of s ops)).0;
          partition = folders;
        }
        ∷ after),
  )

  end_thread-IsProgress :
      (answer : LogoutAnswer)
      → s.workers ≡ before ++ record { ops = ops; partition = [] } ∷ after
      → IsProgress s (end_thread answer before after ops s)
  unfolding end_thread
  end_thread-IsProgress answer e = ground (
    arith,
    ap load e,
    ap length e,
    load-append before (record { ops = ops; partition = [] } ∷ after),
    length-append before (record { ops = ops; partition = [] } ∷ after),
    load-append before after,
    length-append before after,
  )

module _ (text : ClientError → Bytes) (cfg : ImapConfig) where
  pub Move-IsProgress : (s t : State) → Move text cfg s t → IsProgress s t
  Move-IsProgress s _ (prepares net e) = prepare-IsProgress text cfg net s e
  Move-IsProgress s _ (decides answer w e) = decide-IsProgress answer w s e
  Move-IsProgress s _ (downloads result before after ops folder folders e) =
      download_next-IsProgress before after ops s result folder folders e
  Move-IsProgress s _ (ends answer before after ops e) =
      end_thread-IsProgress before after ops s answer e
  Move-IsProgress s _ (finishes answer e _) = finish-IsProgress answer s e

  Run-bound :
      (n : ℕ) (s t : State)
      → Run text cfg n s t
      → (n + measure t ≤ measure s) × (threads_of t ≤ threads_of s)
  Run-bound _ _ _ (here s) = (omega arith, omega arith)
  Run-bound _ _ _ (signalled n s t r) =
      let bound = Run-bound n (signal_all s) t r in
      omega (arith, bound, signal-measure s, signal-threads s)
  Run-bound _ _ _ (moved n s t u m r) =
      let bound = Run-bound n t u r in
      let step = Move-IsProgress s t m in omega (arith, bound, step)

ahead-flatten : (ps : List (List Bytes)) → ahead ps ≡ 3 * length ps + length (flatten ps)
unfolding flatten
ahead-flatten [] = refl
ahead-flatten (p ∷ ps) = omega (arith, ahead-flatten ps, length-append p (flatten ps))

length-Permᴰ {ℓ} : {A : Type ℓ} {xs ys : List A} → Permᴰ xs ys → length xs ≡ length ys
length-Permᴰ Permᴰ.nil = refl
length-Permᴰ (Permᴰ.cons p q) = ap suc (length-Permᴰ q)
length-Permᴰ (Permᴰ.swap p q) = refl
length-Permᴰ (Permᴰ.trans p q) = length-Permᴰ p ∙ length-Permᴰ q

module _ (it : Iteration) (text : ClientError → Bytes) (cfg : ImapConfig) (net : Network)
    (folders : List Bytes) (threads : ℤ) (reply : List Bytes × Option Bytes) (n : ℕ) (s t : State)
    (h : download_folder it text cfg net folders threads reply ≡ running s)
    (r : Run text cfg n s t) where
  started : IsStart (expand_folders it folders reply.0) threads reply.1 s
  started = download_folder-IsStart it text cfg net folders threads reply s h

  -- Every run of a download, with whatever answers and interruptions, makes at most three steps for
  -- each partition, one for each folder, and three more.
  pub download_folder_terminates :
      n
      ≤ 3 * num_partitions (length (expand_folders it folders reply.0)) threads
        + length (expand_folders it folders reply.0)
        + 3
  download_folder_terminates =
      let bound = Run-bound text cfg n s t r in
      let first : measure s ≡ 3 + ahead s.partitions =
        rw (started.at_head, started.no_workers) (omega arith) in
      let number = started.number in
      let perm = length-Permᴰ started.complete in
      let sum = ahead-flatten s.partitions in omega (arith, bound, first, number, perm, sum)

  -- There are never more download threads at a time than folders to download, nor more than asked
  -- for, if that is a positive number.
  pub download_folder_threads :
      (length t.workers ≤ length (expand_folders it folders reply.0))
      × ((k : ℕ) → threads ≡ pos (suc k) → length t.workers ≤ suc k)
  download_folder_threads =
      let bound = Run-bound text cfg n s t r in
      let slots : threads_of s ≡ length s.partitions =
        rw (started.at_head, started.no_workers) (omega arith) in
      let number = started.number in
      let (few, asked) = num_partitions-le (length (expand_folders it folders reply.0)) threads in
      (
        omega (arith, bound, slots, number, few),
        λ k e. omega (arith, bound, slots, number, asked k e),
      )
