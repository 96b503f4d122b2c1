-- ===== src/Imapgrab/Threads/Progress.antt =====
-- The end of each run of `DownloadFolder` of core/core.go.
use mathlib.Core.Path.{subst}
use go_imapgrab.Base.{
  ℕ, suc, zero, ◌≤◌, ◌≡◌, refl, sym, ap, ◌∙◌, Option, Option-cases, none, some, List, [], ◌∷◌, ◌++◌,
  map, Bytes, ℤ, ◌⊎◌, inl, inr, arith,
}
use go_imapgrab.Connection.{ImapConfig, ClientError, Network}
use go_imapgrab.OrderedSet.{Iteration}
use go_imapgrab.Threading.{bad}
use go_imapgrab.Imapgrab.{Imapgrabber, LogoutAnswer, authenticate, logout}
use go_imapgrab.Imapgrab.Threads.{
  Worker, Phase, starting, opened, waiting, finished, panicked, State, open_thread, prepare, decide,
  finish, download_next, end_thread, signal_all, signal_worker, signal_phase, Move, prepares,
  decides, downloads, ends, finishes, Run, here, signalled, moved, download_folder, running,
}
use go_imapgrab.Imapgrab.Threads.Bounded.{measure, Move-IsProgress}
use go_imapgrab.Imapgrab.Threads.Start.{download_folder-IsStart}
use go_imapgrab.Imapgrab.Threads.Places.{nil_ne_middle}

-- When the main thread has returned, no thread is left.
abbrev Idle : Phase → List Worker → Type 0
Idle finished ws = ws ≡ []
Idle starting ws = Unit
Idle (opened w) ws = Unit
Idle waiting ws = Unit
Idle panicked ws = Unit

abbrev IsJoined : State → Type 0
IsJoined s = Idle s.phase s.workers

module _ (text : ClientError → Bytes) (cfg : ImapConfig) where
  worker_step :
      (answer : LogoutAnswer) (s : State) (w : Worker) (ws : List Worker)
      → s.workers ≡ w ∷ ws
      → (t : State) × Move text cfg s t
  worker_step answer s w ws e = go w.partition refl
    where
      go : (p : List Bytes) → w.partition ≡ p → (t : State) × Move text cfg s t
      go [] f = (
        end_thread answer [] ws w.ops s,
        ends answer [] ws w.ops (e ∙ ap (λ q. (record w { partition = q }) ∷ ws) f),
      )
      go (folder ∷ folders) f = (
        download_next none [] ws w.ops folder folders s,
        downloads none [] ws w.ops folder folders
            (e ∙ ap (λ q. (record w { partition = q }) ∷ ws) f),
      )

  next_step :
      (net : Network) (answer : LogoutAnswer) (s : State)
      → (s.phase ≡ finished) ⊎ ((s.phase ≡ panicked) ⊎ ((t : State) × Move text cfg s t))
  next_step net answer s = go s.phase s.workers refl refl
    where
      go :
          (p : Phase) (ws : List Worker)
          → s.phase ≡ p
          → s.workers ≡ ws
          → (s.phase ≡ finished) ⊎ ((s.phase ≡ panicked) ⊎ ((t : State) × Move text cfg s t))
      go starting ws e _ = inr (inr (prepare text cfg net s, prepares net e))
      go (opened w) ws e _ = inr (inr (decide answer w s, decides answer w e))
      go waiting [] e none_left = inr (inr (finish answer s, finishes answer e none_left))
      go waiting (w ∷ ws) e some_left = inr (inr (worker_step answer s w ws some_left))
      go finished ws e _ = inl e
      go panicked ws e _ = inr (inl e)

  open_thread-IsJoined :
      (a : Imapgrabber × Option ClientError) (ps : List (List Bytes)) (s : State)
      → IsJoined (open_thread text a ps s)
  unfolding open_thread
  open_thread-IsJoined a [] s = tt
  open_thread-IsJoined a (p ∷ ps) s = ground arith

  decide-IsJoined : (answer : LogoutAnswer) (w : Worker) (s : State) → IsJoined (decide answer w s)
  unfolding decide
  decide-IsJoined answer w s = ground arith

  -- How a run is continued to its end.
  pub record Ending (s : State) : Type 0 where
    pub more : ℕ
    pub last : State
    pub run : Run text cfg more s last
    pub over : ((last.phase ≡ finished) × (last.workers ≡ [])) ⊎ (last.phase ≡ panicked)

  finish-IsJoined :
      (answer : LogoutAnswer) (s : State) → s.workers ≡ [] → IsJoined (finish answer s)
  unfolding finish
  finish-IsJoined answer s e = ground (arith, e)

  -- While a thread is there, the main thread has not returned.
  Idle-any :
      (p : Phase) (before after ws : List Worker) (w : Worker)
      → Idle p (before ++ w ∷ after)
      → Idle p ws
  Idle-any starting before after ws w h = tt
  Idle-any (opened v) before after ws w h = tt
  Idle-any waiting before after ws w h = tt
  Idle-any panicked before after ws w h = tt
  Idle-any finished before after ws w h = absurd (nil_ne_middle before after w (sym h))

  end_thread-IsJoined :
      (answer : LogoutAnswer) (before after : List Worker) (ops : Option Imapgrabber) (s : State)
      → ((ws : List Worker) → Idle s.phase ws)
      → IsJoined (end_thread answer before after ops s)
  unfolding end_thread
  end_thread-IsJoined answer before after none s h = h (before ++ after)
  end_thread-IsJoined answer before after (some own) s h =
      elim (Option-cases (logout answer (bad s.errs) own)) [
        | inl e ↦ rw (e, end_thread) tt
        | inr (r, e) ↦ rw (e, end_thread) (h (before ++ after))
      ]

  Idle-signal :
      (p : Phase) (ws : List Worker) → Idle p ws → Idle (signal_phase p) (map signal_worker ws)
  Idle-signal starting ws h = tt
  Idle-signal (opened w) ws h = tt
  Idle-signal waiting ws h = tt
  Idle-signal panicked ws h = tt
  Idle-signal finished ws h = ap (map signal_worker) h

  Move-IsJoined : (s t : State) → Move text cfg s t → IsJoined s → IsJoined t
  unfolding prepare download_next
  Move-IsJoined s _ (prepares net e) h = open_thread-IsJoined (authenticate net cfg) s.partitions s
  Move-IsJoined s _ (decides answer w e) h = decide-IsJoined answer w s
  Move-IsJoined s _ (downloads result before after ops folder folders e) h =
      Idle-any s.phase before after _ (record { ops = ops; partition = folder ∷ folders })
        (subst (Idle s.phase) e h)
  Move-IsJoined s _ (ends answer before after ops e) h =
      end_thread-IsJoined answer before after ops s (λ ws.
        Idle-any s.phase before after ws (record { ops = ops; partition = [] })
          (subst (Idle s.phase) e h))
  Move-IsJoined s _ (finishes answer e none_left) h = finish-IsJoined answer s none_left

  signal_all-IsJoined : (s : State) → IsJoined s → IsJoined (signal_all s)
  unfolding signal_all
  signal_all-IsJoined s h = Idle-signal s.phase s.workers h

  Run-IsJoined : (n : ℕ) (s t : State) → Run text cfg n s t → IsJoined s → IsJoined t
  Run-IsJoined _ _ _ (here s) h = h
  Run-IsJoined _ _ _ (signalled n s t r) h =
      Run-IsJoined n (signal_all s) t r (signal_all-IsJoined s h)
  Run-IsJoined _ _ _ (moved n s t u m r) h = Run-IsJoined n t u r (Move-IsJoined s t m h)

  continue_run :
      (s : State)
      → IsJoined s
      → (s.phase ≡ finished) ⊎ ((s.phase ≡ panicked) ⊎ ((t : State) × Move text cfg s t))
      → ((t : State) → Move text cfg s t → Ending t)
      → Ending s
  continue_run s j (inl e) f = record {
    more = 0;
    last = s;
    run = here s;
    over = inl (e, subst (λ p. Idle p s.workers) e j);
  }
  continue_run s j (inr (inl e)) f = record { more = 0; last = s; run = here s; over = inr e }
  continue_run s j (inr (inr (t, m))) f =
      let rest = f t m in
      record {
        more = suc rest.more;
        last = rest.last;
        run = moved rest.more s t rest.last m rest.run;
        over = rest.over;
      }

  module _ (net : Network) (answer : LogoutAnswer) where
    -- As long as there is a step, it is taken; each leaves less to do.
    run_on : (k : ℕ) (s : State) → measure s ≤ k → IsJoined s → Ending s
    run_on zero s b j =
        continue_run s j (next_step net answer s)
          (λ t m. absurd (omega (arith, Move-IsProgress text cfg s t m, b)))
    run_on (suc k) s b j = continue_run s j (next_step net answer s) (λ t m.
        run_on k t (omega (arith, Move-IsProgress text cfg s t m, b)) (Move-IsJoined s t m j))

-- `DownloadFolder` never hangs: whatever a run has come to, however the threads were interleaved,
-- whatever the answers were and whatever signals came, and whatever network and answer to logouts
-- there is from there on, steps lead to an end: a return with all threads ended, or a panic.
pub download_folder_ends :
    (it : Iteration) (text : ClientError → Bytes) (cfg : ImapConfig) (net : Network)
    (folders : List Bytes) (threads : ℤ) (reply : List Bytes × Option Bytes) (n : ℕ) (s t : State)
    → download_folder it text cfg net folders threads reply ≡ running s
    → Run text cfg n s t
    → (net' : Network) (answer : LogoutAnswer) → Ending text cfg t
download_folder_ends it text cfg net folders threads reply n s t h r net' answer =
    let st = download_folder-IsStart it text cfg net folders threads reply s h in
    run_on text cfg net' answer (measure t) t (omega arith)
      (Run-IsJoined text cfg n s t r (subst (λ p. Idle p s.workers) (sym st.at_head) tt))
