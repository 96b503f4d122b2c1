-- ===== src/Imapgrab/Threads/Places.antt =====
-- Where the folders of `DownloadFolder` (core/core.go) are: downloaded, with a thread, or still to
-- be handed out.
pub mod Steps
use mathlib.Core.Path.{subst}
use go_imapgrab.Base.{
  ℕ, ◌+◌, ◌≤◌, ◌≡◌, refl, sym, ap, ◌∙◌, true, not, ◌&&◌, Bool-cases, Option, none, some,
  Option-cases, List, [], ◌∷◌, ◌++◌, map, Bytes, All, ◌⊎◌, inl, inr, arith, if◌then◌else◌, eqb,
  ◌==◌, list_eq, nat_eq,
}
use go_imapgrab.Connection.{ImapConfig, ClientError}
use go_imapgrab.Threading.{interrupted, bad, add_error, ThreadSafeErrors}
use go_imapgrab.Imapgrab.{Imapgrabber, LogoutAnswer, download_missing, authenticate}
use go_imapgrab.Imapgrab.Threads.{
  Worker, Phase, starting, opened, waiting, finished, panicked, State, ops_of, keep_ops,
  open_thread, prepare, decide, finish, download_next, end_thread, signal_all, signal_worker,
  signal_phase, Move, prepares, decides, downloads, ends, finishes,
}
use go_imapgrab.Imapgrab.Threads.Clients.{
  HasClients, bad-add_error, bad-add_some, logout_connected, no_client-bad, own_client,
}

abbrev pub count : Bytes → List Bytes → ℕ
count f [] = 0
count f (g ∷ gs) = (if g == f then 1 else 0) + count f gs

abbrev pub names : List (Bytes × Option Bytes) → List Bytes
names [] = []
names (r ∷ rs) = r.0 ∷ names rs

abbrev pub held : Bytes → List Worker → ℕ
held f [] = 0
held f (w ∷ ws) = count f w.partition + held f ws

abbrev pub at_login : Bytes → Phase → ℕ
at_login f (opened w) = count f w.partition
at_login f starting = 0
at_login f waiting = 0
at_login f finished = 0
at_login f panicked = 0

abbrev pub pending : Bytes → List (List Bytes) → ℕ
pending f [] = 0
pending f (p ∷ ps) = count f p + pending f ps

-- How often a folder is anywhere.
abbrev pub copies : Bytes → State → ℕ
copies f s =
    count f (names s.results) + held f s.workers + at_login f s.phase + pending f s.partitions

-- What is not left to do, as far as no error says so.
abbrev pub Left : Phase → List Worker → List (List Bytes) → Type 0
Left waiting ws ps = ps ≡ []
Left finished ws ps = (ws ≡ []) × (ps ≡ [])
Left starting ws ps = Unit
Left (opened w) ws ps = Unit
Left panicked ws ps = Unit

abbrev pub Clean : List (Bytes × Option Bytes) → Type 0
Clean = All (λ r. r.1 ≡ none)

-- A step gives no copy of a folder, and takes one only with an error.
pub record Kept (s t : State) : Type 0 where
  pub mono : bad s.errs ≡ true → bad t.errs ≡ true
  pub fewer : (f : Bytes) → copies f t ≤ copies f s
  pub same :
      (bad t.errs ≡ true)
      ⊎ (((f : Bytes) → copies f t ≡ copies f s)
          × (Clean s.results → Clean t.results)
          × (Left s.phase s.workers s.partitions → Left t.phase t.workers t.partitions))

held-append : (f : Bytes) (ws vs : List Worker) → held f (ws ++ vs) ≡ held f ws + held f vs
held-append f [] vs = omega arith
held-append f (w ∷ ws) vs = omega (arith, held-append f ws vs)

pub nil_ne_middle : (before after : List Worker) (w : Worker) → [] ≡ before ++ w ∷ after → ⊥
nil_ne_middle [] after w e = cc
nil_ne_middle (v ∷ before) after w e = cc

Left-workers :
    (p : Phase) (ws vs before after : List Worker) (w : Worker) (ps : List (List Bytes))
    → ws ≡ before ++ w ∷ after
    → Left p ws ps
    → Left p vs ps
Left-workers finished ws vs before after w ps e h =
    absurd (nil_ne_middle before after w (sym h.0 ∙ e))
Left-workers waiting ws vs before after w ps e h = h
Left-workers starting ws vs before after w ps e h = tt
Left-workers (opened v) ws vs before after w ps e h = tt
Left-workers panicked ws vs before after w ps e h = tt
