-- ===== src/Imapgrab/Threads/Clients.antt =====
-- No thread of `DownloadFolder` (core/core.go) uses a session without a client, but for the main
-- thread when a login has failed.
pub mod Steps
use go_imapgrab.Base.{
  ◌≡◌, refl, sym, Bool, true, false, not, ◌&&◌, Bool-cases, Option, none, some, Option-cases, List,
  [], ◌∷◌, ◌++◌, map, Bytes, length-append, All, All-at, All-replace, All-remove, All-append, ◌⊎◌,
  inl, inr, arith, if◌then◌else◌, eqb,
}
use mathlib.Core.Path.{subst}
use go_imapgrab.Connection.{ImapConfig, ClientError, Network}
use go_imapgrab.Threading.{interrupted, bad, add_error, deregister, ThreadSafeErrors}
use go_imapgrab.Imapgrab.{Imapgrabber, LogoutAnswer, logout, download_missing, authenticate}
use go_imapgrab.Imapgrab.Sessions.{authenticate_cases}
use go_imapgrab.Imapgrab.Threads.{
  Worker, Phase, starting, opened, waiting, finished, panicked, State, ops_of, keep_ops, keep_main,
  open_thread, prepare, decide, finish, download_next, end_thread, signal_all, signal_worker,
  signal_phase, Move, prepares, decides, downloads, ends, finishes,
}

pub bad-add_error :
    (errs : ThreadSafeErrors) (e : Option Bytes) → bad errs ≡ true → bad (add_error errs e) ≡ true
unfolding bad add_error
bad-add_error errs none h = h
bad-add_error errs (some e) h = ground (arith, length-append {0} errs (e ∷ []))

pub bad-add_some : (errs : ThreadSafeErrors) (e : Bytes) → bad (add_error errs (some e)) ≡ true
unfolding bad add_error
bad-add_some errs e = ground (arith, length-append {0} errs (e ∷ []))

abbrev pub connected : Imapgrabber → Bool
connected ops = elim ops.imap_ops [ none ↦ false | some client ↦ true ]

abbrev pub own_connected : Option Imapgrabber → Bool
own_connected none = true
own_connected (some ops) = connected ops

abbrev AtLogin : Phase → Bool → Type 0
AtLogin (opened w) failed = (own_connected w.ops ≡ true) ⊎ (failed ≡ true)
AtLogin starting failed = Unit
AtLogin waiting failed = Unit
AtLogin finished failed = Unit
AtLogin panicked failed = failed ≡ true

pub record HasClients (s : State) : Type 0 where
  pub main : connected s.main_ops ≡ true
  pub threads : All (λ w. own_connected w.ops ≡ true) s.workers
  pub login : AtLogin s.phase (bad s.errs)

AtLogin-mono : (p : Phase) (b b' : Bool) → (b ≡ true → b' ≡ true) → AtLogin p b → AtLogin p b'
AtLogin-mono (opened w) b b' f (inl c) = inl c
AtLogin-mono (opened w) b b' f (inr h) = inr (f h)
AtLogin-mono starting b b' f h = tt
AtLogin-mono waiting b b' f h = tt
AtLogin-mono finished b b' f h = tt
AtLogin-mono panicked b b' f h = f h

-- A session with a client can log out, and keeps it.
pub logout_connected :
    (answer : LogoutAnswer) (terminate : Bool) (ops : Imapgrabber)
    → ((connected ops ≡ false) × (logout answer terminate ops ≡ none))
      ⊎ ((used : Imapgrabber) × (e : Option Bytes) × (logout answer terminate ops ≡ some (used, e))
          × (connected used ≡ true))
unfolding logout
logout_connected answer terminate ops = elim (Option-cases ops.imap_ops) [
  | inl n ↦ inl (ground arith, ground arith)
  | inr (client, c) ↦ inr (
    record ops { interrupt_ops = deregister ops.interrupt_ops },
    if terminate then answer.terminated else answer.logged_out,
    ground arith,
    rw c refl,
  )
]

ops_of_connected :
    (s : State) (ops : Option Imapgrabber)
    → connected s.main_ops ≡ true
    → own_connected ops ≡ true
    → connected (ops_of s ops) ≡ true
ops_of_connected s none m o = m
ops_of_connected s (some ops) m o = o

-- After the login of a thread whose session has no client there is an error.
pub no_client-bad :
    (s : State) (w : Worker)
    → s.phase ≡ opened w
    → HasClients s
    → connected (ops_of s w.ops) ≡ false
    → bad s.errs ≡ true
no_client-bad s w e h c = elim (subst (λ p. AtLogin p (bad s.errs)) e h.login) [
  | inl o ↦ absurd (ground (arith, ops_of_connected s w.ops h.main o))
  | inr f ↦ f
]

-- The session of a thread has a client.
pub own_client :
    (before after : List Worker) (own : Imapgrabber) (s : State)
    → s.workers ≡ before ++ record { ops = some own; partition = [] } ∷ after
    → HasClients s
    → connected own ≡ true
own_client before after own s e h =
    All-at (λ v. own_connected v.ops ≡ true) before after
      (record { ops = some own; partition = [] })
      (subst (All (λ v. own_connected v.ops ≡ true)) e h.threads)
