-- ===== src/Imapgrab/Threads/Clients/Steps.antt =====
-- Every step of `DownloadFolder` (core/core.go) leaves the sessions with their clients.
use go_imapgrab.Imapgrab.Threads.Start.{IsStart}
use go_imapgrab.Base.{
  ℤ, ◌≡◌, refl, sym, Bool, true, not, ◌&&◌, Bool-cases, Option, none, some, List, [], ◌∷◌, ◌++◌,
  map, Bytes, All, All-at, All-replace, All-remove, All-append, inl, inr, arith, eqb,
}
use mathlib.Core.Path.{subst}
use go_imapgrab.Connection.{ImapConfig, ClientError, Network}
use go_imapgrab.Threading.{interrupted, bad, add_error}
use go_imapgrab.Imapgrab.{Imapgrabber, LogoutAnswer, logout, download_missing, authenticate}
use go_imapgrab.Imapgrab.Sessions.{authenticate_cases}
use go_imapgrab.Imapgrab.Threads.{
  Worker, Phase, starting, opened, waiting, finished, panicked, State, ops_of, keep_ops, keep_main,
  open_thread, prepare, decide, finish, download_next, end_thread, signal_all, signal_worker,
  signal_phase, Move, prepares, decides, downloads, ends, finishes,
}
use go_imapgrab.Imapgrab.Threads.Clients.{
  bad-add_error, bad-add_some, connected, own_connected, AtLogin, HasClients, AtLogin-mono,
  logout_connected, ops_of_connected, no_client-bad,
}

-- The answer to a login is a client or an error.
abbrev LogsIn : Imapgrabber × Option ClientError → Type 0
LogsIn (ops, none) = connected ops ≡ true
LogsIn (ops, some e) = Unit

open_thread-HasClients :
    (text : ClientError → Bytes) (a : Imapgrabber × Option ClientError) (ps : List (List Bytes))
    (s : State)
    → LogsIn a
    → HasClients s
    → HasClients (open_thread text a ps s)
unfolding open_thread
open_thread-HasClients text a [] s l h = record { main = h.main; threads = h.threads; login = tt }
open_thread-HasClients text (ops, none) (p ∷ ps) s l h = elim (Bool-cases (eqb s.thread_idx 0)) [
  | inl z ↦ rw z (record { main = h.main; threads = h.threads; login = inl refl })
  | inr z ↦ rw z (record { main = h.main; threads = h.threads; login = inl l })
]
open_thread-HasClients text (ops, some e) (p ∷ ps) s l h = elim (Bool-cases (eqb s.thread_idx 0)) [
  | inl z ↦ rw z (record { main = h.main; threads = h.threads; login = inl refl })
  | inr z ↦
      rw z
        (record { main = h.main; threads = h.threads; login = inr (bad-add_some s.errs (text e)) })
]

prepare-HasClients :
    (text : ClientError → Bytes) (cfg : ImapConfig) (net : Network) (s : State)
    → HasClients s
    → HasClients (prepare text cfg net s)
unfolding prepare
prepare-HasClients text cfg net s h =
    open_thread-HasClients text (authenticate net cfg) s.partitions s
      (elim (authenticate_cases net cfg) [
        | inl (client, _, a) ↦ subst LogsIn (sym a) refl
        | inr (e', _, a) ↦ subst LogsIn (sym a) tt
      ])
      h

keep_main_connected :
    (s : State) (ops : Option Imapgrabber) (used : Imapgrabber)
    → connected s.main_ops ≡ true
    → connected used ≡ true
    → connected (keep_main s ops used) ≡ true
keep_main_connected s none used m c = c
keep_main_connected s (some ops) used m c = m

keep_ops_connected :
    (ops : Option Imapgrabber) (used : Imapgrabber)
    → connected used ≡ true
    → own_connected (keep_ops ops used) ≡ true
keep_ops_connected none used c = refl
keep_ops_connected (some ops) used c = c

decide-HasClients :
    (answer : LogoutAnswer) (w : Worker) (s : State)
    → s.phase ≡ opened w
    → HasClients s
    → HasClients (decide answer w s)
unfolding decide logout
decide-HasClients answer w s e h =
    let hit = (interrupted s.interrupt).1 in
    elim (Bool-cases (not hit && not (bad s.errs))) [
      | inl go ↦
          rw (decide, go)
            (record {
              main = h.main;
              threads =
                  All-append (λ v. own_connected v.ops ≡ true) s.workers (w ∷ []) h.threads
                    (
                      elim (subst (λ p. AtLogin p (bad s.errs)) e h.login) [
                        | inl c ↦ c
                        | inr f ↦ absurd (ground arith)
                      ],
                      tt,
                    );
              login = tt;
            })
      | inr stop ↦ elim (logout_connected answer (bad s.errs) (ops_of s w.ops)) [
        | inl (c, l) ↦
            rw (decide, stop, l)
              (record { main = h.main; threads = h.threads; login = no_client-bad s w e h c })
        | inr (used, e', l, c) ↦
            rw (decide, stop, l)
              (record {
                main = keep_main_connected s w.ops used h.main c;
                threads = h.threads;
                login = tt;
              })
      ]
    ]

finish-HasClients :
    (answer : LogoutAnswer) (s : State) → HasClients s → HasClients (finish answer s)
unfolding finish logout
finish-HasClients answer s h = elim (logout_connected answer (bad s.errs) s.main_ops) [
  | inl (c, l) ↦ absurd (ground (arith, h.main))
  | inr (used, e, l, c) ↦ rw (finish, l) (record { main = c; threads = h.threads; login = tt })
]

module _ (before after : List Worker) (ops : Option Imapgrabber) (s : State)
    (h : HasClients s) where
  download_next-HasClients :
      (result : Option Bytes) (folder : Bytes) (folders : List Bytes)
      → s.workers ≡ before ++ record { ops = ops; partition = folder ∷ folders } ∷ after
      → HasClients (download_next result before after ops folder folders s)
  unfolding download_next download_missing
  download_next-HasClients result folder folders e =
      let all = subst (All (λ v. own_connected v.ops ≡ true)) e h.threads in
      let c = ops_of_connected s ops h.main (
        All-at (λ v. own_connected v.ops ≡ true) before after
          (record { ops = ops; partition = folder ∷ folders }) all) in
      let used = (download_missing result (ops_of s ops)).0 in
      record {
        main = keep_main_connected s ops used h.main c;
        threads =
            All-replace (λ v. own_connected v.ops ≡ true) before after
              (record { ops = ops; partition = folder ∷ folders })
              (record { ops = keep_ops ops used; partition = folders }) all
              (keep_ops_connected ops used c);
        login =
            AtLogin-mono s.phase (bad s.errs)
              (bad (add_error s.errs (download_missing result (ops_of s ops)).1))
              (bad-add_error s.errs (download_missing result (ops_of s ops)).1) h.login;
      }

left_connected :
    (before after : List Worker) (ops : Option Imapgrabber) (s : State)
    → s.workers ≡ before ++ record { ops = ops; partition = [] } ∷ after
    → HasClients s
    → All (λ v. own_connected v.ops ≡ true) (before ++ after)
left_connected before after ops s e h =
    All-remove (λ v. own_connected v.ops ≡ true) before after (record { ops = ops; partition = [] })
      (subst (All (λ v. own_connected v.ops ≡ true)) e h.threads)

end_thread-HasClients :
    (before after : List Worker) (ops : Option Imapgrabber) (s : State) (answer : LogoutAnswer)
    → s.workers ≡ before ++ record { ops = ops; partition = [] } ∷ after
    → HasClients s
    → HasClients (end_thread answer before after ops s)
unfolding end_thread
end_thread-HasClients before after none s answer e h = record {
  main = h.main;
  threads = left_connected before after none s e h;
  login = h.login;
}
end_thread-HasClients before after (some own) s answer e h =
    let all = subst (All (λ v. own_connected v.ops ≡ true)) e h.threads in
    elim (logout_connected answer (bad s.errs) own) [
      | inl (c, l) ↦ absurd (
          ground (
            arith,
            All-at (λ v. own_connected v.ops ≡ true) before after
                (record { ops = some own; partition = [] }) all,
          ))
      | inr (used, e', l, c) ↦
          rw (end_thread, l)
            (record {
              main = h.main;
              threads = left_connected before after (some own) s e h;
              login =
                  AtLogin-mono s.phase (bad s.errs) (bad (add_error s.errs e'))
                    (bad-add_error s.errs e') h.login;
            })
    ]

own_connected-signal :
    (ops : Option Imapgrabber)
    → own_connected ops ≡ true
    → own_connected (signal_worker (record { ops = ops; partition = [] })).ops ≡ true
own_connected-signal none h = refl
own_connected-signal (some ops) h = h

threads-signal :
    (ws : List Worker)
    → All (λ w. own_connected w.ops ≡ true) ws
    → All (λ w. own_connected w.ops ≡ true) (map signal_worker ws)
threads-signal [] h = tt
threads-signal (w ∷ ws) h = (own_connected-signal w.ops h.0, threads-signal ws h.1)

AtLogin-signal : (p : Phase) (failed : Bool) → AtLogin p failed → AtLogin (signal_phase p) failed
AtLogin-signal (opened w) failed (inl c) = inl (own_connected-signal w.ops c)
AtLogin-signal (opened w) failed (inr f) = inr f
AtLogin-signal starting failed h = tt
AtLogin-signal waiting failed h = tt
AtLogin-signal finished failed h = tt
AtLogin-signal panicked failed h = h

pub signal_all-HasClients : (s : State) → HasClients s → HasClients (signal_all s)
unfolding signal_all
signal_all-HasClients s h = record {
  main = h.main;
  threads = threads-signal s.workers h.threads;
  login = AtLogin-signal s.phase (bad s.errs) h.login;
}

module _ (text : ClientError → Bytes) (cfg : ImapConfig) where
  pub Move-HasClients : (s t : State) → Move text cfg s t → HasClients s → HasClients t
  Move-HasClients s _ (prepares net e) h = prepare-HasClients text cfg net s h
  Move-HasClients s _ (decides answer w e) h = decide-HasClients answer w s e h
  Move-HasClients s _ (downloads result before after ops folder folders e) h =
      download_next-HasClients before after ops s h result folder folders e
  Move-HasClients s _ (ends answer before after ops e) h =
      end_thread-HasClients before after ops s answer e h
  Move-HasClients s _ (finishes answer e _) h = finish-HasClients answer s h

pub panicked-bad : (s : State) → HasClients s → s.phase ≡ panicked → bad s.errs ≡ true
panicked-bad s h e = subst (λ p. AtLogin p (bad s.errs)) e h.login

pub start-HasClients :
    (all : List Bytes) (threads : ℤ) (list_err : Option Bytes) (s : State)
    → IsStart all threads list_err s
    → HasClients s
start-HasClients all threads list_err s st = record {
  main = rw st.connected refl;
  threads = rw st.no_workers tt;
  login = rw st.at_head tt;
}
