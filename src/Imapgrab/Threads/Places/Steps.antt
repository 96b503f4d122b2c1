-- ===== src/Imapgrab/Threads/Places/Steps.antt =====
-- Every step of `DownloadFolder` (core/core.go) keeps the folders.
use mathlib.Core.Path.{subst}
use go_imapgrab.Base.{
  ◌≡◌, refl, sym, ap, true, not, ◌&&◌, Bool-cases, Option, none, some, Option-cases, List, [], ◌∷◌,
  ◌++◌, map, Bytes, inl, inr, arith, eqb, list_eq, nat_eq,
}
use go_imapgrab.Connection.{ImapConfig, ClientError}
use go_imapgrab.Threading.{interrupted, bad, add_error, ThreadSafeErrors}
use go_imapgrab.Imapgrab.{Imapgrabber, LogoutAnswer, download_missing, authenticate}
use go_imapgrab.Imapgrab.Threads.{
  Worker, Phase, starting, opened, waiting, finished, panicked, State, ops_of, keep_ops,
  open_thread, prepare, decide, finish, download_next, end_thread, signal_all, signal_worker,
  signal_phase, Move, prepares, decides, downloads, ends, finishes,
}
use go_imapgrab.Imapgrab.Threads.Clients.{
  HasClients, bad-add_error, bad-add_some, logout_connected, no_client-bad, own_client,
}
use go_imapgrab.Imapgrab.Threads.Places.{
  held, at_login, pending, copies, Left, Kept, held-append, Left-workers,
}

open_thread-Kept :
    (text : ClientError → Bytes) (a : Imapgrabber × Option ClientError) (ps : List (List Bytes))
    (s : State)
    → s.phase ≡ starting
    → s.partitions ≡ ps
    → Kept s (open_thread text a ps s)
unfolding open_thread
open_thread-Kept text a [] s e f = record {
  mono = λ h. h;
  fewer = λ g. omega (arith, ap (at_login g) e);
  same = inr (λ g. omega (arith, ap (at_login g) e), λ h. h, λ h. f);
}
open_thread-Kept text (ops, err) (p ∷ ps) s e f = elim (Bool-cases (eqb s.thread_idx 0)) [
  | inl z ↦ rw z (record {
    mono = λ h. h;
    fewer = λ g. omega (arith, ap (at_login g) e, ap (pending g) f);
    same = inr (λ g. omega (arith, ap (at_login g) e, ap (pending g) f), λ h. h, λ h. tt);
  })
  | inr z ↦ rw z (record {
    mono = λ h. bad-add_error s.errs _ h;
    fewer = λ g. omega (arith, ap (at_login g) e, ap (pending g) f);
    same = inr (λ g. omega (arith, ap (at_login g) e, ap (pending g) f), λ h. h, λ h. tt);
  })
]

decide-Kept :
    (answer : LogoutAnswer) (w : Worker) (s : State)
    → s.phase ≡ opened w
    → HasClients s
    → Kept s (decide answer w s)
unfolding decide
decide-Kept answer w s e h =
    elim (Bool-cases (not (interrupted s.interrupt).1 && not (bad s.errs))) [
      | inl go ↦
          rw (decide, go)
            (record {
              mono = λ b. b;
              fewer = λ g. omega (arith, ap (at_login g) e, held-append g s.workers (w ∷ []));
              same = inr (
                λ g. omega (arith, ap (at_login g) e, held-append g s.workers (w ∷ [])),
                λ c. c,
                λ l. tt,
              );
            })
      | inr stop ↦ elim (logout_connected answer (bad s.errs) (ops_of s w.ops)) [
        | inl (c, l) ↦
            let failed : bad s.errs ≡ true = no_client-bad s w e h c in
            rw (decide, stop, l)
              (record { mono = λ b. b; fewer = λ g. omega arith; same = inl failed })
        | inr (used, e', l, c) ↦
            rw (decide, stop, l)
              (record {
                mono = λ b. bad-add_some (add_error s.errs e') _;
                fewer = λ g. omega arith;
                same = inl (bad-add_some (add_error s.errs e') _);
              })
      ]
    ]

finish-Kept :
    (answer : LogoutAnswer) (s : State)
    → s.phase ≡ waiting
    → s.workers ≡ []
    → HasClients s
    → Kept s (finish answer s)
unfolding finish
finish-Kept answer s e n h = elim (logout_connected answer (bad s.errs) s.main_ops) [
  | inl (c, l) ↦ absurd (ground (arith, h.main))
  | inr (used, e', l, c) ↦
      rw (finish, l)
        (record {
          mono = λ b. bad-add_error s.errs e' b;
          fewer = λ g. omega (arith, ap (at_login g) e);
          same = inr (
            λ g. omega (arith, ap (at_login g) e),
            λ c. c,
            λ left. (n, subst (λ p. Left p s.workers s.partitions) e left),
          );
        })
]

module _ (before after : List Worker) (ops : Option Imapgrabber) (s : State) where
  download_next-Kept :
      (result : Option Bytes) (folder : Bytes) (folders : List Bytes)
      → s.workers ≡ before ++ record { ops = ops; partition = folder ∷ folders } ∷ after
      → Kept s (download_next result before after ops folder folders s)
  unfolding download_next
  download_next-Kept result folder folders e =
      let w : Worker = record { ops = ops; partition = folder ∷ folders } in
      let done = download_missing result (ops_of s ops) in
      let w' : Worker = record { ops = keep_ops ops done.0; partition = folders } in
      let places : (g : Bytes)
          → copies g (download_next result before after ops folder folders s) ≡ copies g s =
        λ g. omega (
          arith,
          ap (held g) e,
          held-append g before (w ∷ after),
          held-append g before (w' ∷ after),
        ) in
      record {
        mono = λ b. bad-add_error s.errs done.1 b;
        fewer = λ g. omega (arith, places g);
        same = elim (Option-cases done.1) [
          | inl ok ↦ inr (
            places,
            λ c. (ok, c),
            Left-workers s.phase s.workers (before ++ w' ∷ after) before after w s.partitions e,
          )
          | inr (err, f) ↦
              inl (subst (λ r. bad (add_error s.errs r) ≡ true) (sym f) (bad-add_some s.errs err))
        ];
      }

  -- The thread is gone, and the errors and the phase are as they were or later.
  ended-Kept :
      s.workers ≡ before ++ record { ops = ops; partition = [] } ∷ after
      → (errs' : ThreadSafeErrors) → (bad s.errs ≡ true → bad errs' ≡ true)
      → Kept s (record s { workers = before ++ after; errs = errs' })
  ended-Kept e errs' mono =
      let w : Worker = record { ops = ops; partition = [] } in
      let places : (g : Bytes) → held g (before ++ after) ≡ held g s.workers = λ g.
        omega
          (arith, ap (held g) e, held-append g before (w ∷ after), held-append g before after) in
      record {
        mono = mono;
        fewer = λ g. omega (arith, places g);
        same = inr (
          λ g. omega (arith, places g),
          λ c. c,
          Left-workers s.phase s.workers (before ++ after) before after w s.partitions e,
        );
      }

end_thread-Kept :
    (before after : List Worker) (ops : Option Imapgrabber) (s : State) (answer : LogoutAnswer)
    → s.workers ≡ before ++ record { ops = ops; partition = [] } ∷ after
    → HasClients s
    → Kept s (end_thread answer before after ops s)
unfolding end_thread
end_thread-Kept before after none s answer e h = ended-Kept before after none s e s.errs (λ b. b)
end_thread-Kept before after (some own) s answer e h =
    elim (logout_connected answer (bad s.errs) own) [
      | inl (c, l) ↦ absurd (ground (arith, own_client before after own s e h))
      | inr (used, e', l, c) ↦
          rw (end_thread, l)
            (ended-Kept before after (some own) s e (add_error s.errs e') (bad-add_error s.errs e'))
    ]

held-signal : (f : Bytes) (ws : List Worker) → held f (map signal_worker ws) ≡ held f ws
held-signal f [] = refl
held-signal f (w ∷ ws) = omega (arith, held-signal f ws)

at_login-signal : (f : Bytes) (p : Phase) → at_login f (signal_phase p) ≡ at_login f p
at_login-signal f (opened w) = refl
at_login-signal f starting = refl
at_login-signal f waiting = refl
at_login-signal f finished = refl
at_login-signal f panicked = refl

Left-signal :
    (p : Phase) (ws : List Worker) (ps : List (List Bytes))
    → Left p ws ps
    → Left (signal_phase p) (map signal_worker ws) ps
Left-signal waiting ws ps h = h
Left-signal finished ws ps h = (ap (map signal_worker) h.0, h.1)
Left-signal starting ws ps h = tt
Left-signal (opened w) ws ps h = tt
Left-signal panicked ws ps h = tt

pub signal_all-Kept : (s : State) → Kept s (signal_all s)
unfolding signal_all
signal_all-Kept s = record {
  mono = λ h. h;
  fewer = λ f. omega (arith, held-signal f s.workers, at_login-signal f s.phase);
  same = inr (
    λ f. omega (arith, held-signal f s.workers, at_login-signal f s.phase),
    λ c. c,
    Left-signal s.phase s.workers s.partitions,
  );
}

module _ (text : ClientError → Bytes) (cfg : ImapConfig) where
  pub Move-Kept : (s t : State) → Move text cfg s t → HasClients s → Kept s t
  unfolding prepare
  Move-Kept s _ (prepares net e) h =
      open_thread-Kept text (authenticate net cfg) s.partitions s e refl
  Move-Kept s _ (decides answer w e) h = decide-Kept answer w s e h
  Move-Kept s _ (downloads result before after ops folder folders e) h =
      download_next-Kept before after ops s result folder folders e
  Move-Kept s _ (ends answer before after ops e) h = end_thread-Kept before after ops s answer e h
  Move-Kept s _ (finishes answer e n) h = finish-Kept answer s e n h
