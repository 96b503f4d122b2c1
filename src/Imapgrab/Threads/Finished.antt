-- ===== src/Imapgrab/Threads/Finished.antt =====
-- What a run of `DownloadFolder` (core/core.go) has done.
use mathlib.Core.List.{Permᴰ, flatten}
use mathlib.Core.Path.{subst}
use go_imapgrab.Base.{
  ℕ, ◌+◌, ◌≤◌, ◌≡◌, refl, ap, ◌∙◌, true, false, Bool-cases, Option, none, List, [], ◌∷◌, ◌++◌,
  Bytes, ℤ, elem, ◌⊎◌, inl, inr, arith, ◌==◌, eq_list_iff, list_eq, nat_eq,
}
use go_imapgrab.Connection.{ImapConfig, ClientError, Network}
use go_imapgrab.Folder.{expand_folders}
use go_imapgrab.Folder.Expansion.{expand_folders_exact}
use go_imapgrab.OrderedSet.{IsUnique, Iteration}
use go_imapgrab.Threading.{bad, err}
use go_imapgrab.Threading.Signals.{err_iff_bad}
use go_imapgrab.Imapgrab.Threads.{
  finished, panicked, State, Run, here, signalled, moved, signal_all, running, download_folder,
}
use go_imapgrab.Imapgrab.Threads.Start.{IsStart, download_folder-IsStart}
use go_imapgrab.Imapgrab.Threads.Clients.{HasClients}
use go_imapgrab.Imapgrab.Threads.Clients.Steps.{
  start-HasClients, Move-HasClients, signal_all-HasClients, panicked-bad,
}
use go_imapgrab.Imapgrab.Threads.Places.{
  count, names, held, at_login, pending, copies, Left, Clean, Kept,
}
use go_imapgrab.Imapgrab.Threads.Places.Steps.{Move-Kept, signal_all-Kept}

-- Nothing is lost, as long as there is no error.
record Sound (all : List Bytes) (s : State) : Type 0 where
  clients : HasClients s
  most : (f : Bytes) → copies f s ≤ count f all
  whole :
      (bad s.errs ≡ true)
      ⊎ (((f : Bytes) → copies f s ≡ count f all)
          × Clean s.results
          × Left s.phase s.workers s.partitions)

Kept-Sound : (all : List Bytes) (s t : State) → Kept s t → HasClients t → Sound all s → Sound all t
Kept-Sound all s t k clients h = record {
  clients = clients;
  most = λ f. omega (arith, k.fewer f, h.most f);
  whole = elim h.whole [
    | inl b ↦ inl (k.mono b)
    | inr (exact, clean, left) ↦ elim k.same [
      | inl b ↦ inl b
      | inr (same, keeps, stays) ↦ inr (λ f. same f ∙ exact f, keeps clean, stays left)
    ]
  ];
}

count-append : (f : Bytes) (xs ys : List Bytes) → count f (xs ++ ys) ≡ count f xs + count f ys
count-append f [] ys = omega arith
count-append f (x ∷ xs) ys = omega (arith, count-append f xs ys)

count-Permᴰ : (f : Bytes) {xs ys : List Bytes} → Permᴰ xs ys → count f xs ≡ count f ys
count-Permᴰ f Permᴰ.nil = refl
count-Permᴰ f (Permᴰ.cons p q) = rw (p, count-Permᴰ f q) refl
count-Permᴰ f (Permᴰ.swap p q) = rw (p, q) (omega arith)
count-Permᴰ f (Permᴰ.trans p q) = count-Permᴰ f p ∙ count-Permᴰ f q

count_absent : (f : Bytes) (xs : List Bytes) → elem f xs ≡ false → count f xs ≡ 0
count_absent f [] h = refl
count_absent f (x ∷ xs) h = ground (arith, count_absent f xs)

count_unique : (f : Bytes) (xs : List Bytes) → IsUnique xs → count f xs ≤ 1
count_unique f [] h = omega arith
count_unique f (x ∷ xs) h = elim (Bool-cases (x == f)) [
  | inl t ↦
      let same = (eq_list_iff x f).0 t in
      let rest = count_absent f xs (subst (λ y. elem y xs ≡ false) same h.0) in ground arith
  | inr t ↦ let rest = count_unique f xs h.1 in ground arith
]

pending-flatten : (f : Bytes) (ps : List (List Bytes)) → pending f ps ≡ count f (flatten ps)
unfolding flatten
pending-flatten f [] = refl
pending-flatten f (p ∷ ps) = omega (arith, pending-flatten f ps, count-append f p (flatten ps))

IsStart-Sound :
    (all : List Bytes) (threads : ℤ) (list_err : Option Bytes) (s : State)
    → IsStart all threads list_err s
    → Sound all s
IsStart-Sound all threads list_err s st =
    let exact : (f : Bytes) → copies f s ≡ count f all = λ f.
      rw (st.no_results, st.no_workers, st.at_head)
        (omega (arith, pending-flatten f s.partitions, count-Permᴰ f st.complete)) in
    record {
      clients = start-HasClients all threads list_err s st;
      most = λ f. omega (arith, exact f);
      whole = inr (exact, rw st.no_results tt, rw st.at_head tt);
    }

module _ (text : ClientError → Bytes) (cfg : ImapConfig) (all : List Bytes) where
  Run-Sound : (n : ℕ) (s t : State) → Run text cfg n s t → Sound all s → Sound all t
  Run-Sound _ _ _ (here s) h = h
  Run-Sound _ _ _ (signalled n s t r) h =
      Run-Sound n (signal_all s) t r
        (Kept-Sound all s (signal_all s) (signal_all-Kept s) (signal_all-HasClients s h.clients) h)
  Run-Sound _ _ _ (moved n s t u m r) h = Run-Sound n t u r (
      Kept-Sound all s t (Move-Kept text cfg s t m h.clients)
        (Move-HasClients text cfg s t m h.clients) h)

module _ (it : Iteration) (text : ClientError → Bytes) (cfg : ImapConfig) (net : Network)
    (folders : List Bytes) (threads : ℤ) (reply : List Bytes × Option Bytes) (n : ℕ) (s t : State)
    (h : download_folder it text cfg net folders threads reply ≡ running s)
    (r : Run text cfg n s t) where
  reached : Sound (expand_folders it folders reply.0) t
  reached = Run-Sound text cfg (expand_folders it folders reply.0) n s t r (
      IsStart-Sound (expand_folders it folders reply.0) threads reply.1 s
        (download_folder-IsStart it text cfg net folders threads reply s h))

  -- When a download returns without an error, each folder that was to be downloaded has been
  -- downloaded exactly once, no other has, and each of these downloads has ended without an error,
  -- however the threads were interleaved and whatever signals came.
  pub download_folder_complete :
      t.phase ≡ finished
      → err t.errs ≡ none
      → ((f : Bytes) → count f (names t.results) ≡ count f (expand_folders it folders reply.0))
        × Clean t.results
  download_folder_complete e ok = elim reached.whole [
    | inl b ↦ absurd (ground (arith, (err_iff_bad t.errs).0 ok))
    | inr (exact, clean, left) ↦
        let (ws, ps) = subst (λ p. Left p t.workers t.partitions) e left in
        (λ f. omega (arith, exact f, ap (held f) ws, ap (pending f) ps, ap (at_login f) e), clean)
  ]

  -- At any time, with or without errors, no folder has been downloaded more than once.
  pub download_folder_once : (f : Bytes) → count f (names t.results) ≤ 1
  download_folder_once f = omega (
    arith,
    reached.most f,
    count_unique f (expand_folders it folders reply.0)
        ((expand_folders_exact folders reply.0 it).2),
  )

  -- The main thread panics only after an error was collected: without one no session that a thread
  -- logs out of lacks a client.
  pub download_folder_panics : t.phase ≡ panicked → bad t.errs ≡ true
  download_folder_panics e = panicked-bad t reached.clients e
