-- ===== src/Cache/Locks/Exclusive.antt =====
-- Who holds which lock of core/srvbackend_message.go, and which messages are registered meanwhile.
pub mod Preserved
use mathlib.Core.Path.{subst}
use go_imapgrab.Base.{
  ℕ, ◌+◌, ◌≤◌, ◌≡◌, refl, sym, true, false, not, ◌&&◌, Bool-cases, List, [], ◌∷◌, ◌++◌, map, All,
  All-at, All-insert, All-remove, ◌⊎◌, inl, inr, length, eqb, ltb, elem, keep, nat_eq, eqb_iff,
  if◌then◌else◌, arith,
}
use go_imapgrab.Cache.{ServerMessage, Memory, ReadAnswer, no_text, put_message}
use go_imapgrab.Cache.Locks.{
  Phase, waiting, locked, read, clearing, finished, Thread, State, has_message, message_holders,
  store, register, clear_one, enter, thread, Move, locks, returns_early, reads, enters, clears,
  ends, first_state, Steps, here, next,
}

-- What a thread that holds the lock of its message for good relies on.
abbrev pub ThreadOk : Memory → Thread → Type 0
ThreadOk mem t = elim t.phase [
  | waiting ↦ Unit
  | locked ↦ Unit
  | finished ↦ Unit
  | read n ↦ (elem t.msg mem.messages ≡ false) × ((mem.heap t.msg).filled ≡ true)
  | clearing n ↦ (elem t.msg mem.messages ≡ false) × ((mem.heap t.msg).filled ≡ true)
]

-- Each registered message has its text.
abbrev pub Registered : Memory → Type 0
Registered mem = (k : ℕ) → elem k mem.messages ≡ true → (mem.heap k).filled ≡ true

pub record Good (s : State) : Type 0 where
  pub registered : Registered s.mem
  pub threads_ok : All (ThreadOk s.mem) s.threads
  pub one_each : (k : ℕ) → message_holders k s.threads ≤ 1

holders-append :
    (k : ℕ) (ts us : List Thread)
    → message_holders k (ts ++ us) ≡ message_holders k ts + message_holders k us
holders-append k [] us = omega arith
holders-append k (t ∷ ts) us = omega (arith, holders-append k ts us)

elem-keep_other :
    (j k : ℕ) (ms : List ℕ) → elem j (keep (λ i. not (eqb i k)) ms) ≡ (elem j ms && not (eqb j k))
elem-keep_other j k [] = refl
elem-keep_other j k (m ∷ ms) = ground (arith, elem-keep_other j k ms)

-- What a change of the memory leaves to a thread that holds the message k.
abbrev Kept : Memory → Memory → ℕ → Type 0
Kept mem mem' k =
    elem k mem.messages ≡ false
    → (mem.heap k).filled ≡ true
    → (elem k mem'.messages ≡ false) × ((mem'.heap k).filled ≡ true)

thread-ok :
    (mem mem' : Memory) (m j : ℕ) (p : Phase)
    → ((k : ℕ) → eqb k m ≡ false → Kept mem mem' k)
    → (if eqb j m then has_message p else 0) ≡ 0
    → ThreadOk mem (thread j p)
    → ThreadOk mem' (thread j p)
thread-ok mem mem' m j waiting f z h = tt
thread-ok mem mem' m j locked f z h = tt
thread-ok mem mem' m j finished f z h = tt
thread-ok mem mem' m j (read n) f z h = f j (ground arith) h.0 h.1
thread-ok mem mem' m j (clearing n) f z h = f j (ground arith) h.0 h.1

others-ok :
    (mem mem' : Memory) (m : ℕ) (ts : List Thread)
    → ((k : ℕ) → eqb k m ≡ false → Kept mem mem' k)
    → message_holders m ts ≡ 0
    → All (ThreadOk mem) ts
    → All (ThreadOk mem') ts
others-ok mem mem' m [] f z h = tt
others-ok mem mem' m (t ∷ ts) f z h = (
  thread-ok mem mem' m t.msg t.phase f (omega (arith, z)) h.0,
  others-ok mem mem' m ts f (omega (arith, z)) h.1,
)

-- The memory behind a move.
record Moved (mem mem' : Memory) (m : ℕ) (p' : Phase) : Type 0 where
  registered' : Registered mem'
  own_ok : ThreadOk mem' (thread m p')
  kept : (k : ℕ) → eqb k m ≡ false → Kept mem mem' k

unfilled_left_out :
    (m : ℕ) (mem : Memory)
    → Registered mem
    → (mem.heap m).filled ≡ false
    → elem m mem.messages ≡ false
unfilled_left_out m mem r f = elim (Bool-cases (elem m mem.messages)) [
  | inl t ↦ ground (arith, r m t, f)
  | inr e ↦ e
]

put-filled :
    (heap : ℕ → ServerMessage) (m : ℕ) (msg : ServerMessage) (k : ℕ)
    → msg.filled ≡ true
    → (heap k).filled ≡ true
    → (put_message heap m msg k).filled ≡ true
put-filled heap m msg k f h = elim (Bool-cases (eqb k m)) [ inl e ↦ rw (e, f) | inr e ↦ rw (e, h) ]

put-own :
    (heap : ℕ → ServerMessage) (m : ℕ) (msg : ServerMessage)
    → msg.filled ≡ true
    → (put_message heap m msg m).filled ≡ true
put-own heap m msg f = let e : eqb m m ≡ true = ground arith in rw (e, f)

put-other :
    (heap : ℕ → ServerMessage) (m : ℕ) (msg : ServerMessage) (k : ℕ)
    → eqb k m ≡ false
    → put_message heap m msg k ≡ heap k
put-other heap m msg k e = rw e

elem-other : (j k : ℕ) (ms : List ℕ) → elem j ms ≡ false → elem k ms ≡ true → eqb j k ≡ false
elem-other j k ms a e = elim (Bool-cases (eqb j k)) [
  | inl t ↦ ground (arith, e, subst (λ i. elem i ms ≡ false) ((eqb_iff j k).0 t) a)
  | inr f ↦ f
]

module _ (m : ℕ) (mem : Memory) (r : Registered mem) where
  register-Moved :
      (size : ℕ) (ms : Memory)
      → ms.heap ≡ mem.heap
      → ms.messages ≡ mem.messages
      → (mem.heap m).filled ≡ true
      → Moved mem (register m size ms) m finished
  unfolding register
  register-Moved size ms eh em f = record {
    registered' = λ k h. elim (Bool-cases (eqb m k)) [
      | inl t ↦
          let i : m ≡ k = (eqb_iff m k).0 t in rw eh (subst (λ j. (mem.heap j).filled ≡ true) i f)
      | inr t ↦ rw eh (r k (ground (arith, h, t, em)))
    ];
    own_ok = tt;
    kept = λ k n a b. let n' : eqb m k ≡ false = ground arith in (rw (n', em) a, rw eh b);
  }

  reads-Moved :
      (answer : ReadAnswer)
      → (mem.heap m).filled ≡ false
      → answer.failed ≡ false
      → Moved mem (store m answer mem) m (read (length answer.content))
  unfolding store
  reads-Moved answer f e =
      let msg : ServerMessage = record {
        filled = true;
        size = length answer.content;
        body = answer.content;
      } in
      let stored : Memory = record mem { heap = put_message mem.heap m msg } in
      let e' : store m answer mem ≡ stored = rw e in
      subst (λ x. Moved mem x m (read (length answer.content))) (sym e')
        (record {
          registered' = λ k h. put-filled mem.heap m msg k refl (r k h);
          own_ok = (unfilled_left_out m mem r f, put-own mem.heap m msg refl);
          kept = λ k n a b. (a, put-filled mem.heap m msg k refl b);
        })

  enters-Moved :
      (size : ℕ)
      → ThreadOk mem (thread m (read size))
      → Moved mem (enter m size mem).0 m (enter m size mem).1
  unfolding enter register
  enters-Moved size ok = elim (Bool-cases (ltb mem.max_bytes (size + mem.known_bytes))) [
    | inl t ↦
        let e : enter m size mem ≡ (mem, clearing size) = rw (ok.0, t) in
        subst (λ q. Moved mem q.0 m q.1) (sym e)
          (record { registered' = r; own_ok = ok; kept = λ k n a b. (a, b) })
    | inr t ↦
        let e : enter m size mem ≡ (register m size mem, finished) = rw (ok.0, t) in
        subst (λ q. Moved mem q.0 m q.1) (sym e) (register-Moved size mem refl refl ok.1)
  ]

  clears-Moved :
      (size k : ℕ)
      → elem k mem.messages ≡ true
      → ThreadOk mem (thread m (clearing size))
      → Moved mem (clear_one k mem) m (clearing size)
  unfolding clear_one
  clears-Moved size k e ok =
      let kept_lem : (j : ℕ) → Kept mem (clear_one k mem) j = λ j a b.
        let n = elem-other j k mem.messages a e in
        (rw (elem-keep_other j k mem.messages, a) refl, rw (put-other mem.heap k no_text j n) b) in
      record {
        registered' = λ j h.
            let h' = rw (elem-keep_other j k mem.messages) at h in
            rw (put-other mem.heap k no_text j (ground (arith, h'))) (r j (ground (arith, h')));
        own_ok = kept_lem m ok.0 ok.1;
        kept = λ j i. kept_lem j;
      }

  ends-Moved :
      (size : ℕ)
      → mem.messages ≡ []
      → ThreadOk mem (thread m (clearing size))
      → Moved mem (register m size (record mem { known_bytes = 0 })) m finished
  unfolding register
  ends-Moved size e ok = register-Moved size (record mem { known_bytes = 0 }) refl refl ok.1
