-- ===== src/Cache/Locks/Exclusive/Preserved.antt =====
-- The locks and the registered messages behind each step of the threads of
-- core/srvbackend_message.go.
use mathlib.Core.Path.{subst}
use go_imapgrab.Base.{
  ℕ, ◌+◌, ◌≤◌, ◌≡◌, refl, true, false, Bool-cases, List, [], ◌∷◌, ◌++◌, map, All, All-at,
  All-insert, All-remove, ◌⊎◌, inl, inr, eqb, nat_eq, eqb_iff, if◌then◌else◌, arith,
}
use go_imapgrab.Cache.{Memory, ReadAnswer}
use go_imapgrab.Cache.Locks.{
  Phase, waiting, locked, read, clearing, finished, Thread, State, has_message, message_holders,
  thread, Move, locks, returns_early, reads, enters, clears, ends, first_state, Steps, here, next,
}
use go_imapgrab.Cache.Locks.Exclusive.{
  ThreadOk, Registered, Good, holders-append, others-ok, Moved, reads-Moved, enters-Moved,
  clears-Moved, ends-Moved,
}

-- No file fails to be read.
abbrev pub Readable : (ℕ → ReadAnswer) → Type 0
Readable files = (m : ℕ) → (files m).failed ≡ false

module _ (files : ℕ → ReadAnswer) (readable : Readable files) where
  Move-Moved :
      (others : List Thread) (m : ℕ) (mem : Memory) (p p' : Phase) (mem' : Memory)
      → Move files others m mem p mem' p'
      → Registered mem
      → ThreadOk mem (thread m p)
      → Moved mem mem' m p'
  Move-Moved others m mem _ _ _ (locks z) r ok = record {
    registered' = r;
    own_ok = tt;
    kept = λ k n a b. (a, b);
  }
  Move-Moved others m mem _ _ _ (returns_early f) r ok = record {
    registered' = r;
    own_ok = tt;
    kept = λ k n a b. (a, b);
  }
  Move-Moved others m mem _ _ _ (reads n f s) r ok = reads-Moved m mem r (files m) f (readable m)
  Move-Moved others m mem _ _ _ (enters size z) r ok = enters-Moved m mem r size ok
  Move-Moved others m mem _ _ _ (clears size k e z) r ok = clears-Moved m mem r size k e ok
  Move-Moved others m mem _ _ _ (ends size e) r ok = ends-Moved m mem r size e ok

  Move-holds :
      (others : List Thread) (m : ℕ) (mem : Memory) (p p' : Phase) (mem' : Memory)
      → Move files others m mem p mem' p'
      → (message_holders m others ≡ 0) ⊎ (has_message p ≡ 1)
  Move-holds others m mem _ _ _ (locks z) = inl z
  Move-holds others m mem _ _ _ (returns_early f) = inr refl
  Move-holds others m mem _ _ _ (reads n f s) = inr refl
  Move-holds others m mem _ _ _ (enters size z) = inr refl
  Move-holds others m mem _ _ _ (clears size k e z) = inr refl
  Move-holds others m mem _ _ _ (ends size e) = inr refl

  has_message-le : (p : Phase) → has_message p ≤ 1
  has_message-le waiting = omega arith
  has_message-le locked = omega arith
  has_message-le finished = omega arith
  has_message-le (read n) = omega arith
  has_message-le (clearing n) = omega arith

  module _ (before after : List Thread) (m : ℕ) (p p' : Phase) (mem mem' : Memory) where
    holders-at :
        (k : ℕ) (q : Phase)
        → message_holders k (before ++ thread m q ∷ after)
          ≡ (if eqb m k then has_message q else 0) + message_holders k (before ++ after)
    holders-at k q =
        omega (arith, holders-append k before (thread m q ∷ after), holders-append k before after)

    -- The lock of the message is held by no other thread.
    alone :
        Move files (before ++ thread m p ∷ after) m mem p mem' p'
        → message_holders m (before ++ thread m p ∷ after) ≤ 1
        → message_holders m (before ++ after) ≡ 0
    alone move h =
        let e : eqb m m ≡ true = ground arith in
        let a = holders-at m p in
        elim (Move-holds _ m mem p p' mem' move) [
          | inl z ↦ ground (arith, a, e, z)
          | inr i ↦ ground (arith, a, e, i, h)
        ]

    Move-Good :
        Move files (before ++ thread m p ∷ after) m mem p mem' p'
        → Good (record { mem = mem; threads = before ++ thread m p ∷ after })
        → Good (record { mem = mem'; threads = before ++ thread m p' ∷ after })
    Move-Good move g =
        let z = alone move (g.one_each m) in
        let own = All-at (ThreadOk mem) before after (thread m p) g.threads_ok in
        let moved = Move-Moved _ m mem p p' mem' move g.registered own in
        record {
          registered = moved.registered';
          threads_ok =
              All-insert (ThreadOk mem') before after (thread m p')
                (others-ok mem mem' m (before ++ after) moved.kept z
                  (All-remove (ThreadOk mem) before after (thread m p) g.threads_ok))
                moved.own_ok;
          one_each = λ k. elim (Bool-cases (eqb m k)) [
            | inl t ↦
                let z' =
                  subst (λ j. message_holders j (before ++ after) ≡ 0) ((eqb_iff m k).0 t) z in
                ground (arith, t, holders-at k p', z', has_message-le p')
            | inr f ↦ ground (arith, f, holders-at k p', holders-at k p, g.one_each k)
          ];
        }

  pub Steps-Good : (n : ℕ) (s u : State) → Steps files n s u → Good s → Good u
  Steps-Good _ _ _ (here s) g = g
  Steps-Good _ _ _ (next n before after m p p' mem mem' u move steps) g =
      Steps-Good n _ u steps (Move-Good before after m p p' mem mem' move g)

starts-ok : (mem : Memory) (ms : List ℕ) → All (ThreadOk mem) (map (λ m. thread m waiting) ms)
starts-ok mem [] = tt
starts-ok mem (m ∷ ms) = (tt, starts-ok mem ms)

starts-free : (k : ℕ) (ms : List ℕ) → message_holders k (map (λ m. thread m waiting) ms) ≡ 0
starts-free k [] = refl
starts-free k (m ∷ ms) = ground (arith, starts-free k ms)

pub first-Good : (max_bytes : ℕ) (ms : List ℕ) → Good (first_state max_bytes ms)
unfolding first_state
first-Good max_bytes ms = record {
  registered = λ k h. ground (arith, h);
  threads_ok = starts-ok (first_state max_bytes ms).mem ms;
  one_each = λ k. omega (arith, starts-free k ms);
}
