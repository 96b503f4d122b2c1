-- ===== src/Cache/Locks/Progress/Moves.antt =====
-- The thread of core/srvbackend_message.go that can make the next step.
use mathlib.Core.Path.{subst}
use go_imapgrab.Base.{
  ℕ, ◌≡◌, refl, sym, Bool, true, Bool-cases, some, List, [], ◌∷◌, All, ◌⊎◌, inl, inr, length, elem,
  nat_eq, arith,
}
use go_imapgrab.Cache.{Memory, ReadAnswer}
use go_imapgrab.Cache.Locks.{
  Phase, waiting, locked, read, clearing, finished, State, size_stored, store, register, clear_one,
  enter, Move, locks, returns_early, reads, enters, clears, ends, first_state, Steps,
}
use go_imapgrab.Cache.Locks.Exclusive.{ThreadOk, Good}
use go_imapgrab.Cache.Locks.Exclusive.Preserved.{Readable, Steps-Good, first-Good}
use go_imapgrab.Cache.Locks.Progress.{
  CanMove, is_waiting, is_locked, is_read, is_clearing, None, Found, find, Finished, all-Finished,
  memory_free, registered_free, message_free,
}

-- Each file that can be read has less than 2^31 bytes.
abbrev pub Fit : (ℕ → ReadAnswer) → (ℕ → ℕ) → Type 0
Fit files sizes = (m : ℕ) → size_stored (files m) ≡ some (sizes m)

module _ (files : ℕ → ReadAnswer) (sizes : ℕ → ℕ) (fit : Fit files sizes) (s : State) where
  progress_by :
      (f : Phase → Bool) (w : Found f s.threads) (new_mem : Memory) (new_phase : Phase)
      → Move files s.threads w.msg s.mem w.phase new_mem new_phase
      → CanMove files s
  progress_by f w new_mem new_phase move = record {
    before = w.before;
    after = w.after;
    msg = w.msg;
    phase = w.phase;
    new_phase = new_phase;
    new_mem = new_mem;
    splits = w.splits;
    moves = move;
  }

  locked_moves : Found is_locked s.threads → CanMove files s
  locked_moves w = go w.phase w.has refl
    where
      go : (p : Phase) → is_locked p ≡ true → w.phase ≡ p → CanMove files s
      go locked e i = elim (Bool-cases (s.mem.heap w.msg).filled) [
        | inl t ↦ progress_by is_locked w s.mem finished (
            subst (λ q. Move files s.threads w.msg s.mem q s.mem finished) (sym i)
              (returns_early t))
        | inr f ↦
            progress_by is_locked w (store w.msg (files w.msg) s.mem)
              (read (length (files w.msg).content))
              (subst
                (λ q.
                  Move files s.threads w.msg s.mem q (store w.msg (files w.msg) s.mem)
                    (read (length (files w.msg).content)))
                (sym i) (reads (sizes w.msg) f (fit w.msg)))
      ]
      go waiting e i = ground (arith, e)
      go (read n) e i = ground (arith, e)
      go (clearing n) e i = ground (arith, e)
      go finished e i = ground (arith, e)

  clearing_moves :
      None is_locked s.threads
      → All (ThreadOk s.mem) s.threads
      → Found is_clearing s.threads
      → CanMove files s
  clearing_moves l ok w = go w.phase w.has refl s.mem.messages refl
    where
      go :
          (p : Phase)
          → is_clearing p ≡ true
          → w.phase ≡ p
          → (ms : List ℕ) → s.mem.messages ≡ ms
          → CanMove files s
      go (clearing n) e i [] j =
          let after : Memory = register w.msg n (record s.mem { known_bytes = 0 }) in
          progress_by is_clearing w after finished
            (subst (λ q. Move files s.threads w.msg s.mem q after finished) (sym i) (ends n j))
      go (clearing n) e i (k ∷ ms) j =
          let k_in : elem k s.mem.messages ≡ true = rw j (ground arith) in
          progress_by is_clearing w (clear_one k s.mem) (clearing n) (
            subst (λ q. Move files s.threads w.msg s.mem q (clear_one k s.mem) (clearing n)) (sym i)
              (clears n k k_in (registered_free s.mem k s.threads k_in l ok)))
      go waiting e i ms j = ground (arith, e)
      go (read n) e i ms j = ground (arith, e)
      go locked e i ms j = ground (arith, e)
      go finished e i ms j = ground (arith, e)

  read_moves : None is_clearing s.threads → Found is_read s.threads → CanMove files s
  read_moves c w = go w.phase w.has refl
    where
      go : (p : Phase) → is_read p ≡ true → w.phase ≡ p → CanMove files s
      go (read n) e i =
          let new = enter w.msg n s.mem in
          progress_by is_read w new.0 new.1 (
            subst (λ q. Move files s.threads w.msg s.mem q new.0 new.1) (sym i)
              (enters n (memory_free s.threads c)))
      go waiting e i = ground (arith, e)
      go locked e i = ground (arith, e)
      go (clearing n) e i = ground (arith, e)
      go finished e i = ground (arith, e)

  waiting_moves :
      None is_locked s.threads
      → None is_read s.threads
      → None is_clearing s.threads
      → Found is_waiting s.threads
      → CanMove files s
  waiting_moves l r c w = go w.phase w.has refl
    where
      go : (p : Phase) → is_waiting p ≡ true → w.phase ≡ p → CanMove files s
      go waiting e i = progress_by is_waiting w s.mem locked (
          subst (λ q. Move files s.threads w.msg s.mem q s.mem locked) (sym i)
            (locks (message_free w.msg s.threads l r c)))
      go locked e i = ground (arith, e)
      go (read n) e i = ground (arith, e)
      go (clearing n) e i = ground (arith, e)
      go finished e i = ground (arith, e)

  Good-CanMove : Good s → CanMove files s ⊎ All Finished s.threads
  Good-CanMove g = elim (find is_locked s.threads) [
    | inl w ↦ inl (locked_moves w)
    | inr l ↦ elim (find is_clearing s.threads) [
      | inl w ↦ inl (clearing_moves l g.threads_ok w)
      | inr c ↦ elim (find is_read s.threads) [
        | inl w ↦ inl (read_moves c w)
        | inr r ↦ elim (find is_waiting s.threads) [
          | inl w ↦ inl (waiting_moves l r c w)
          | inr a ↦ inr (all-Finished s.threads a l r c)
        ]
      ]
    ]
  ]

-- Whatever threads `fill` messages together, from an empty memory, and in whatever order they take
-- their locks and clear messages: when no file fails to be read and each has less than 2^31 bytes,
-- there is no deadlock. In each state they reach, all threads are finished, or one of them can make
-- a step.
pub fills_never_deadlock :
    (files : ℕ → ReadAnswer) (sizes : ℕ → ℕ)
    → Fit files sizes
    → Readable files
    → (max_bytes : ℕ) (ms : List ℕ) (n : ℕ) (s : State) → Steps files n (first_state max_bytes ms) s
    → CanMove files s ⊎ All Finished s.threads
fills_never_deadlock files sizes fit readable max_bytes ms n s steps =
    Good-CanMove files sizes fit s
      (Steps-Good files readable n (first_state max_bytes ms) s steps (first-Good max_bytes ms))
