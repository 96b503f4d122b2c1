-- ===== src/Examples/Locks.antt =====
-- Concrete runs of the threads that fill messages of the local server.
use go_imapgrab.Base.{ℕ, refl, false, List, [], ◌∷◌, All, ◌⊎◌}
use go_imapgrab.Partition.{int_to_uint32}
use go_imapgrab.Cache.{Memory, ReadAnswer, no_text}
use go_imapgrab.Cache.Locks.{
  waiting, locked, read, clearing, State, size_stored, store, enter, thread, locks, reads, enters,
  first_state, Steps, here, next,
}
use go_imapgrab.Cache.Locks.Exclusive.Preserved.{Readable}
use go_imapgrab.Cache.Locks.Progress.{CanMove, Finished}
use go_imapgrab.Cache.Locks.Progress.Moves.{Fit, fills_never_deadlock}

abbrev asked : List ℕ
asked = 0 ∷ 1 ∷ []

abbrev files : ℕ → ReadAnswer
files m = record { content = 65 ∷ 66 ∷ []; failed = false }

files-Fit : Fit files (λ m. 2)
unfolding size_stored int_to_uint32
files-Fit m = refl

files-Readable : Readable files
files-Readable m = refl

abbrev mem : Memory
mem = record { known_bytes = 0; max_bytes = 1; messages = []; heap = λ k. no_text }

abbrev read_once : Memory
read_once = store 0 (files 0) mem

-- The first thread has to clear messages, while the second waits for the memory.
abbrev blocked : State
blocked = record {
  mem = store 1 (files 1) read_once;
  threads = thread 0 (clearing 2) ∷ thread 1 (read 2) ∷ [];
}

run : Steps files 5 (first_state 1 asked) blocked
unfolding first_state store enter int_to_uint32 size_stored
run = next 4 [] (thread 1 waiting ∷ []) 0 waiting locked mem mem blocked (locks refl) (
    next 3 [] (thread 1 waiting ∷ []) 0 locked (read 2) mem read_once blocked (reads 2 refl refl) (
      next 2 [] (thread 1 waiting ∷ []) 0 (read 2) (clearing 2) read_once read_once blocked
        (enters 2 refl)
        (next 1 (thread 0 (clearing 2) ∷ []) [] 1 waiting locked read_once read_once blocked
          (locks refl)
          (next 0 (thread 0 (clearing 2) ∷ []) [] 1 locked (read 2) read_once blocked.mem blocked
            (reads 2 refl refl) (here blocked)))))

fills_never_deadlock_example : CanMove files blocked ⊎ All Finished blocked.threads
fills_never_deadlock_example =
    fills_never_deadlock files (λ m. 2) files-Fit files-Readable 1 asked 5 blocked run
