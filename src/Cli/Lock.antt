-- ===== src/Cli/Lock.antt =====
-- cli/lock.go: some processes that call `lock` on the same file, each with the goroutine that waits
-- for the lock, and give it back (`defer unlock()` of the commands).
--
-- The lock of the file is the library's: it is free or held, and asking for it may fail.
pub mod Exclusive
use go_imapgrab.Base.{ℕ, zero, suc, Bool, true, false, List, [], ◌∷◌, ◌++◌, ◌≡◌}

-- The first goroutine: not yet started; in `doLock`; with its result in the channel, whether it has the lock; and
-- with the result taken out.
pub data Locker : Type 0 where
  idle locking received : Locker
  sent : Bool → Locker

-- The caller: at the start; in the `select`; after the timeout, with the goroutine that waits for
-- the result; holding the lock; and at the end, with an error or with the lock given back.
pub data Caller : Type 0 where
  starting selecting timed_out holding failed unlocked : Caller

pub record Process : Type 0 where
  pub locker : Locker
  pub caller : Caller

pub record State : Type 0 where
  pub locked : Bool
  pub processes : List Process

abbrev pub processes_at_start : ℕ → List Process
processes_at_start zero = []
processes_at_start (suc n) = record { locker = idle; caller = starting } ∷ processes_at_start n

abbrev pub first_state : ℕ → State
first_state n = record { locked = false; processes = processes_at_start n }

-- What the caller does with a result: an error is returned.
abbrev pub after_receive : Bool → Caller
after_receive true = holding
after_receive false = failed

-- What the goroutine behind the timeout does with a result: a lock is given back.
abbrev pub after_clean_up : Bool → Bool → Bool
after_clean_up true locked = false
after_clean_up false locked = locked

-- One step of one process: the lock before and after, the process before and after.
pub data Move : Bool → Process → Bool → Process → Type 0 where
  cannot_make_dir :
      (b : Bool)
      → Move b
          (record { locker = idle; caller = starting })
          b
          (record { locker = idle; caller = failed })
  asks :
      (b : Bool)
      → Move b
          (record { locker = idle; caller = starting })
          b
          (record { locker = locking; caller = selecting })
  locks :
      (c : Caller)
      → Move false
          (record { locker = locking; caller = c })
          true
          (record { locker = sent true; caller = c })
  cannot_lock :
      (b : Bool) (c : Caller)
      → Move b
          (record { locker = locking; caller = c })
          b
          (record { locker = sent false; caller = c })
  receives :
      (b ok : Bool)
      → Move b
          (record { locker = sent ok; caller = selecting })
          b
          (record { locker = received; caller = after_receive ok })
  times_out :
      (b : Bool) (l : Locker)
      → Move b
          (record { locker = l; caller = selecting })
          b
          (record { locker = l; caller = timed_out })
  cleans_up :
      (b ok : Bool)
      → Move b
          (record { locker = sent ok; caller = timed_out })
          (after_clean_up ok b)
          (record { locker = received; caller = timed_out })
  unlocks :
      (b : Bool) (l : Locker)
      → Move b
          (record { locker = l; caller = holding })
          false
          (record { locker = l; caller = unlocked })

pub data Steps : State → State → Type 0 where
  here : (s : State) → Steps s s
  next :
      (b b' : Bool) (before after : List Process) (p p' : Process) (t : State)
      → Move b p b' p'
      → Steps (record { locked = b'; processes = before ++ p' ∷ after }) t
      → Steps (record { locked = b; processes = before ++ p ∷ after }) t
