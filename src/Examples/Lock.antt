-- ===== src/Examples/Lock.antt =====
-- cli/lock.go with two processes, one of which gives up.
use go_imapgrab.Base.{◌≤◌, true, false, [], ◌∷◌}
use go_imapgrab.Cli.Lock.{
  Locker, idle, locking, received, sent, Caller, starting, selecting, timed_out, holding, unlocked,
  Process, State, first_state, asks, locks, receives, times_out, cleans_up, unlocks, Steps, here,
  next,
}
use go_imapgrab.Cli.Lock.Exclusive.{holders, number, lock_exclusive}

abbrev process : Locker → Caller → Process
process l c = record { locker = l; caller = c }

-- The first has the lock when the second gives up.
abbrev middle : State
middle = record {
  locked = true;
  processes = process received holding ∷ process locking timed_out ∷ [];
}

to_middle-Steps : Steps (first_state 2) middle
to_middle-Steps =
    next false false [] (process idle starting ∷ []) (process idle starting)
      (process locking selecting) middle (asks false)
      (next false false (process locking selecting ∷ []) [] (process idle starting)
        (process locking selecting) middle (asks false)
        (next false true [] (process locking selecting ∷ []) (process locking selecting)
          (process (sent true) selecting) middle (locks selecting)
          (next true true [] (process locking selecting ∷ []) (process (sent true) selecting)
            (process received holding) middle (receives true true)
            (next true true (process received holding ∷ []) [] (process locking selecting)
              (process locking timed_out) middle (times_out true locking) (here middle)))))

-- The second gets the lock after the first has given it back, and gives it back at once.
abbrev last : State
last = record {
  locked = false;
  processes = process received unlocked ∷ process received timed_out ∷ [];
}

append-Steps : (s t u : State) → Steps s t → Steps t u → Steps s u
append-Steps _ _ u (here s) r = r
append-Steps _ _ u (next b b' before after p p' t m q) r =
    next b b' before after p p' u m (append-Steps _ t u q r)

to_last-Steps : Steps (first_state 2) last
to_last-Steps = append-Steps (first_state 2) middle last to_middle-Steps (
    next true false [] (process locking timed_out ∷ []) (process received holding)
      (process received unlocked) last (unlocks true received)
      (next false true (process received unlocked ∷ []) [] (process locking timed_out)
        (process (sent true) timed_out) last (locks timed_out)
        (next true false (process received unlocked ∷ []) [] (process (sent true) timed_out)
          (process received timed_out) last (cleans_up true true) (here last))))

lock_exclusive_example : (holders middle.processes ≤ 1) × (holders middle.processes ≤ number true)
lock_exclusive_example = lock_exclusive 2 middle to_middle-Steps
