-- ===== src/Cli/Lock/Exclusive.antt =====
-- The lock is held by one process at most, and a caller that gave up does not keep it
-- (cli/lock.go).
use go_imapgrab.Base.{
  ℕ, zero, suc, ◌+◌, ◌≤◌, ◌≡◌, refl, Bool, true, false, List, [], ◌∷◌, ◌++◌, All, arith,
}
use go_imapgrab.Cli.Lock.{
  Locker, idle, locking, received, sent, Caller, starting, selecting, timed_out, holding, failed,
  unlocked, Process, State, processes_at_start, first_state, Move, cannot_make_dir, asks, locks,
  cannot_lock, receives, times_out, cleans_up, unlocks, Steps, here, next,
}

-- Whether the result in the channel is the lock.
abbrev in_channel : Locker → ℕ
in_channel (sent true) = 1
in_channel (sent false) = 0
in_channel idle = 0
in_channel locking = 0
in_channel received = 0

abbrev pub holds : Caller → ℕ
holds holding = 1
holds starting = 0
holds selecting = 0
holds timed_out = 0
holds failed = 0
holds unlocked = 0

abbrev owners : List Process → ℕ
owners [] = 0
owners (p ∷ ps) = in_channel p.locker + holds p.caller + owners ps

-- How many callers hold the lock.
abbrev pub holders : List Process → ℕ
holders [] = 0
holders (p ∷ ps) = holds p.caller + holders ps

abbrev pub number : Bool → ℕ
number true = 1
number false = 0

owners-append : (ps qs : List Process) → owners (ps ++ qs) ≡ owners ps + owners qs
owners-append [] qs = omega arith
owners-append (p ∷ ps) qs = omega (arith, owners-append ps qs)

number-le : (b : Bool) → number b ≤ 1
number-le true = omega arith
number-le false = omega arith

-- A step gives and takes the lock as the process does, provided that not more is given back than
-- is held.
Move-number :
    (b b' : Bool) (p p' : Process) (others : ℕ)
    → Move b p b' p'
    → in_channel p.locker + holds p.caller + others ≡ number b
    → in_channel p'.locker + holds p'.caller + others ≡ number b'
Move-number _ _ _ _ others (cannot_make_dir b) h = h
Move-number _ _ _ _ others (asks b) h = h
Move-number _ _ _ _ others (locks c) h = omega (arith, h)
Move-number _ _ _ _ others (cannot_lock b c) h = h
Move-number _ _ _ _ others (receives b true) h = omega (arith, h)
Move-number _ _ _ _ others (receives b false) h = h
Move-number _ _ _ _ others (times_out b l) h = h
Move-number _ _ _ _ others (cleans_up b true) h = omega (arith, h, number-le b)
Move-number _ _ _ _ others (cleans_up b false) h = h
Move-number _ _ _ _ others (unlocks b l) h = omega (arith, h, number-le b)

Steps-number :
    (s t : State)
    → Steps s t
    → owners s.processes ≡ number s.locked
    → owners t.processes ≡ number t.locked
Steps-number _ _ (here s) h = h
Steps-number _ _ (next b b' before after p p' t m r) h =
    let others = owners before + owners after in
    let one = Move-number b b' p p' others m (omega (arith, h, owners-append before (p ∷ after))) in
    Steps-number (record { locked = b'; processes = before ++ p' ∷ after }) t r
      (omega (arith, one, owners-append before (p' ∷ after)))

owners-start : (n : ℕ) → owners (processes_at_start n) ≡ 0
owners-start zero = refl
owners-start (suc n) = omega (arith, owners-start n)

holders-le : (ps : List Process) → holders ps ≤ owners ps
holders-le [] = omega arith
holders-le (p ∷ ps) = omega (arith, holders-le ps)

-- No result is in the channel and the caller does not hold the lock.
abbrev pub IsQuiet : Process → Type 0
IsQuiet p = (in_channel p.locker ≡ 0) × (holds p.caller ≡ 0)

quiet_owners : (ps : List Process) → All IsQuiet ps → owners ps ≡ 0
quiet_owners [] h = refl
quiet_owners (p ∷ ps) h = omega (arith, h.0.0, h.0.1, quiet_owners ps h.1)

number-zero : (b : Bool) → number b ≡ 0 → b ≡ false
number-zero true h = absurd (omega (arith, h))
number-zero false h = refl

module _ (n : ℕ) (s : State) (r : Steps (first_state n) s) where
  balance : owners s.processes ≡ number s.locked
  balance = Steps-number (first_state n) s r (owners-start n)

  -- However many processes ask for the lock, time out and give it back, and in whatever order, at
  -- most one caller holds it at a time, and only while it is held.
  pub lock_exclusive : (holders s.processes ≤ 1) × (holders s.processes ≤ number s.locked)
  lock_exclusive = (
    omega (arith, balance, number-le s.locked, holders-le s.processes),
    omega (arith, balance, holders-le s.processes),
  )

  -- Once no caller holds the lock and each result was taken out of its channel, be it after a
  -- timeout, the lock is free again.
  pub lock_released : All IsQuiet s.processes → s.locked ≡ false
  lock_released quiet =
      number-zero s.locked (omega (arith, balance, quiet_owners s.processes quiet))
