-- ===== src/Threading.antt =====
-- core/interrupt.go, and the list of errors of core/threading.go.
--
-- A signal arrives between two calls, each of which holds the lock. `signal.Notify` does not block:
-- a signal that finds the channel full is dropped.
pub mod Signals
use go_imapgrab.Base.{
  ℕ, ◌+◌, ◌-◌, Bool, true, false, not, Option, none, some, List, [], ◌∷◌, ◌++◌, Bytes, codes,
  length, eqb, ltb, join, if◌then◌else◌,
}
use go_imapgrab.Decimal.{print_ℕ}

-- How many signals wait in the channel, if there is one, and how many different signals are caught,
-- which is how many the channel holds.
pub record Interrupter : Type 0 where
  pub signals : ℕ
  pub channel : Option ℕ

unfoldable pub register : Interrupter → Interrupter
register i = record i { channel = some 0 }

unfoldable pub deregister : Interrupter → Interrupter
deregister i = record i { channel = none }

-- The state afterwards, and the answer.
unfoldable pub interrupted : Interrupter → Interrupter × Bool
interrupted i = elim i.channel [
  | none ↦ (i, true)
  | some waiting ↦ if ltb 0 waiting then (deregister i, true) else (i, false)
]

-- `none` is a call that waits: for a signal, or for ever on a channel that is nil.
unfoldable pub wait : Interrupter → Option Interrupter
wait i = elim i.channel [
  | none ↦ none
  | some waiting ↦ if ltb 0 waiting then some (deregister i) else none
]

unfoldable pub new_interrupt_ops : ℕ → Interrupter
new_interrupt_ops signals = register (record { signals = signals; channel = none })

-- The library hands a signal on.
unfoldable pub signal : Interrupter → Interrupter
signal i = elim i.channel [
  | none ↦ i
  | some waiting ↦ if ltb waiting i.signals then record i { channel = some (waiting + 1) } else i
]

-- `threadSafeErrors`; each error is its text.
abbrev pub ThreadSafeErrors : Type 0
ThreadSafeErrors = List Bytes

unfoldable pub add_error : ThreadSafeErrors → Option Bytes → ThreadSafeErrors
add_error errs none = errs
add_error errs (some e) = errs ++ e ∷ []

unfoldable pub bad : ThreadSafeErrors → Bool
bad errs = not (eqb (length errs) 0)

unfoldable pub err : ThreadSafeErrors → Option Bytes
err errs =
    if eqb (length errs) 0
    then none
    else some (print_ℕ (length errs) ++ codes " errors detected: " ++ join (codes ", ") errs)
