-- ===== src/Threading/Signals.antt =====
-- Once interrupted, always interrupted; and errors are not forgotten (core/interrupt.go,
-- core/threading.go).
use go_imapgrab.Base.{
  ℕ, ◌≡◌, ◌↔◌, ◌<◌, refl, true, false, Option, none, some, List, [], ◌∷◌, ◌++◌, Bytes, arith, All,
  length-append,
}
use go_imapgrab.Threading.{
  Interrupter, register, deregister, interrupted, wait, new_interrupt_ops, signal, ThreadSafeErrors,
  add_error, bad, err,
}

-- What can happen to an interrupter after it was made.
pub data Step (i : Interrupter) : Interrupter → Type 0 where
  arrives : Step i (signal i)
  asked : Step i (interrupted i).0
  deregistered : Step i (deregister i)
  waited : (j : Interrupter) → wait i ≡ some j → Step i j

pub data Steps : Interrupter → Interrupter → Type 0 where
  here : (i : Interrupter) → Steps i i
  next : (i j k : Interrupter) → Step i j → Steps j k → Steps i k

-- A signal waits, or one was taken.
abbrev pub IsHit : Interrupter → Type 0
IsHit i = (interrupted i).1 ≡ true

signal-IsHit : (i : Interrupter) → IsHit i → IsHit (signal i)
unfolding signal interrupted
signal-IsHit i h = ground arith

asked-IsHit : (i : Interrupter) → IsHit i → IsHit (interrupted i).0
unfolding interrupted deregister
asked-IsHit i h = ground arith

deregistered-IsHit : (i : Interrupter) → IsHit (deregister i)
unfolding interrupted deregister
deregistered-IsHit i = refl

waited-IsHit : (i j : Interrupter) → wait i ≡ some j → IsHit j
unfolding wait interrupted deregister
waited-IsHit i j h = ground arith

Step-IsHit : (i j : Interrupter) → Step i j → IsHit i → IsHit j
Step-IsHit i _ arrives h = signal-IsHit i h
Step-IsHit i _ asked h = asked-IsHit i h
Step-IsHit i _ deregistered h = deregistered-IsHit i
Step-IsHit i _ (waited j w) h = waited-IsHit i j w

-- Once `interrupted` would answer yes it always does, whatever signals arrive, however often it is
-- asked, and whoever waits or deregisters.
pub Steps-IsHit : (i j : Interrupter) → Steps i j → IsHit i → IsHit j
Steps-IsHit _ _ (here i) h = h
Steps-IsHit _ _ (next i j k s ss) h = Steps-IsHit j k ss (Step-IsHit i j s h)

-- With at least one signal to catch, a new interrupter is not interrupted, and is after a signal.
pub new_interrupt_ops-IsHit :
    (n : ℕ)
    → 0 < n
    → ((interrupted (new_interrupt_ops n)).1 ≡ false) × IsHit (signal (new_interrupt_ops n))
unfolding new_interrupt_ops register signal interrupted
new_interrupt_ops-IsHit n h = (refl, ground arith)

-- What some workers report, in the order in which they come to it.
abbrev pub add_all : ThreadSafeErrors → List (Option Bytes) → ThreadSafeErrors
add_all errs [] = errs
add_all errs (e ∷ es) = add_all (add_error errs e) es

add_all-bad :
    (errs : ThreadSafeErrors) (es : List (Option Bytes))
    → bad errs ≡ true
    → bad (add_all errs es) ≡ true
unfolding add_error bad
add_all-bad errs [] h = h
add_all-bad errs (none ∷ es) h = add_all-bad errs es h
add_all-bad errs (some e ∷ es) h =
    add_all-bad (errs ++ e ∷ []) es (ground (arith, length-append {0} errs (e ∷ [])))

pub err_iff_bad : (errs : ThreadSafeErrors) → (err errs ≡ none) ↔ (bad errs ≡ false)
unfolding err bad
err_iff_bad errs = ground arith

-- The workers' errors are reported exactly if one of them had one, in whatever order they come.
pub err-add_all : (es : List (Option Bytes)) → (err (add_all [] es) ≡ none) ↔ All (λ e. e ≡ none) es
unfolding add_error bad
err-add_all [] = (λ _. tt, λ _. (err_iff_bad []).1 refl)
err-add_all (none ∷ es) = let (f, g) = err-add_all es in (λ h. (refl, f h), λ h. g h.1)
err-add_all (some e ∷ es) = (
  λ h. absurd (ground (arith, (err_iff_bad _).0 h, add_all-bad (e ∷ []) es refl)),
  λ h. absurd (ground arith),
)
