-- ===== src/Cache/Locks/Progress.antt =====
-- Which locks of core/srvbackend_message.go are free, by the phases of the threads.
pub mod Moves
use mathlib.Core.Path.{subst}
use go_imapgrab.Base.{
  ℕ, ◌≡◌, refl, sym, ap, Bool, true, false, Bool-cases, some, List, [], ◌∷◌, ◌++◌, All, ◌⊎◌, inl,
  inr, length, eqb, eqb_iff, elem, nat_eq, if◌then◌else◌, arith,
}
use go_imapgrab.Cache.{Memory, ReadAnswer}
use go_imapgrab.Cache.Locks.{
  Phase, waiting, locked, read, clearing, finished, Thread, State, has_message, has_memory,
  message_holders, memory_holders, size_stored, store, register, clear_one, enter, thread, Move,
  locks, returns_early, reads, enters, clears, ends, first_state, Steps,
}
use go_imapgrab.Cache.Locks.Exclusive.{ThreadOk, Good}
use go_imapgrab.Cache.Locks.Exclusive.Preserved.{Readable, Steps-Good, first-Good}

-- A thread of the state that can make a step.
pub record CanMove (files : ℕ → ReadAnswer) (s : State) : Type 0 where
  pub before : List Thread
  pub after : List Thread
  pub msg : ℕ
  pub phase : Phase
  pub new_phase : Phase
  pub new_mem : Memory
  pub splits : s.threads ≡ before ++ thread msg phase ∷ after
  pub moves : Move files s.threads msg s.mem phase new_mem new_phase

abbrev is_waiting : Phase → Bool
is_waiting waiting = true
is_waiting locked = false
is_waiting (read n) = false
is_waiting (clearing n) = false
is_waiting finished = false

abbrev is_locked : Phase → Bool
is_locked waiting = false
is_locked locked = true
is_locked (read n) = false
is_locked (clearing n) = false
is_locked finished = false

abbrev is_read : Phase → Bool
is_read waiting = false
is_read locked = false
is_read (read n) = true
is_read (clearing n) = false
is_read finished = false

abbrev is_clearing : Phase → Bool
is_clearing waiting = false
is_clearing locked = false
is_clearing (read n) = false
is_clearing (clearing n) = true
is_clearing finished = false

abbrev None : (Phase → Bool) → List Thread → Type 0
None f ts = All (λ t. f t.phase ≡ false) ts

record Found (f : Phase → Bool) (ts : List Thread) : Type 0 where
  before : List Thread
  after : List Thread
  msg : ℕ
  phase : Phase
  splits : ts ≡ before ++ thread msg phase ∷ after
  has : f phase ≡ true

find : (f : Phase → Bool) (ts : List Thread) → Found f ts ⊎ None f ts
find f [] = inr tt
find f (t ∷ ts) = elim (Bool-cases (f t.phase)) [
  | inl e ↦
      inl (record { before = []; after = ts; msg = t.msg; phase = t.phase; splits = refl; has = e })
  | inr e ↦ elim (find f ts) [
    | inl w ↦ inl (record {
      before = t ∷ w.before;
      after = w.after;
      msg = w.msg;
      phase = w.phase;
      splits = ap (λ us. t ∷ us) w.splits;
      has = w.has;
    })
    | inr n ↦ inr (e, n)
  ]
]

pub Finished : Thread → Type 0
Finished t = t.phase ≡ finished

finished_if :
    (p : Phase)
    → is_waiting p ≡ false
    → is_locked p ≡ false
    → is_read p ≡ false
    → is_clearing p ≡ false
    → p ≡ finished
finished_if waiting a b c d = ground (arith, a)
finished_if locked a b c d = ground (arith, b)
finished_if (read n) a b c d = ground (arith, c)
finished_if (clearing n) a b c d = ground (arith, d)
finished_if finished a b c d = refl

all-Finished :
    (ts : List Thread)
    → None is_waiting ts
    → None is_locked ts
    → None is_read ts
    → None is_clearing ts
    → All Finished ts
unfolding Finished
all-Finished [] a b c d = tt
all-Finished (t ∷ ts) a b c d =
    (finished_if t.phase a.0 b.0 c.0 d.0, all-Finished ts a.1 b.1 c.1 d.1)

no_memory : (p : Phase) → is_clearing p ≡ false → has_memory p ≡ 0
no_memory waiting e = refl
no_memory locked e = refl
no_memory (read n) e = refl
no_memory (clearing n) e = ground (arith, e)
no_memory finished e = refl

memory_free : (ts : List Thread) → None is_clearing ts → memory_holders ts ≡ 0
memory_free [] n = refl
memory_free (t ∷ ts) n = omega (arith, no_memory t.phase n.0, memory_free ts n.1)

-- No thread that holds its message for good holds a registered one.
no_message :
    (mem : Memory) (k j : ℕ) (p : Phase)
    → elem k mem.messages ≡ true
    → is_locked p ≡ false
    → ThreadOk mem (thread j p)
    → (if eqb j k then has_message p else 0) ≡ 0
no_message mem k j waiting e l ok = ground arith
no_message mem k j locked e l ok = ground (arith, l)
no_message mem k j finished e l ok = ground arith
no_message mem k j (read n) e l ok = elim (Bool-cases (eqb j k)) [
  | inl t ↦ ground (arith, e, subst (λ i. elem i mem.messages ≡ false) ((eqb_iff j k).0 t) ok.0)
  | inr f ↦ ground (arith, f)
]
no_message mem k j (clearing n) e l ok = elim (Bool-cases (eqb j k)) [
  | inl t ↦ ground (arith, e, subst (λ i. elem i mem.messages ≡ false) ((eqb_iff j k).0 t) ok.0)
  | inr f ↦ ground (arith, f)
]

registered_free :
    (mem : Memory) (k : ℕ) (ts : List Thread)
    → elem k mem.messages ≡ true
    → None is_locked ts
    → All (ThreadOk mem) ts
    → message_holders k ts ≡ 0
registered_free mem k [] e l ok = refl
registered_free mem k (t ∷ ts) e l ok =
    omega (arith, no_message mem k t.msg t.phase e l.0 ok.0, registered_free mem k ts e l.1 ok.1)

nobody :
    (k j : ℕ) (p : Phase)
    → is_locked p ≡ false
    → is_read p ≡ false
    → is_clearing p ≡ false
    → (if eqb j k then has_message p else 0) ≡ 0
nobody k j waiting l r c = ground arith
nobody k j locked l r c = ground (arith, l)
nobody k j (read n) l r c = ground (arith, r)
nobody k j (clearing n) l r c = ground (arith, c)
nobody k j finished l r c = ground arith

message_free :
    (k : ℕ) (ts : List Thread)
    → None is_locked ts
    → None is_read ts
    → None is_clearing ts
    → message_holders k ts ≡ 0
message_free k [] l r c = refl
message_free k (t ∷ ts) l r c =
    omega (arith, nobody k t.msg t.phase l.0 r.0 c.0, message_free k ts l.1 r.1 c.1)
