-- ===== src/Cache/Locks.antt =====
-- The locks of core/srvbackend_message.go: some threads that call `fill`, each for a message, with
-- the lock of each message and the lock of the memory.
--
-- A lock is held by the threads in certain phases. `fill` holds the lock of its message to its end,
-- and the lock of the memory while it registers the message; before that, when there is too much,
-- it clears the registered messages one by one, in any order, each under its own lock.
pub mod Exclusive
pub mod Progress
pub mod Ending
use go_imapgrab.Base.{
  ℕ, ◌+◌, ◌≡◌, Bool, true, false, not, Option, List, [], ◌∷◌, ◌++◌, map, suc, pos, some, length,
  eqb, ltb, elem, keep, nat_eq, if◌then◌else◌,
}
use go_imapgrab.Partition.{int_to_uint32}
use go_imapgrab.Cache.{ServerMessage, Memory, ReadAnswer, no_text, put_message}

-- Before the lock of the message; holding it; with the bytes of the file read; with the lock of the
-- memory too, clearing messages; at the end.
pub data Phase : Type 0 where
  waiting locked finished : Phase
  read clearing : ℕ → Phase

pub record Thread : Type 0 where
  pub msg : ℕ
  pub phase : Phase

pub record State : Type 0 where
  pub mem : Memory
  pub threads : List Thread

-- 1 for a thread that holds the lock of its message, and for one that holds the lock of the memory.
abbrev pub has_message : Phase → ℕ
has_message waiting = 0
has_message locked = 1
has_message (read n) = 1
has_message (clearing n) = 1
has_message finished = 0

abbrev pub has_memory : Phase → ℕ
has_memory waiting = 0
has_memory locked = 0
has_memory (read n) = 0
has_memory (clearing n) = 1
has_memory finished = 0

abbrev pub message_holders : ℕ → List Thread → ℕ
message_holders k [] = 0
message_holders k (t ∷ ts) = (if eqb t.msg k then has_message t.phase else 0) + message_holders k ts

abbrev pub memory_holders : List Thread → ℕ
memory_holders [] = 0
memory_holders (t ∷ ts) = has_memory t.phase + memory_holders ts

-- The part of `fill` between the two locks.
unfoldable pub store : ℕ → ReadAnswer → Memory → Memory
store m answer mem = if answer.failed then mem else record mem {
  heap =
      put_message mem.heap m
        (record { filled = true; size = length answer.content; body = answer.content });
}

-- backendMem.messages[msg] = true, with its size
unfoldable pub register : ℕ → ℕ → Memory → Memory
register m size mem = record mem {
  messages = m ∷ mem.messages;
  known_bytes = mem.known_bytes + size;
}

-- One message cleared and deleted from the map.
unfoldable pub clear_one : ℕ → Memory → Memory
clear_one k mem = record mem {
  heap = put_message mem.heap k no_text;
  messages = keep (λ j. not (eqb j k)) mem.messages;
}

-- With the lock of the memory: what becomes of it, and of the thread.
unfoldable pub enter : ℕ → ℕ → Memory → Memory × Phase
enter m size mem =
    if elem m mem.messages
    then (mem, finished)
    else if ltb mem.max_bytes (size + mem.known_bytes)
    then (mem, clearing size)
    else (register m size mem, finished)

abbrev pub thread : ℕ → Phase → Thread
thread m p = record { msg = m; phase = p }

-- What `fill` makes of the size of an answer; `none` is the panic of `intToUint32`.
unfoldable pub size_stored : ReadAnswer → Option ℕ
size_stored answer = if answer.failed then some 0 else int_to_uint32 (pos (length answer.content))

-- One step of a thread, by the memory and the phase before and after, with the answers of
-- os.ReadFile for the files of the messages. The others are the threads with this one.
pub data Move (files : ℕ → ReadAnswer) (others : List Thread) (m : ℕ) (mem : Memory)
    : Phase → Memory → Phase → Type 0 where
  locks : message_holders m others ≡ 0 → Move files others m mem waiting mem locked
  returns_early : (mem.heap m).filled ≡ true → Move files others m mem locked mem finished
  reads :
      (n : ℕ)
      → (mem.heap m).filled ≡ false
      → size_stored (files m) ≡ some n
      → Move files others m mem locked (store m (files m) mem) (read (length (files m).content))
  enters :
      (size : ℕ)
      → memory_holders others ≡ 0
      → Move files others m mem (read size) (enter m size mem).0 (enter m size mem).1
  clears :
      (size k : ℕ)
      → elem k mem.messages ≡ true
      → message_holders k others ≡ 0
      → Move files others m mem (clearing size) (clear_one k mem) (clearing size)
  ends :
      (size : ℕ)
      → mem.messages ≡ []
      → Move files others m mem
          (clearing size)
          (register m size (record mem { known_bytes = 0 }))
          finished

-- The first memory, and threads that are about to `fill` the messages given.
unfoldable pub first_state : ℕ → List ℕ → State
first_state max_bytes ms = record {
  mem = record { known_bytes = 0; max_bytes = max_bytes; messages = []; heap = λ k. no_text };
  threads = map (λ m. thread m waiting) ms;
}

-- A number of steps.
pub data Steps (files : ℕ → ReadAnswer) : ℕ → State → State → Type 0 where
  here : (s : State) → Steps files 0 s s
  next :
      (n : ℕ) (before after : List Thread) (m : ℕ) (p p' : Phase) (mem mem' : Memory) (u : State)
      → Move files (before ++ thread m p ∷ after) m mem p mem' p'
      → Steps files n (record { mem = mem'; threads = before ++ thread m p' ∷ after }) u
      → Steps files (suc n) (record { mem = mem; threads = before ++ thread m p ∷ after }) u
