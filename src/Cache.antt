-- ===== src/Cache.antt =====
-- core/srvbackend_message.go: the messages of the local server keep their texts in memory up to a
-- limit; when a new text exceeds it, all others are dropped.
--
-- A message is known by a number (the code's pointer). The locks make each `fill` one step.
pub mod Accounting
pub mod Locks
use go_imapgrab.Base.{
  ℕ, ◌+◌, Bool, true, false, not, Option, none, some, List, [], ◌∷◌, Bytes, ℤ, pos, length, eqb,
  ltb, elem, nat_eq, if◌then◌else◌,
}
use go_imapgrab.Partition.{int_to_uint32}

-- What changes of a `serverMessage` and of the `memory.Message` in it.
pub record ServerMessage : Type 0 where
  pub filled : Bool
  pub size : ℕ
  pub body : Bytes

-- `backendMem`, and the messages of all mailboxes.
pub record Memory : Type 0 where
  pub known_bytes : ℕ
  pub max_bytes : ℕ
  pub messages : List ℕ
  pub heap : ℕ → ServerMessage

-- os.ReadFile: what was read, and whether there was an error.
pub record ReadAnswer : Type 0 where
  pub content : Bytes
  pub failed : Bool

abbrev pub no_text : ServerMessage
no_text = record { filled = false; size = 0; body = [] }

abbrev pub put_message : (ℕ → ServerMessage) → ℕ → ServerMessage → ℕ → ServerMessage
put_message heap m msg k = if eqb k m then msg else heap k

unfoldable pub clear : ℕ → (ℕ → ServerMessage) → ℕ → ServerMessage
clear m heap = put_message heap m no_text

unfoldable pub clear_all : List ℕ → (ℕ → ServerMessage) → ℕ → ServerMessage
clear_all [] heap = heap
clear_all (m ∷ ms) heap = clear_all ms (clear m heap)

unfoldable pub clear_backend_message_memory_if_needed : ℕ → ℕ → Memory → Memory
clear_backend_message_memory_if_needed msg new_size mem =
    let cleared =
      if ltb mem.max_bytes (new_size + mem.known_bytes)
      then record mem { heap = clear_all mem.messages mem.heap; messages = []; known_bytes = 0 }
      else mem in
    if elem msg mem.messages then mem else record cleared {
      messages = msg ∷ cleared.messages;
      known_bytes = cleared.known_bytes + new_size;
    }

-- `none` is the panic of `intToUint32`; the Boolean is whether there is an error.
unfoldable pub fill : ℕ → ReadAnswer → Memory → Option (Memory × Bool)
fill m answer mem =
    let size = length answer.content in
    if (mem.heap m).filled
    then some (mem, false)
    else if answer.failed
    then some (clear_backend_message_memory_if_needed m size mem, true)
    else elim (int_to_uint32 (pos size)) [
      | none ↦ none
      | some n ↦
          let msg : ServerMessage = record { filled = true; size = n; body = answer.content } in
          some (
            clear_backend_message_memory_if_needed m size
                (record mem { heap = put_message mem.heap m msg }),
            false,
          )
    ]
