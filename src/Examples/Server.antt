-- ===== src/Examples/Server.antt =====
-- The local server, its memory, the interrupter and the list of errors at concrete inputs.
use go_imapgrab.Base.{
  ℕ, ◌+◌, ◌≡◌, ◌⊎◌, refl, arith, Bool, true, false, Option, none, some, List, [], ◌∷◌, Bytes, codes,
  pos, inl, length,
}
use go_imapgrab.Partition.{int_to_uint32}
use go_imapgrab.Cache.{
  Memory, no_text, fill, put_message, clear_backend_message_memory_if_needed, clear_all, clear,
}
use go_imapgrab.Cache.Accounting.{IsSound, held, fill-IsSound}
use go_imapgrab.Server.{
  DirEntry, ServerMailbox, BackendMessage, files_of, number_messages, add_messages,
}
use go_imapgrab.Base.{list_eq, nat_eq}
use go_imapgrab.Server.{MaildirEntry, mailboxes_of}
use go_imapgrab.Server.Numbering.{IsNumbered}
use go_imapgrab.Threading.{Interrupter, new_interrupt_ops, interrupted, signal}
use go_imapgrab.Threading.Signals.{
  here, next, arrives, asked, IsHit, Steps-IsHit, new_interrupt_ops-IsHit,
}

abbrev empty_memory : Memory
empty_memory = record { known_bytes = 0; max_bytes = 3; messages = []; heap = λ _. no_text }

empty_memory-IsSound : IsSound empty_memory
unfolding held
empty_memory-IsSound = record {
  counted = refl;
  registered = λ m h. absurd (ground arith);
  others_empty = λ m h. refl;
  bounded = inl (omega arith);
}

abbrev after_first : Memory
after_first = record {
  known_bytes = 2;
  max_bytes = 3;
  messages = 5 ∷ [];
  heap = put_message (λ _. no_text) 5 (record { filled = true; size = 2; body = codes "ab" });
}

first_fill :
    fill 5 (record { content = codes "ab"; failed = false }) empty_memory
    ≡ some (after_first, false)
unfolding fill clear_backend_message_memory_if_needed int_to_uint32
first_fill = refl

-- A second text that exceeds the limit drops the first.
abbrev second_fill : Option (Memory × Bool)
second_fill = fill 6 (record { content = codes "cd"; failed = false }) after_first

abbrev bytes_of_first : Option (Memory × Bool) → ℕ
bytes_of_first none = 9
bytes_of_first (some (m, _)) = length (m.heap 5).body + m.known_bytes

dropped : bytes_of_first second_fill ≡ 2
unfolding fill clear_backend_message_memory_if_needed int_to_uint32 clear_all clear
dropped = refl

fill-IsSound_example :
    IsSound after_first
    × (false ≡ false)
    × ((after_first.heap 5).filled ≡ true)
    × (((empty_memory.heap 5).filled ≡ true) ⊎ ((after_first.heap 5).body ≡ codes "ab"))
fill-IsSound_example =
    fill-IsSound 5 (codes "ab") empty_memory after_first false empty_memory-IsSound first_fill

abbrev new_files : List DirEntry
new_files =
    record { path = codes "new/a"; mod_time = some (pos 1) }
    ∷ record { path = codes "new/b"; mod_time = none }
    ∷ []

abbrev cur_files : List DirEntry
cur_files = record { path = codes "cur/c"; mod_time = some (pos 2) } ∷ []

abbrev inbox : ServerMailbox
inbox = record { folder = codes "INBOX"; messages = [] }

abbrev seen : ℕ → Bytes → ℕ → BackendMessage
seen t p n = record { path = p; date = pos t; uid = n; flags = codes "\\Seen" ∷ [] }

abbrev filled_inbox : ServerMailbox
filled_inbox = record inbox { messages = seen 1 (codes "new/a") 1 ∷ seen 2 (codes "cur/c") 2 ∷ [] }

messages_added :
    add_messages (λ fs. fs) (some new_files) (some cur_files) inbox ≡ some (inl filled_inbox)
unfolding add_messages number_messages files_of int_to_uint32
messages_added = refl

filled-IsNumbered : IsNumbered 0 filled_inbox.messages
unfolding IsNumbered
filled-IsNumbered = (refl, (refl, tt))

abbrev one_signal : Interrupter
one_signal = signal (new_interrupt_ops 1)

Steps-IsHit_example : IsHit (interrupted (signal one_signal)).0
Steps-IsHit_example =
    Steps-IsHit one_signal (interrupted (signal one_signal)).0
      (next one_signal (signal one_signal) _ arrives (next _ _ _ asked (here _)))
      (new_interrupt_ops-IsHit 1 (omega arith)).1

abbrev other_box : ServerMailbox
other_box = record { folder = codes "Sent"; messages = [] }

abbrev dirs : List MaildirEntry
dirs =
    record {
      name = codes "INBOX";
      is_dir = true;
      is_maildir = true;
      new = some new_files;
      cur = some cur_files;
    }
    ∷ record { name = codes "x"; is_dir = true; is_maildir = false; new = none; cur = none }
    ∷ record { name = codes "Sent"; is_dir = true; is_maildir = true; new = none; cur = none }
    ∷ []

boxes_added : mailboxes_of (λ fs. fs) dirs ≡ some (filled_inbox ∷ other_box ∷ [], 1)
unfolding mailboxes_of add_messages number_messages files_of int_to_uint32
boxes_added = refl
