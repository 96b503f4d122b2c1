-- ===== src/Examples/Requests.antt =====
-- A client of the local server at concrete inputs.
use go_imapgrab.Base.{
  ℕ, ◌≡◌, refl, Bool, true, Option, none, some, List, [], ◌∷◌, Bytes, codes, pos, eqb, arith,
  if◌then◌else◌,
}
use go_imapgrab.Partition.{int_to_uint32}
use go_imapgrab.Cache.{
  ServerMessage, Memory, ReadAnswer, no_text, fill, clear_backend_message_memory_if_needed,
  clear_all, clear,
}
use go_imapgrab.Cache.Locks.{size_stored}
use go_imapgrab.Cache.Locks.Progress.Moves.{Fit}
use go_imapgrab.Server.{BackendMessage, read_only, unknown_mailbox, get_mailbox, update_flags_from}
use go_imapgrab.Server.Requests.{
  ServerUser, in_mailbox, check, list_messages, update_messages_flags, search_messages,
  create_mailbox, Request, Reply, no_error, error_of, fetched, found, update_mailbox, with_text,
  fetch_from, match_from, handle_mailbox, use_mailbox, handle, serve,
}
use go_imapgrab.Server.Requests.ReadOnly.{Kept, serve-Kept}
use go_imapgrab.Server.Requests.Transparent.{IsFaithful}
use go_imapgrab.Server.Requests.Transparent.Plain.{plain_serve, Agrees, serve-Agrees}

abbrev mail_at : Bytes → ℕ → List Bytes → BackendMessage
mail_at path n flags = record { path = path; date = pos n; uid = n; flags = flags }

abbrev user_with : List Bytes → ServerUser
user_with flags = record {
  name = codes "user";
  mailboxes =
      record {
        folder = codes "INBOX";
        messages = mail_at (codes "a") 1 [] ∷ mail_at (codes "b") 2 flags ∷ [];
      }
      ∷ [];
}

-- The file of a message is known by the first byte of its path; that of `b` cannot be read.
abbrev address : Bytes → ℕ
address [] = 0
address (c ∷ cs) = c

abbrev files : ℕ → ReadAnswer
files k = record { content = 120 ∷ 121 ∷ []; failed = eqb k 98 }

abbrev sizes : ℕ → ℕ
sizes k = if eqb k 98 then 0 else 2

files-Fit : Fit files sizes
unfolding size_stored int_to_uint32
files-Fit k = ground arith

abbrev fetch : ServerMessage → BackendMessage → ℕ → Option Bytes
fetch text m n = some text.body

abbrev match_message : ServerMessage → BackendMessage → ℕ → Option Bool
match_message text m n = some true

abbrev nothing_read : Memory
nothing_read = record { known_bytes = 0; max_bytes = 1; messages = []; heap = λ k. no_text }

nothing_read-IsFaithful : IsFaithful files sizes nothing_read
unfolding IsFaithful
nothing_read-IsFaithful k h = ground (arith, h)

abbrev requests : List Request
requests =
    in_mailbox (codes "INBOX") (list_messages (λ n. true))
    ∷ in_mailbox (codes "INBOX") search_messages
    ∷ in_mailbox (codes "INBOX") (update_messages_flags (λ n. eqb n 2) (λ flags. codes "x" ∷ flags))
    ∷ create_mailbox (codes "Other")
    ∷ in_mailbox (codes "Other") check
    ∷ []

serve-Agrees_example :
    Agrees address files sizes
      (plain_serve address files sizes fetch match_message requests (user_with []))
      (serve address files fetch match_message requests (user_with []) nothing_read)
serve-Agrees_example =
    serve-Agrees address files sizes files-Fit fetch match_message requests (user_with [])
      nothing_read nothing_read-IsFaithful

-- The failed reading of `b` registers it, and clears `a` for it.
abbrev replies : List (Reply Bytes)
replies =
    fetched ((120 ∷ 121 ∷ []) ∷ [])
    ∷ found (1 ∷ [])
    ∷ no_error
    ∷ error_of read_only
    ∷ error_of unknown_mailbox
    ∷ []

abbrev memory_of : Option (ServerUser × Memory × List (Reply Bytes)) → Memory
memory_of none = nothing_read
memory_of (some (user, mem, rs)) = mem

abbrev memory_after : Memory
memory_after =
    memory_of (serve address files fetch match_message requests (user_with []) nothing_read)

served :
    serve address files fetch match_message requests (user_with []) nothing_read
    ≡ some (user_with (codes "x" ∷ []), memory_after, replies)
unfolding serve handle use_mailbox handle_mailbox fetch_from match_from with_text fill
    clear_backend_message_memory_if_needed clear_all clear int_to_uint32 get_mailbox update_mailbox
    update_flags_from
served = refl

memory_after_messages : memory_after.messages ≡ 98 ∷ []
unfolding serve handle use_mailbox handle_mailbox fetch_from match_from with_text fill
    clear_backend_message_memory_if_needed clear_all clear int_to_uint32 get_mailbox update_mailbox
    update_flags_from
memory_after_messages = refl

serve-Kept_example : Kept (user_with []) (user_with (codes "x" ∷ []))
serve-Kept_example =
    serve-Kept address files fetch match_message requests (user_with [])
      (user_with (codes "x" ∷ [])) nothing_read memory_after replies served
