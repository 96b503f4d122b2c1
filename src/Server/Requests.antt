-- ===== src/Server/Requests.antt =====
-- The requests of a client of the local server: core/srvbackend.go, core/srvbackend_user.go and
-- core/srvbackend_mailbox.go, with the texts that core/srvbackend_message.go keeps in memory.
--
-- A request that concerns a mailbox names it: the library looks the mailbox up before it uses it.
-- The messages are known to the memory by numbers (`address`, for the code's pointers); parameters
-- are also what their files hold, and what the library makes of a message with its text (`fetch`
-- and `match_message`).
pub mod ReadOnly
pub mod Transparent
use go_imapgrab.Base.{
  ℕ, ◌+◌, Bool, true, false, Option, none, some, List, [], ◌∷◌, Bytes, length, ◌==◌, list_eq,
  nat_eq, map, if◌then◌else◌, ◌⊎◌, inl, inr, ◌>>=◌,
}
use go_imapgrab.Cache.{ServerMessage, Memory, ReadAnswer, fill}
use go_imapgrab.Server.{
  BackendMessage, ServerMailbox, ServerError, read_only, cannot_read_dir, MaildirEntry, PathAndInfo,
  StatusItem, Status, status, get_mailbox, login, update_flags_from, add_mailboxes,
}

pub record ServerUser : Type 0 where
  pub name : Bytes
  pub mailboxes : List ServerMailbox

pub record ServerBackend : Type 0 where
  pub path : Bytes
  pub username : Bytes
  pub password : Bytes
  pub user : ServerUser

-- imap.MailboxInfo, as the code fills it.
pub record MailboxInfo : Type 0 where
  pub delimiter : ℕ
  pub name : Bytes

-- A request for a mailbox, with the numbers it names (`contains`) and what the library makes of
-- flags (`update`).
pub data MailboxRequest : Type 0 where
  box_name info check create_message copy_messages expunge : MailboxRequest
  set_subscribed : Bool → MailboxRequest
  status_of : List StatusItem → MailboxRequest
  list_messages : (ℕ → Bool) → MailboxRequest
  search_messages : MailboxRequest
  update_messages_flags : (ℕ → Bool) → (List Bytes → List Bytes) → MailboxRequest

pub data Request : Type 0 where
  user_name list_mailboxes logout : Request
  create_mailbox delete_mailbox : Bytes → Request
  rename_mailbox : Bytes → Bytes → Request
  in_mailbox : Bytes → MailboxRequest → Request

pub data Reply {ℓ} (A : Type ℓ) : Type ℓ where
  no_error : Reply A
  error_of : ServerError → Reply A
  name_of : Bytes → Reply A
  boxes : List Bytes → Reply A
  info_of : MailboxInfo → Reply A
  status_is : Status → Reply A
  fetched : List A → Reply A
  found : List ℕ → Reply A

-- The mailbox that a name finds is changed.
unfoldable pub update_mailbox :
    Bytes → (ServerMailbox → ServerMailbox) → List ServerMailbox → List ServerMailbox
update_mailbox n f [] = []
update_mailbox n f (mb ∷ mbs) = if mb.folder == n then f mb ∷ mbs else mb ∷ update_mailbox n f mbs

module _ (address : Bytes → ℕ) (files : ℕ → ReadAnswer) where
  -- `Fetch` and `Match` of a message: its text is read first, unless it is in memory.
  unfoldable pub with_text {ℓ} :
      {A : Type ℓ}
      → (ServerMessage → BackendMessage → ℕ → Option A)
      → BackendMessage
      → ℕ
      → Memory
      → Option (Memory × Option A)
  with_text act m n mem = do
    (mem', failed) ← fill (address m.path) (files (address m.path)) mem
    some (mem', if failed then none else act (mem'.heap (address m.path)) m n)

  -- The loop of `ListMessages` from the position `count` on: an error is logged and skipped.
  unfoldable pub fetch_from {ℓ} :
      {A : Type ℓ}
      → (ServerMessage → BackendMessage → ℕ → Option A)
      → (ℕ → Bool)
      → ℕ
      → List BackendMessage
      → Memory
      → Option (Memory × List A)
  fetch_from fetch contains count [] mem = some (mem, [])
  fetch_from fetch contains count (m ∷ ms) mem = do
    (mem', answer) ←
        if contains (count + 1) then with_text fetch m (count + 1) mem else some (mem, none)
    (mem'', items) ← fetch_from fetch contains (count + 1) ms mem'
    some (mem'', elim answer [ none ↦ items | some a ↦ a ∷ items ])

  -- The loop of `SearchMessages`.
  unfoldable pub match_from :
      (ServerMessage → BackendMessage → ℕ → Option Bool)
      → ℕ
      → List BackendMessage
      → Memory
      → Option (Memory × List ℕ)
  match_from match_message count [] mem = some (mem, [])
  match_from match_message count (m ∷ ms) mem = do
    (mem', answer) ← with_text match_message m (count + 1) mem
    (mem'', ns) ← match_from match_message (count + 1) ms mem'
    some (mem'', elim answer [ none ↦ ns | some ok ↦ if ok then (count + 1) ∷ ns else ns ])

  module _ {ℓ} {A : Type ℓ} (fetch : ServerMessage → BackendMessage → ℕ → Option A)
      (match_message : ServerMessage → BackendMessage → ℕ → Option Bool) where
    -- `none` is the panic of `intToUint32`.
    unfoldable pub handle_mailbox :
        MailboxRequest → ServerMailbox → Memory → Option (ServerMailbox × Memory × Reply A)
    handle_mailbox box_name mb mem = some (mb, mem, name_of mb.folder)
    handle_mailbox info mb mem =
        some (mb, mem, info_of (record { delimiter = 47; name = mb.folder }))
    handle_mailbox check mb mem = some (mb, mem, no_error)
    handle_mailbox (set_subscribed b) mb mem = some (mb, mem, no_error)
    handle_mailbox create_message mb mem = some (mb, mem, error_of read_only)
    handle_mailbox copy_messages mb mem = some (mb, mem, error_of read_only)
    handle_mailbox expunge mb mem = some (mb, mem, error_of read_only)
    handle_mailbox (status_of items) mb mem = do s ← status items mb; some (mb, mem, status_is s)
    handle_mailbox (list_messages contains) mb mem = do
      (mem', items) ← fetch_from fetch contains 0 mb.messages mem
      some (mb, mem', fetched items)
    handle_mailbox search_messages mb mem = do
      (mem', ns) ← match_from match_message 0 mb.messages mem
      some (mb, mem', found ns)
    handle_mailbox (update_messages_flags contains update) mb mem =
        let ms = update_flags_from contains update 0 mb.messages in
        some (record mb { messages = ms }, mem, no_error)

    -- A request for the mailbox that was looked up.
    unfoldable pub use_mailbox :
        Bytes
        → MailboxRequest
        → ServerUser
        → Memory
        → ServerMailbox ⊎ ServerError
        → Option (ServerUser × Memory × Reply A)
    use_mailbox n request user mem (inr e) = some (user, mem, error_of e)
    use_mailbox n request user mem (inl mb) = do
      (mb', mem', reply) ← handle_mailbox request mb mem
      some (record user { mailboxes = update_mailbox n (λ _. mb') user.mailboxes }, mem', reply)

    unfoldable pub handle : Request → ServerUser → Memory → Option (ServerUser × Memory × Reply A)
    handle user_name user mem = some (user, mem, name_of user.name)
    handle list_mailboxes user mem = some (user, mem, boxes (map (λ mb. mb.folder) user.mailboxes))
    handle logout user mem = some (user, mem, no_error)
    handle (create_mailbox n) user mem = some (user, mem, error_of read_only)
    handle (delete_mailbox n) user mem = some (user, mem, error_of read_only)
    handle (rename_mailbox n n') user mem = some (user, mem, error_of read_only)
    handle (in_mailbox n request) user mem =
        use_mailbox n request user mem (get_mailbox n user.mailboxes)

    -- A client's requests, one after the other, with the replies.
    unfoldable pub serve :
        List Request → ServerUser → Memory → Option (ServerUser × Memory × List (Reply A))
    serve [] user mem = some (user, mem, [])
    serve (request ∷ requests) user mem = do
      (user', mem', reply) ← handle request user mem
      (user'', mem'', replies) ← serve requests user' mem'
      some (user'', mem'', reply ∷ replies)

-- `newBackend` with `addUser`: when the directory of maildirs cannot be read there are no mailboxes.
-- The number is that of the errors.
unfoldable pub new_backend :
    (List PathAndInfo → List PathAndInfo)
    → Bytes
    → Bytes
    → Bytes
    → Option (List MaildirEntry)
    → Option (ServerBackend × ℕ)
new_backend sort_files path name password dirs =
    let backend_of : List ServerMailbox → ServerBackend = λ mbs. record {
      path = path;
      username = name;
      password = password;
      user = record { name = name; mailboxes = mbs };
    } in
    elim (add_mailboxes sort_files dirs) [
      | none ↦ none
      | some (inl (mbs, errs)) ↦ some (backend_of mbs, errs)
      | some (inr _) ↦ some (backend_of [], 1)
    ]

-- `Login`
unfoldable pub log_in : ServerBackend → Bytes → Bytes → ServerUser ⊎ ServerError
log_in backend name password = login name password backend.username backend.password backend.user
