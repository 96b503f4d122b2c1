-- ===== src/Server/Requests/Transparent/Plain.antt =====
-- A server without a memory, which reads the file of a message whenever it is asked for it, and the
-- server of core/srvbackend_user.go and core/srvbackend_mailbox.go beside it.
use mathlib.Core.Path.{subst}
use go_imapgrab.Base.{
  ℕ, ◌+◌, ◌≡◌, refl, sym, Bool, Bool-cases, Option, Option-cases, none, some, List, [], ◌∷◌, Bytes,
  list_eq, nat_eq, map, if◌then◌else◌, ◌⊎◌, inl, inr, ◌>>=◌,
}
use go_imapgrab.Cache.{ServerMessage, Memory, ReadAnswer}
use go_imapgrab.Cache.Locks.Progress.Moves.{Fit}
use go_imapgrab.Server.{
  BackendMessage, ServerMailbox, ServerError, read_only, status, get_mailbox, update_flags_from,
  list_from, search_from,
}
use go_imapgrab.Server.Requests.{
  ServerUser, MailboxRequest, box_name, info, check, set_subscribed, create_message, copy_messages,
  expunge, status_of, list_messages, search_messages, update_messages_flags, Request, user_name,
  list_mailboxes, logout, create_mailbox, delete_mailbox, rename_mailbox, in_mailbox, Reply,
  no_error, error_of, name_of, boxes, info_of, status_is, fetched, found, update_mailbox, with_text,
  fetch_from, match_from, handle_mailbox, use_mailbox, handle, serve,
}
use go_imapgrab.Server.Requests.Transparent.{text, IsFaithful, fill-Filled}

module _ (address : Bytes → ℕ) (files : ℕ → ReadAnswer) (sizes : ℕ → ℕ) where
  -- What the library makes of a message with the text of its file.
  abbrev pub plain {ℓ} :
      {A : Type ℓ} → (ServerMessage → BackendMessage → ℕ → Option A) → BackendMessage → ℕ → Option A
  plain act m n =
      if (files (address m.path)).failed then none else act (text files sizes (address m.path)) m n

  module _ {ℓ} {A : Type ℓ} (fetch : ServerMessage → BackendMessage → ℕ → Option A)
      (match_message : ServerMessage → BackendMessage → ℕ → Option Bool) where
    unfoldable pub plain_mailbox : MailboxRequest → ServerMailbox → Option (ServerMailbox × Reply A)
    plain_mailbox box_name mb = some (mb, name_of mb.folder)
    plain_mailbox info mb = some (mb, info_of (record { delimiter = 47; name = mb.folder }))
    plain_mailbox check mb = some (mb, no_error)
    plain_mailbox (set_subscribed b) mb = some (mb, no_error)
    plain_mailbox create_message mb = some (mb, error_of read_only)
    plain_mailbox copy_messages mb = some (mb, error_of read_only)
    plain_mailbox expunge mb = some (mb, error_of read_only)
    plain_mailbox (status_of items) mb = do s ← status items mb; some (mb, status_is s)
    plain_mailbox (list_messages contains) mb =
        some (mb, fetched (list_from contains (plain fetch) 0 mb.messages))
    plain_mailbox search_messages mb =
        some (mb, found (search_from (plain match_message) 0 mb.messages))
    plain_mailbox (update_messages_flags contains update) mb =
        some (record mb { messages = update_flags_from contains update 0 mb.messages }, no_error)

    unfoldable pub plain_use :
        Bytes
        → MailboxRequest
        → ServerUser
        → ServerMailbox ⊎ ServerError
        → Option (ServerUser × Reply A)
    plain_use n request user (inr e) = some (user, error_of e)
    plain_use n request user (inl mb) = do
      (mb', reply) ← plain_mailbox request mb
      some (record user { mailboxes = update_mailbox n (λ _. mb') user.mailboxes }, reply)

    unfoldable pub plain_handle : Request → ServerUser → Option (ServerUser × Reply A)
    plain_handle user_name user = some (user, name_of user.name)
    plain_handle list_mailboxes user = some (user, boxes (map (λ mb. mb.folder) user.mailboxes))
    plain_handle logout user = some (user, no_error)
    plain_handle (create_mailbox n) user = some (user, error_of read_only)
    plain_handle (delete_mailbox n) user = some (user, error_of read_only)
    plain_handle (rename_mailbox n n') user = some (user, error_of read_only)
    plain_handle (in_mailbox n request) user =
        plain_use n request user (get_mailbox n user.mailboxes)

    unfoldable pub plain_serve : List Request → ServerUser → Option (ServerUser × List (Reply A))
    plain_serve [] user = some (user, [])
    plain_serve (request ∷ requests) user = do
      (user', reply) ← plain_handle request user
      (user'', replies) ← plain_serve requests user'
      some (user'', reply ∷ replies)

  -- A result with a memory is the one without, and the memory has the texts of the files.
  abbrev pub Agrees {ℓ κ} :
      {S : Type ℓ} {R : Type κ} → Option (S × R) → Option (S × Memory × R) → Type (ℓ ⊔ κ)
  Agrees none with_memory = with_memory ≡ none
  Agrees (some (s, r)) with_memory =
      (mem : Memory) × (with_memory ≡ some (s, mem, r)) × IsFaithful files sizes mem

  Agrees-bind {ℓ κ} :
      {S S' : Type ℓ} {R R' : Type κ} (p : Option (S × R)) (o : Option (S × Memory × R))
      (f : S × R → Option (S' × R')) (g : S × Memory × R → Option (S' × Memory × R'))
      → Agrees p o
      → ((s : S) (r : R) (mem : Memory)
          → IsFaithful files sizes mem
          → Agrees (f (s, r)) (g (s, mem, r)))
      → Agrees (p >>= f) (o >>= g)
  Agrees-bind none o f g e h = rw e refl
  Agrees-bind (some (s, r)) o f g (mem, e, faithful) h =
      subst (λ x. Agrees (f (s, r)) (x >>= g)) (sym e) (h s r mem faithful)

  -- The same for what does not fail.
  abbrev Reads {ℓ} : {A : Type ℓ} → A → Option (Memory × A) → Type ℓ
  Reads a o = (mem : Memory) × (o ≡ some (mem, a)) × IsFaithful files sizes mem

  module _ (fit : Fit files sizes) where
    with_text-Reads {ℓ} :
        {A : Type ℓ} (act : ServerMessage → BackendMessage → ℕ → Option A) (m : BackendMessage)
        (n : ℕ) (mem : Memory)
        → IsFaithful files sizes mem
        → Reads (plain act m n) (with_text address files act m n mem)
    unfolding with_text
    with_text-Reads act m n mem faithful =
        let k = address m.path in
        let filled = fill-Filled files sizes fit k mem faithful in
        elim (Bool-cases (files k).failed) [
          | inl f ↦ (filled.after, rw (filled.result, f) refl, filled.faithful')
          | inr f ↦ (filled.after, rw (filled.result, f, filled.has_text f) refl, filled.faithful')
        ]

    fetch_from-Reads {ℓ} :
        {A : Type ℓ} (fetch : ServerMessage → BackendMessage → ℕ → Option A) (contains : ℕ → Bool)
        (count : ℕ) (ms : List BackendMessage) (mem : Memory)
        → IsFaithful files sizes mem
        → Reads
            (list_from contains (plain fetch) count ms)
            (fetch_from address files fetch contains count ms mem)
    unfolding fetch_from list_from
    fetch_from-Reads fetch contains count [] mem faithful = (mem, refl, faithful)
    fetch_from-Reads fetch contains count (m ∷ ms) mem faithful =
        elim (Bool-cases (contains (count + 1))) [
          | inl e ↦
              let (mem', i, faithful') = with_text-Reads fetch m (count + 1) mem faithful in
              let (mem'', j, faithful'') =
                fetch_from-Reads fetch contains (count + 1) ms mem' faithful' in
              (mem'', rw (e, i, j) refl, faithful'')
          | inr e ↦
              let (mem', j, faithful') =
                fetch_from-Reads fetch contains (count + 1) ms mem faithful in
              (mem', rw (e, j) refl, faithful')
        ]

    match_from-Reads :
        (match_message : ServerMessage → BackendMessage → ℕ → Option Bool) (count : ℕ)
        (ms : List BackendMessage) (mem : Memory)
        → IsFaithful files sizes mem
        → Reads
            (search_from (plain match_message) count ms)
            (match_from address files match_message count ms mem)
    unfolding match_from search_from
    match_from-Reads match_message count [] mem faithful = (mem, refl, faithful)
    match_from-Reads match_message count (m ∷ ms) mem faithful =
        let (mem', i, faithful') = with_text-Reads match_message m (count + 1) mem faithful in
        let (mem'', j, faithful'') = match_from-Reads match_message (count + 1) ms mem' faithful' in
        (mem'', rw (i, j) refl, faithful'')

    module _ {ℓ} {A : Type ℓ} (fetch : ServerMessage → BackendMessage → ℕ → Option A)
        (match_message : ServerMessage → BackendMessage → ℕ → Option Bool) where
      handle_mailbox-Agrees :
          (request : MailboxRequest) (mb : ServerMailbox) (mem : Memory)
          → IsFaithful files sizes mem
          → Agrees
              (plain_mailbox fetch match_message request mb)
              (handle_mailbox address files fetch match_message request mb mem)
      unfolding plain_mailbox handle_mailbox
      handle_mailbox-Agrees box_name mb mem faithful = (mem, refl, faithful)
      handle_mailbox-Agrees info mb mem faithful = (mem, refl, faithful)
      handle_mailbox-Agrees check mb mem faithful = (mem, refl, faithful)
      handle_mailbox-Agrees create_message mb mem faithful = (mem, refl, faithful)
      handle_mailbox-Agrees copy_messages mb mem faithful = (mem, refl, faithful)
      handle_mailbox-Agrees expunge mb mem faithful = (mem, refl, faithful)
      handle_mailbox-Agrees (set_subscribed b) mb mem faithful = (mem, refl, faithful)
      handle_mailbox-Agrees (status_of items) mb mem faithful =
          elim (Option-cases (status items mb)) [
            | inl e ↦ rw e refl
            | inr (s, e) ↦ rw e (mem, refl, faithful)
          ]
      handle_mailbox-Agrees (list_messages contains) mb mem faithful =
          let (mem', e, faithful') = fetch_from-Reads fetch contains 0 mb.messages mem faithful in
          (mem', rw e refl, faithful')
      handle_mailbox-Agrees search_messages mb mem faithful =
          let (mem', e, faithful') = match_from-Reads match_message 0 mb.messages mem faithful in
          (mem', rw e refl, faithful')
      handle_mailbox-Agrees (update_messages_flags contains update) mb mem faithful =
          (mem, refl, faithful)

      use-Agrees :
          (n : Bytes) (request : MailboxRequest) (user : ServerUser) (mem : Memory)
          → IsFaithful files sizes mem
          → (box : ServerMailbox ⊎ ServerError)
          → Agrees
              (plain_use fetch match_message n request user box)
              (use_mailbox address files fetch match_message n request user mem box)
      unfolding plain_use use_mailbox
      use-Agrees n request user mem faithful (inr e) = (mem, refl, faithful)
      use-Agrees n request user mem faithful (inl mb) =
          Agrees-bind _ _ _ _ (handle_mailbox-Agrees request mb mem faithful)
            (λ mb' reply mem' faithful'. (mem', refl, faithful'))

      handle-Agrees :
          (request : Request) (user : ServerUser) (mem : Memory)
          → IsFaithful files sizes mem
          → Agrees
              (plain_handle fetch match_message request user)
              (handle address files fetch match_message request user mem)
      unfolding plain_handle handle
      handle-Agrees user_name user mem faithful = (mem, refl, faithful)
      handle-Agrees list_mailboxes user mem faithful = (mem, refl, faithful)
      handle-Agrees logout user mem faithful = (mem, refl, faithful)
      handle-Agrees (create_mailbox n) user mem faithful = (mem, refl, faithful)
      handle-Agrees (delete_mailbox n) user mem faithful = (mem, refl, faithful)
      handle-Agrees (rename_mailbox n n') user mem faithful = (mem, refl, faithful)
      handle-Agrees (in_mailbox n request) user mem faithful =
          use-Agrees n request user mem faithful (get_mailbox n user.mailboxes)

      -- The texts in memory do not show: whatever requests a client makes, from a memory whose texts
      -- are those of the files, and whatever limit the memory has, the server gives the replies, and
      -- comes to the mailboxes, of a server that reads the files at each request (and panics when
      -- that one does), and the texts in memory are those of the files in the end. The files stay
      -- as they are meanwhile, and each that can be read has less than 2^31 bytes.
      pub serve-Agrees :
          (requests : List Request) (user : ServerUser) (mem : Memory)
          → IsFaithful files sizes mem
          → Agrees
              (plain_serve fetch match_message requests user)
              (serve address files fetch match_message requests user mem)
      unfolding plain_serve serve
      serve-Agrees [] user mem faithful = (mem, refl, faithful)
      serve-Agrees (request ∷ requests) user mem faithful =
          Agrees-bind _ _ _ _ (handle-Agrees request user mem faithful)
            (λ user' reply mem' faithful'.
              Agrees-bind _ _ _ _ (serve-Agrees requests user' mem' faithful')
                (λ user'' replies mem'' faithful''. (mem'', refl, faithful'')))
