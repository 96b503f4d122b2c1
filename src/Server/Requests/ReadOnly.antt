-- ===== src/Server/Requests/ReadOnly.antt =====
-- What the requests of a client leave as it is (core/srvbackend_user.go,
-- core/srvbackend_mailbox.go).
use mathlib.Core.Option.{some-injective}
use go_imapgrab.Base.{
  ℕ, ◌+◌, ◌≡◌, refl, sym, ap, ◌∙◌, Bool, Option, some, bind-some, Sum-cases, List, [], ◌∷◌, Bytes,
  ℤ, map, Bool-cases, inl, inr, ◌==◌, list_eq, nat_eq, arith,
}
use go_imapgrab.Cache.{ServerMessage, Memory, ReadAnswer}
use go_imapgrab.Server.{BackendMessage, ServerMailbox, get_mailbox, update_flags_from, status}
use go_imapgrab.Server.Requests.{
  ServerUser, MailboxRequest, box_name, info, check, set_subscribed, create_message, copy_messages,
  expunge, status_of, list_messages, search_messages, update_messages_flags, Request, user_name,
  list_mailboxes, logout, create_mailbox, delete_mailbox, rename_mailbox, in_mailbox, Reply,
  update_mailbox, fetch_from, match_from, handle_mailbox, use_mailbox, handle, serve,
}

-- A message without its flags, and a mailbox with such messages.
abbrev pub mail : BackendMessage → Bytes × ℤ × ℕ
mail m = (m.path, m.date, m.uid)

abbrev pub mail_of : ServerMailbox → Bytes × List (Bytes × ℤ × ℕ)
mail_of mb = (mb.folder, map mail mb.messages)

update_flags-mail :
    (contains : ℕ → Bool) (update : List Bytes → List Bytes) (count : ℕ) (ms : List BackendMessage)
    → map mail (update_flags_from contains update count ms) ≡ map mail ms
unfolding update_flags_from
update_flags-mail contains update count [] = refl
update_flags-mail contains update count (m ∷ ms) = elim (Bool-cases (contains (count + 1))) [
  | inl e ↦ rw e (ap (λ xs. mail m ∷ xs) (update_flags-mail contains update (count + 1) ms))
  | inr e ↦ rw e (ap (λ xs. mail m ∷ xs) (update_flags-mail contains update (count + 1) ms))
]

update_mailbox-mail_of :
    (n : Bytes) (mb mb' : ServerMailbox) (mbs : List ServerMailbox)
    → get_mailbox n mbs ≡ inl mb
    → mail_of mb' ≡ mail_of mb
    → map mail_of (update_mailbox n (λ _. mb') mbs) ≡ map mail_of mbs
unfolding get_mailbox update_mailbox
update_mailbox-mail_of n mb mb' [] h e = refl
update_mailbox-mail_of n mb mb' (b ∷ mbs) h e = elim (Bool-cases (b.folder == n)) [
  | inl t ↦
      let same : b ≡ mb = ground (arith, rw t at h) in
      rw t (ap (λ x. x ∷ map mail_of mbs) (e ∙ ap mail_of (sym same)))
  | inr f ↦ rw f (ap (λ xs. mail_of b ∷ xs) (update_mailbox-mail_of n mb mb' mbs (rw f at h) e))
]

-- What a user keeps: the name, and the mail of each mailbox.
abbrev pub Kept : ServerUser → ServerUser → Type 0
Kept user user' =
    (user'.name ≡ user.name) × (map mail_of user'.mailboxes ≡ map mail_of user.mailboxes)

module _ {ℓ} {A : Type ℓ} (address : Bytes → ℕ) (files : ℕ → ReadAnswer)
    (fetch : ServerMessage → BackendMessage → ℕ → Option A)
    (match_message : ServerMessage → BackendMessage → ℕ → Option Bool) where
  kept : {r r' : ServerMailbox × Memory × Reply A} → some r ≡ some r' → mail_of r'.0 ≡ mail_of r.0
  kept {r} {r'} h = ap (λ x. mail_of x.0) (sym (some-injective r r' h))

  handle_mailbox-mail_of :
      (request : MailboxRequest) (mb mb' : ServerMailbox) (mem mem' : Memory) (reply : Reply A)
      → handle_mailbox address files fetch match_message request mb mem ≡ some (mb', mem', reply)
      → mail_of mb' ≡ mail_of mb
  unfolding handle_mailbox
  handle_mailbox-mail_of box_name mb mb' mem mem' reply h = kept h
  handle_mailbox-mail_of info mb mb' mem mem' reply h = kept h
  handle_mailbox-mail_of check mb mb' mem mem' reply h = kept h
  handle_mailbox-mail_of create_message mb mb' mem mem' reply h = kept h
  handle_mailbox-mail_of copy_messages mb mb' mem mem' reply h = kept h
  handle_mailbox-mail_of expunge mb mb' mem mem' reply h = kept h
  handle_mailbox-mail_of (set_subscribed b) mb mb' mem mem' reply h = kept h
  handle_mailbox-mail_of (status_of items) mb mb' mem mem' reply h =
      let (s, e, last) = bind-some (status items mb) _ _ h in kept last
  handle_mailbox-mail_of (list_messages contains) mb mb' mem mem' reply h =
      let (r, e, last) =
        bind-some (fetch_from address files fetch contains 0 mb.messages mem) _ _ h in
      kept last
  handle_mailbox-mail_of search_messages mb mb' mem mem' reply h =
      let (r, e, last) =
        bind-some (match_from address files match_message 0 mb.messages mem) _ _ h in
      kept last
  handle_mailbox-mail_of (update_messages_flags contains update) mb mb' mem mem' reply h =
      kept h ∙ ap (λ ms. (mb.folder, ms)) (update_flags-mail contains update 0 mb.messages)

  unchanged : {r r' : ServerUser × Memory × Reply A} → some r ≡ some r' → Kept r.0 r'.0
  unchanged {r} {r'} h =
      let same = sym (some-injective r r' h) in
      (ap (λ x. x.0.name) same, ap (λ x. map mail_of x.0.mailboxes) same)

  handle-Kept :
      (request : Request) (user user' : ServerUser) (mem mem' : Memory) (reply : Reply A)
      → handle address files fetch match_message request user mem ≡ some (user', mem', reply)
      → Kept user user'
  unfolding handle use_mailbox
  handle-Kept user_name user user' mem mem' reply h = unchanged h
  handle-Kept list_mailboxes user user' mem mem' reply h = unchanged h
  handle-Kept logout user user' mem mem' reply h = unchanged h
  handle-Kept (create_mailbox n) user user' mem mem' reply h = unchanged h
  handle-Kept (delete_mailbox n) user user' mem mem' reply h = unchanged h
  handle-Kept (rename_mailbox n n') user user' mem mem' reply h = unchanged h
  handle-Kept (in_mailbox n request) user user' mem mem' reply h =
      elim (Sum-cases (get_mailbox n user.mailboxes)) [
        | inr (error, e) ↦ unchanged (rw (e, handle) at h)
        | inl (mb, e) ↦
            let ((mb', mem₁, reply₁), i, last) =
              bind-some (handle_mailbox address files fetch match_message request mb mem) _ _
                (rw (e, handle) at h) in
            let kept_mail = handle_mailbox-mail_of request mb mb' mem mem₁ reply₁ i in
            let (names, mails) = unchanged last in
            (names, mails ∙ update_mailbox-mail_of n mb mb' user.mailboxes e kept_mail)
      ]

  -- Whatever requests a client makes, one after the other, and whatever is in memory and on disk:
  -- when the server answers them all, the user's name is the one of before, and so are the
  -- mailboxes, in order, with the paths, the dates and the UIDs of their messages, in order.
  pub serve-Kept :
      (requests : List Request) (user user' : ServerUser) (mem mem' : Memory)
      (replies : List (Reply A))
      → serve address files fetch match_message requests user mem ≡ some (user', mem', replies)
      → Kept user user'
  unfolding serve
  serve-Kept [] user user' mem mem' replies h =
      let same = sym (some-injective _ _ h) in
      (ap (λ x. x.0.name) same, ap (λ x. map mail_of x.0.mailboxes) same)
  serve-Kept (request ∷ requests) user user' mem mem' replies h =
      let ((user₁, mem₁, reply), i, h₁) =
        bind-some (handle address files fetch match_message request user mem) _ _ h in
      let ((user₂, mem₂, rest), j, last) =
        bind-some (serve address files fetch match_message requests user₁ mem₁) _ _ h₁ in
      let (names, mails) = handle-Kept request user user₁ mem mem₁ reply i in
      let (names', mails') = serve-Kept requests user₁ user₂ mem₁ mem₂ rest j in
      let same = sym (some-injective _ _ last) in
      (
        ap (λ x. x.0.name) same ∙ names' ∙ names,
        ap (λ x. map mail_of x.0.mailboxes) same ∙ mails' ∙ mails,
      )
