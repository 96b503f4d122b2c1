-- ===== src/Server/Mailboxes.antt =====
-- Which mailboxes the local server has (core/srvbackend_user.go), and what a mailbox says of itself.
use go_imapgrab.Base.{
  ℕ, ◌+◌, ◌%◌, ◌^◌, ◌<◌, ◌≡◌, ◌↔◌, refl, true, ◌&&◌, Option, none, some, Option-cases, Bool-cases,
  List, [], ◌∷◌, Bytes, pos, length, elem, keep, map, list_eq, nat_eq, inl, inr, arith, ◌==◌,
}
use go_imapgrab.Partition.{int_to_uint32}
use go_imapgrab.Server.{
  PathAndInfo, DirEntry, MaildirEntry, ServerMailbox, item_messages, item_uid_next,
  item_uid_validity, add_messages, mailboxes_of, get_mailbox, status, status_items, all_flags,
}

-- A mailbox is found exactly by the names of those that there are.
pub get_mailbox_iff :
    (name : Bytes) (mbs : List ServerMailbox)
    → ((mb : ServerMailbox) × (get_mailbox name mbs ≡ inl mb))
      ↔ (elem name (map (λ mb. mb.folder) mbs) ≡ true)
unfolding get_mailbox
get_mailbox_iff name [] = (λ h. absurd (ground arith), λ h. absurd (ground arith))
get_mailbox_iff name (mb ∷ mbs) = elim (Bool-cases (mb.folder == name)) [
  | inl e ↦ rw e ((λ h. refl), (λ h. (mb, refl)))
  | inr e ↦ rw e (get_mailbox_iff name mbs)
]

same_folder :
    (sort_files : List PathAndInfo → List PathAndInfo) (new cur : Option (List DirEntry))
    (mb mb' : ServerMailbox)
    → add_messages sort_files new cur mb ≡ some (inl mb')
    → mb'.folder ≡ mb.folder
unfolding add_messages
same_folder sort_files none cur mb mb' h = ground arith
same_folder sort_files (some new) none mb mb' h = ground arith
same_folder sort_files (some new) (some cur) mb mb' h = ground arith

abbrev empty_box : MaildirEntry → ServerMailbox
empty_box e = record { folder = e.name; messages = [] }

-- The mailboxes are the directories that are maildirs, in order, also those that cannot be read.
pub mailboxes_of_names :
    (sort_files : List PathAndInfo → List PathAndInfo) (es : List MaildirEntry)
    (mbs : List ServerMailbox) (errs : ℕ)
    → mailboxes_of sort_files es ≡ some (mbs, errs)
    → map (λ mb. mb.folder) mbs ≡ map (λ e. e.name) (keep (λ e. e.is_dir && e.is_maildir) es)
unfolding mailboxes_of
mailboxes_of_names sort_files [] mbs errs h = ground arith
mailboxes_of_names sort_files (e ∷ es) mbs errs h =
    elim (Option-cases (mailboxes_of sort_files es)) [
      | inl r ↦ elim (Bool-cases (e.is_dir && e.is_maildir)) [
        | inl t ↦ elim (Option-cases (add_messages sort_files e.new e.cur (empty_box e))) [
          | inl a ↦ absurd (ground arith)
          | inr (x, a) ↦ absurd (ground arith)
        ]
        | inr t ↦ absurd (ground arith)
      ]
      | inr ((boxes, n), r) ↦
          let rest = mailboxes_of_names sort_files es boxes n r in
          elim (Bool-cases (e.is_dir && e.is_maildir)) [
            | inr t ↦ rw t (ground arith)
            | inl t ↦ elim (Option-cases (add_messages sort_files e.new e.cur (empty_box e))) [
              | inl a ↦ absurd (ground arith)
              | inr (inl filled, a) ↦
                  let first = same_folder sort_files e.new e.cur (empty_box e) filled a in
                  let same : mbs ≡ filled ∷ boxes = ground arith in rw (t, same, first, rest) refl
              | inr (inr x, a) ↦
                  let same : mbs ≡ empty_box e ∷ boxes = ground arith in rw (t, same, rest) refl
            ]
          ]
    ]

number_fits : (n : ℕ) → n < 2 ^ 31 → int_to_uint32 (pos n) ≡ some n
unfolding int_to_uint32
number_fits n h = ground arith

-- A mailbox of less than 2^31 messages that is asked for its messages, its next UID and its version
-- is read-only and answers with their number, one more than it, and 1.
pub status_numbers :
    (mb : ServerMailbox)
    → length mb.messages < 2 ^ 31
    → status (item_messages ∷ item_uid_next ∷ item_uid_validity ∷ []) mb
      ≡ some (record {
        read_only_box = true;
        flags = all_flags mb.messages;
        messages = length mb.messages;
        uid_next = length mb.messages + 1;
        uid_validity = 1;
      })
unfolding status status_items
status_numbers mb h =
    let small : (length mb.messages + 1) % 2 ^ 32 ≡ length mb.messages + 1 = omega arith in
    let fits = number_fits (length mb.messages) h in
    rw (status, status_items, fits, fits, small) refl
