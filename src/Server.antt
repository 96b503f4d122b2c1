-- ===== src/Server.antt =====
-- core/srvbackend.go, core/srvbackend_user.go and core/srvbackend_mailbox.go: the local, read-only
-- server over the maildirs of one user.
--
-- Not modelled: the flags, dates and headers that the library handles by itself. Parameters: what
-- the directories hold, how `sort.Slice` orders the files (`sort_files`), which numbers a request
-- names (`contains`), and what the library makes of a message (`fetch`, `match`; `none` is an
-- error).
pub mod Numbering
pub mod Mailboxes
pub mod Requests
pub mod Serving
use go_imapgrab.Base.{
  ◌%◌, ◌^◌, ℕ, ◌+◌, Bool, true, false, not, ◌&&◌, ◌||◌, Option, none, some, List, [], ◌∷◌, ◌++◌,
  Bytes, codes, ℤ, pos, length, eqb, elem, nat_eq, list_eq, ◌==◌, map, if◌then◌else◌, ◌⊎◌, inl, inr,
}
use go_imapgrab.Partition.{int_to_uint32}

-- A file of a directory; without a modification time it has gone since the directory was read.
pub record DirEntry : Type 0 where
  pub path : Bytes
  pub mod_time : Option ℤ

pub record PathAndInfo : Type 0 where
  pub path : Bytes
  pub mod_time : ℤ

pub record BackendMessage : Type 0 where
  pub path : Bytes
  pub date : ℤ
  pub uid : ℕ
  pub flags : List Bytes

pub record ServerMailbox : Type 0 where
  pub folder : Bytes
  pub messages : List BackendMessage

pub data ServerError : Type 0 where
  read_only bad_login unknown_mailbox cannot_read_dir : ServerError

-- The files that are still there.
unfoldable pub files_of : List DirEntry → List PathAndInfo
files_of [] = []
files_of (e ∷ es) = elim e.mod_time [
  | none ↦ files_of es
  | some t ↦ record { path = e.path; mod_time = t } ∷ files_of es
]

-- uidAndIdx: the position, from 1. `none` is the panic of `intToUint32`.
unfoldable pub number_messages : ℕ → List PathAndInfo → Option (List BackendMessage)
number_messages count [] = some []
number_messages count (file ∷ files) =
    let rest = number_messages (count + 1) files in
    elim (int_to_uint32 (pos (count + 1))) [
      | none ↦ none
      | some n ↦ elim rest [
        | none ↦ none
        | some ms ↦ some (
            record { path = file.path; date = file.mod_time; uid = n; flags = codes "\\Seen" ∷ [] }
            ∷ ms)
      ]
    ]

-- The directories `new` and `cur`: the first that cannot be read ends it, and the mailbox stays as
-- it is.
unfoldable pub add_messages :
    (List PathAndInfo → List PathAndInfo)
    → Option (List DirEntry)
    → Option (List DirEntry)
    → ServerMailbox
    → Option (ServerMailbox ⊎ ServerError)
add_messages sort_files none cur mb = some (inr cannot_read_dir)
add_messages sort_files (some new) none mb = some (inr cannot_read_dir)
add_messages sort_files (some new) (some cur) mb =
    elim (number_messages 0 (sort_files (files_of new ++ files_of cur))) [
      | none ↦ none
      | some ms ↦ some (inl (record mb { messages = ms }))
    ]

-- `ListMessages`: what is sent, from the position `count` on. Errors are skipped.
unfoldable pub list_from {ℓ} :
    {A : Type ℓ} → (ℕ → Bool) → (BackendMessage → ℕ → Option A) → ℕ → List BackendMessage → List A
list_from contains fetch count [] = []
list_from contains fetch count (m ∷ ms) =
    let rest = list_from contains fetch (count + 1) ms in
    if contains (count + 1)
    then elim (fetch m (count + 1)) [ none ↦ rest | some a ↦ a ∷ rest ]
    else rest

abbrev pub list_messages {ℓ} :
    {A : Type ℓ} → (ℕ → Bool) → (BackendMessage → ℕ → Option A) → ServerMailbox → List A
list_messages contains fetch mb = list_from contains fetch 0 mb.messages

-- `SearchMessages`.
unfoldable pub search_from : (BackendMessage → ℕ → Option Bool) → ℕ → List BackendMessage → List ℕ
search_from match_message count [] = []
search_from match_message count (m ∷ ms) =
    let rest = search_from match_message (count + 1) ms in
    elim (match_message m (count + 1)) [
      | none ↦ rest
      | some ok ↦ if ok then (count + 1) ∷ rest else rest
    ]

abbrev pub search_messages : (BackendMessage → ℕ → Option Bool) → ServerMailbox → List ℕ
search_messages match_message mb = search_from match_message 0 mb.messages

-- The items of a status request, and what is used of imap.MailboxStatus.
pub data StatusItem : Type 0 where
  item_messages item_uid_next item_uid_validity item_recent item_unseen item_append_limit :
      StatusItem
  other_item : StatusItem

pub record Status : Type 0 where
  pub read_only_box : Bool
  pub flags : List Bytes
  pub messages : ℕ
  pub uid_next : ℕ
  pub uid_validity : ℕ

unfoldable pub merge_flags : List Bytes → List Bytes → List Bytes
merge_flags [] known = known
merge_flags (f ∷ fs) known = if elem f known then merge_flags fs known else f ∷ merge_flags fs known

-- The flags that some message has, each once. The code takes them in the order of a map.
unfoldable pub all_flags : List BackendMessage → List Bytes
all_flags [] = []
all_flags (m ∷ ms) = merge_flags m.flags (all_flags ms)

-- The loop over the items. `none` is the panic of `intToUint32`; a sum is one modulo 2^32.
unfoldable pub status_items : List StatusItem → ℕ → Status → Option Status
status_items [] n s = some s
status_items (item ∷ items) n s = elim item [
  | item_messages ↦ elim (int_to_uint32 (pos n)) [
    | none ↦ none
    | some k ↦ status_items items n (record s { messages = k })
  ]
  | item_uid_next ↦ elim (int_to_uint32 (pos n)) [
    | none ↦ none
    | some k ↦ status_items items n (record s { uid_next = (k + 1) % 2 ^ 32 })
  ]
  | item_uid_validity ↦ status_items items n (record s { uid_validity = 1 })
  | item_recent ↦ status_items items n s
  | item_unseen ↦ status_items items n s
  | item_append_limit ↦ status_items items n s
  | other_item ↦ status_items items n s
]

unfoldable pub status : List StatusItem → ServerMailbox → Option Status
status items mb = status_items items (length mb.messages) (record {
  read_only_box = true;
  flags = all_flags mb.messages;
  messages = 0;
  uid_next = 0;
  uid_validity = 0;
})

-- `UpdateMessagesFlags`; what becomes of the flags is the library's.
unfoldable pub update_flags_from :
    (ℕ → Bool) → (List Bytes → List Bytes) → ℕ → List BackendMessage → List BackendMessage
update_flags_from contains update count [] = []
update_flags_from contains update count (m ∷ ms) =
    let rest = update_flags_from contains update (count + 1) ms in
    if contains (count + 1) then record m { flags = update m.flags } ∷ rest else m ∷ rest

-- `GetMailbox`: the first of that name.
unfoldable pub get_mailbox : Bytes → List ServerMailbox → ServerMailbox ⊎ ServerError
get_mailbox name [] = inr unknown_mailbox
get_mailbox name (mb ∷ mbs) = if mb.folder == name then inl mb else get_mailbox name mbs

-- An entry of the directory of maildirs, and what its `new` and `cur` hold.
pub record MaildirEntry : Type 0 where
  pub name : Bytes
  pub is_dir : Bool
  pub is_maildir : Bool
  pub new : Option (List DirEntry)
  pub cur : Option (List DirEntry)

-- `addMailboxes`: the mailboxes, and how many could not be read; these stay without messages.
unfoldable pub mailboxes_of :
    (List PathAndInfo → List PathAndInfo) → List MaildirEntry → Option (List ServerMailbox × ℕ)
mailboxes_of sort_files [] = some ([], 0)
mailboxes_of sort_files (e ∷ es) =
    let box : ServerMailbox = record { folder = e.name; messages = [] } in
    let rest = mailboxes_of sort_files es in
    if not (e.is_dir && e.is_maildir)
    then rest
    else elim (add_messages sort_files e.new e.cur box) [
      | none ↦ none
      | some r ↦ elim rest [
        | none ↦ none
        | some (boxes, errs) ↦ elim r [
          | inl filled ↦ some (filled ∷ boxes, errs)
          | inr _ ↦ some (box ∷ boxes, errs + 1)
        ]
      ]
    ]

unfoldable pub add_mailboxes :
    (List PathAndInfo → List PathAndInfo)
    → Option (List MaildirEntry)
    → Option ((List ServerMailbox × ℕ) ⊎ ServerError)
add_mailboxes sort_files none = some (inr cannot_read_dir)
add_mailboxes sort_files (some dirs) = elim (mailboxes_of sort_files dirs) [
  | none ↦ none
  | some r ↦ some (inl r)
]

-- `Login`: the user name and the password, then those of the server.
unfoldable pub login {ℓ} : {A : Type ℓ} → Bytes → Bytes → Bytes → Bytes → A → A ⊎ ServerError
login username password own_name own_password user =
    if not (username == own_name)
    then inr bad_login
    else if not (password == own_password)
    then inr bad_login
    else inl user
