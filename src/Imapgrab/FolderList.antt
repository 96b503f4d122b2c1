-- ===== src/Imapgrab/FolderList.antt =====
-- `getFolderList` of core/imap_client.go: the goroutine that calls `List`, and the loop over the
-- channel, which does not wait for the goroutine behind it.
--
-- Parameters: the folders that `List` of the library sends, and what it answers (`answer`) after it
-- has closed the channel.
pub mod Race
use go_imapgrab.Base.{
  ℕ, suc, ◌<◌, ◌≡◌, Bool, true, false, Option, none, some, List, [], ◌∷◌, ◌++◌, Bytes, length,
}

abbrev pub folder_list_buffer : ℕ
folder_list_buffer = 10

pub record State : Type 0 where
  pub to_send : List Bytes
  pub mailboxes : List Bytes
  pub closed : Bool
  -- Whether `err` was set to what `List` answers.
  pub list_ended : Bool
  pub err : Option Bytes
  pub folders : List Bytes
  -- What the function has returned.
  pub reply : Option (List Bytes × Option Bytes)

abbrev pub first_state : List Bytes → State
first_state sent = record {
  to_send = sent;
  mailboxes = [];
  closed = false;
  list_ended = false;
  err = none;
  folders = [];
  reply = none;
}

pub data Step (answer : Option Bytes) (s : State) : State → Type 0 where
  sends :
      (m : Bytes) (ms : List Bytes)
      → s.to_send ≡ m ∷ ms
      → length s.mailboxes < folder_list_buffer
      → Step answer s (record s { to_send = ms; mailboxes = s.mailboxes ++ m ∷ [] })
  closes : s.to_send ≡ [] → s.closed ≡ false → Step answer s (record s { closed = true })
  list_ends :
      s.closed ≡ true
      → s.list_ended ≡ false
      → Step answer s (record s { list_ended = true; err = answer })
  receives :
      (m : Bytes) (ms : List Bytes)
      → s.reply ≡ none
      → s.mailboxes ≡ m ∷ ms
      → Step answer s (record s { mailboxes = ms; folders = s.folders ++ m ∷ [] })
  returns :
      s.reply ≡ none
      → s.mailboxes ≡ []
      → s.closed ≡ true
      → Step answer s (record s { reply = some (s.folders, s.err) })

pub data Steps (answer : Option Bytes) : ℕ → State → State → Type 0 where
  here : (s : State) → Steps answer 0 s s
  next : (n : ℕ) (s t u : State) → Step answer s t → Steps answer n t u → Steps answer (suc n) s u
