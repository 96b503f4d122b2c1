-- ===== src/Imapgrab.antt =====
-- `Imapgrabber`, `TryConnect` and `GetAllFolders` of core/core.go, with `getFolderList` of
-- core/imap_client.go.
--
-- An error is its text. What the library answers to a logout or to the request for the folders is a
-- parameter.
pub mod FolderList
pub mod Threads
pub mod Sessions
use go_imapgrab.Base.{
  Bool, true, false, Option, none, some, List, [], Bytes, codes, ℕ, ◌∷◌, inl, inr, if◌then◌else◌,
}
use go_imapgrab.Connection.{ImapConfig, Client, ClientError, Network, authenticate_client}
use go_imapgrab.Threading.{Interrupter, new_interrupt_ops, interrupted, deregister}

-- After `authenticateClient`, which is the first that is called. Without a client a session has the
-- nil interface.
pub record Imapgrabber : Type 0 where
  pub imap_ops : Option Client
  pub interrupt_ops : Interrupter

-- len(signalsToWaitFor)
abbrev pub signals_to_wait_for : ℕ
signals_to_wait_for = 1

-- `NewImapgrabOps` and `authenticateClient`.
unfoldable pub authenticate : Network → ImapConfig → Imapgrabber × Option ClientError
authenticate net cfg = elim (authenticate_client net cfg) [
  | inl client ↦ (
    record { imap_ops = some client; interrupt_ops = new_interrupt_ops signals_to_wait_for },
    none,
  )
  | inr e ↦
      (record { imap_ops = none; interrupt_ops = new_interrupt_ops signals_to_wait_for }, some e)
]

-- What the library answers to `Terminate` and to `Logout`.
pub record LogoutAnswer : Type 0 where
  pub terminated : Option Bytes
  pub logged_out : Option Bytes

-- `none` is the panic of a call on the nil interface.
unfoldable pub logout : LogoutAnswer → Bool → Imapgrabber → Option (Imapgrabber × Option Bytes)
logout answer do_terminate ig = elim ig.imap_ops [
  | none ↦ none
  | some client ↦ some (
    record ig { interrupt_ops = deregister ig.interrupt_ops },
    if do_terminate then answer.terminated else answer.logged_out,
  )
]

-- `downloadMissingEmailsToFolder` of a session; the download itself ends with the given error.
unfoldable pub download_missing : Option Bytes → Imapgrabber → Imapgrabber × Option Bytes
download_missing result ig =
    let (i, hit) = interrupted ig.interrupt_ops in
    (
      record ig { interrupt_ops = i },
      if hit then some (codes "not downloading due to previous interrupt") else result,
    )

-- What follows the login in `TryConnect`.
unfoldable pub leave_connected :
    (ClientError → Bytes)
    → LogoutAnswer
    → Imapgrabber × Option ClientError
    → Option (Imapgrabber × List Bytes)
leave_connected text answer (ops, some e) = some (ops, text e ∷ [])
leave_connected text answer (ops, none) = elim (logout answer false ops) [
  | none ↦ none
  | some (ops', none) ↦ some (ops', [])
  | some (ops', some e) ↦ some (ops', e ∷ [])
]

-- What follows the login in `GetAllFolders`. An error of the logout does not replace one of the
-- request.
unfoldable pub list_connected :
    (ClientError → Bytes)
    → List Bytes × Option Bytes
    → LogoutAnswer
    → Imapgrabber × Option ClientError
    → Option (Imapgrabber × List Bytes × Option Bytes)
list_connected text reply answer (ops, some e) = some (ops, [], some (text e))
list_connected text (folders, list_err) answer (ops, none) = elim (logout answer false ops) [
  | none ↦ none
  | some (ops', logout_err) ↦
      some (ops', folders, elim list_err [ none ↦ logout_err | some e ↦ some e ])
]

module _ (text : ClientError → Bytes) (cfg : ImapConfig) where
  -- The session that is left, and the joined errors; `none` is a panic.
  unfoldable pub try_connect : Network → LogoutAnswer → Option (Imapgrabber × List Bytes)
  try_connect net answer = leave_connected text answer (authenticate net cfg)

  -- The session that is left, the folders and the error.
  unfoldable pub get_all_folders :
      Network
      → List Bytes × Option Bytes
      → LogoutAnswer
      → Option (Imapgrabber × List Bytes × Option Bytes)
  get_all_folders net reply answer = list_connected text reply answer (authenticate net cfg)
