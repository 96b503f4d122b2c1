-- ===== src/Cli/Commands.antt =====
-- The commands download, serve, list and login (cli/download.go, cli/serve.go, cli/list.go,
-- cli/login.go).
--
-- The core is the code's interface `coreOps`: what it answers is the parameter `Core`. A command is
-- told by what it does, in order (`Event`), and by its error.
pub mod Login
pub mod Secure
use go_imapgrab.Base.{
  ℕ, ◌*◌, Bool, true, false, not, ◌&&◌, Option, none, some, List, [], ◌∷◌, ◌++◌, ◌⊎◌, inl, inr,
  Bytes, codes, ℤ, pos, if◌then◌else◌,
}
use go_imapgrab.Connection.{ImapConfig}
use go_imapgrab.Sort.Strings.{sort_strings}
use go_imapgrab.Cli.Root.{RootConfig, core_config}
use go_imapgrab.Cli.Keyring.{
  KeyringOps, Environment, CredentialsError, add_to_keyring, init_credentials,
  credentials_not_found,
}
use go_imapgrab.Cli.Quote.{login_cmd_use}

-- A call of the core.
pub data CoreCall : Type 0 where
  get_all_folders : ImapConfig → CoreCall
  download_folder : ImapConfig → List Bytes → Bytes → ℤ → CoreCall
  serve_maildir : ImapConfig → ℤ → Bytes → CoreCall
  try_connect : ImapConfig → CoreCall

abbrev pub config_of : CoreCall → ImapConfig
config_of (get_all_folders cfg) = cfg
config_of (download_folder cfg folders path threads) = cfg
config_of (serve_maildir cfg port path) = cfg
config_of (try_connect cfg) = cfg

-- The lock of a directory is that of its file `.go-imapgrab.lock`.
pub data Event : Type 0 where
  locked : Bytes → Event
  called : CoreCall → Event
  unlocked : Event
  printed : List Bytes → Event

pub data CommandError : Type 0 where
  cannot_lock cannot_read_password : CommandError
  core_failed : Bytes → CommandError
  no_credentials : CredentialsError → CommandError
  -- The error of the keyring, and what the user is told to run.
  must_log_in : CredentialsError → Bytes → CommandError
  -- `args[0]` out of range.
  panicked : CommandError

-- The answers of the core: the error of a call, and the folders of the server.
pub record Core : Type 0 where
  pub answer : CoreCall → Option Bytes
  pub folders : ImapConfig → List Bytes

abbrev core_error : Option Bytes → Option CommandError
core_error none = none
core_error (some e) = some (core_failed e)

pub record DownloadConfig : Type 0 where
  pub folders : List Bytes
  pub path : Bytes
  pub threads : ℤ

pub record ServeConfig : Type 0 where
  pub path : Bytes
  pub server_port : ℤ

-- The part that `download` and `serve` share: the core is called while the lock is held, which is
-- given back in the end (`defer unlock()`).
unfoldable pub with_lock : Core → Bool → Bytes → CoreCall → List Event × Option CommandError
with_lock core lock_fails path call =
    if lock_fails
    then ([], some cannot_lock)
    else (locked path ∷ called call ∷ unlocked ∷ [], core_error (core.answer call))

unfoldable pub run_download :
    Core → Bool → RootConfig → DownloadConfig → List Event × Option CommandError
run_download core lock_fails root conf =
    with_lock core lock_fails conf.path
      (download_folder (core_config root) conf.folders conf.path conf.threads)

unfoldable pub run_serve : Core → Bool → RootConfig → ServeConfig → List Event × Option CommandError
run_serve core lock_fails root conf =
    with_lock core lock_fails conf.path
      (serve_maildir (core_config root) conf.server_port conf.path)

-- The folders are printed also when there is an error.
unfoldable pub run_list : Core → RootConfig → List Event × Option CommandError
run_list core root =
    let call = get_all_folders (core_config root) in
    (
      called call ∷ printed (sort_strings (core.folders (core_config root))) ∷ [],
      core_error (core.answer call),
    )

-- `PreRunE` of these three commands: the options with the password.
module _ (K : KeyringOps) (env : Environment) where
  unfoldable pub pre_run :
      RootConfig → List Bytes → K.State → RootConfig × K.State × Option CommandError
  pre_run root args k =
      let (root', k', err) = init_credentials K env root k in
      elim err [
        | none ↦ (root', k', none)
        | some e ↦ (
          root',
          k',
          some (
              if credentials_not_found (some e)
              then elim (login_cmd_use root' args) [
                | none ↦ panicked
                | some text ↦ must_log_in e text
              ]
              else no_credentials e),
        )
      ]

  -- The login command: the password that was typed is stored only after the server accepted it.
  -- That the keyring fails is printed, and is no error.
  unfoldable pub run_login :
      Core → RootConfig → Option Bytes → K.State → List Event × K.State × Option CommandError
  run_login core root typed k = elim typed [
    | none ↦ ([], k, some cannot_read_password)
    | some password ↦
        let cfg : ImapConfig = record (core_config root) { password = password } in
        let (k', e) = add_to_keyring K env root password k in
        elim (core.answer (try_connect cfg)) [
          | some err ↦ (called (try_connect cfg) ∷ [], k, some (core_failed err))
          | none ↦ (called (try_connect cfg) ∷ [], if root.no_keyring then k else k', none)
        ]
  ]

-- A command with its `PreRunE`: without credentials it is not run.
unfoldable pub run_command :
    (K : KeyringOps)
    → Environment
    → (RootConfig → List Event × Option CommandError)
    → RootConfig
    → List Bytes
    → K.State
    → List Event × K.State × Option CommandError
run_command K env run root args k =
    let (root', k', err) = pre_run K env root args k in
    let (events, result) = run root' in
    elim err [ some e ↦ ([], k', some e) | none ↦ (events, k', result) ]

-- The commands, with the values of their own flags; the Boolean is whether the lock cannot be had.
pub data Command : Type 0 where
  download : Bool → DownloadConfig → Command
  serve : Bool → ServeConfig → Command
  list_folders : Command
  log_in : Option Bytes → Command

module _ (K : KeyringOps) (env : Environment) (core : Core) where
  abbrev pub download_cmd :
      Bool
      → DownloadConfig
      → RootConfig
      → List Bytes
      → K.State
      → List Event × K.State × Option CommandError
  download_cmd lock_fails conf = run_command K env (λ r. run_download core lock_fails r conf)

  abbrev pub serve_cmd :
      Bool
      → ServeConfig
      → RootConfig
      → List Bytes
      → K.State
      → List Event × K.State × Option CommandError
  serve_cmd lock_fails conf = run_command K env (λ r. run_serve core lock_fails r conf)

  abbrev pub list_cmd :
      RootConfig → List Bytes → K.State → List Event × K.State × Option CommandError
  list_cmd = run_command K env (λ r. run_list core r)

unfoldable pub run_any :
    (K : KeyringOps)
    → Environment
    → Core
    → Command
    → RootConfig
    → List Bytes
    → K.State
    → List Event × K.State × Option CommandError
run_any K env core (download lock_fails conf) root args k =
    download_cmd K env core lock_fails conf root args k
run_any K env core (serve lock_fails conf) root args k =
    serve_cmd K env core lock_fails conf root args k
run_any K env core list_folders root args k = list_cmd K env core root args k
run_any K env core (log_in typed) root args k = run_login K env core root typed k
