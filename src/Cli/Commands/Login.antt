-- ===== src/Cli/Commands/Login.antt =====
-- What a login leaves behind (directory cli).
use go_imapgrab.Base.{◌≡◌, refl, ap, false, none, some, List, Bytes}
use go_imapgrab.Cli.Root.{RootConfig, core_config}
use go_imapgrab.Cli.Keyring.{KeyringOps, IsLawful, Environment, add_to_keyring, init_credentials}
use go_imapgrab.Cli.Keyring.Credentials.{SameAccount, given, retrieve_same, run_without_env}
use go_imapgrab.Cli.Commands.{CoreCall, try_connect, Core, log_in, run_login, pre_run, run_any}

abbrev pub login_call : RootConfig → Bytes → CoreCall
login_call root password = try_connect (record (core_config root) { password = password })

module _ (K : KeyringOps) (env : Environment) (core : Core) (root : RootConfig) (k : K.State) where
  logged_in :
      (password : Bytes)
      → core.answer (login_call root password) ≡ none
      → root.no_keyring ≡ false
      → (run_login K env core root (some password) k).1 ≡ (add_to_keyring K env root password k).0
  unfolding run_login
  logged_in password accepted n = rw (run_login, accepted, n) refl

pre_run_with :
    (K : KeyringOps) (env : Environment) (root : RootConfig) (args : List Bytes) (k : K.State)
    (password : Bytes)
    → init_credentials K env root k ≡ (given K env root k password, k, none)
    → pre_run K env root args k ≡ (given K env root k password, k, none)
unfolding pre_run
pre_run_with K env root args k password e = rw (pre_run, e) (ap (λ r. (r.0, r.1, none)) e)

-- After a login with a password that the server accepts and the keyring stores, a later command
-- for the same account, by the same user of the system and with no password in the environment, gets that password and runs.
pub login_then_pre_run :
    (K : KeyringOps) (law : IsLawful K) (env env' : Environment) (core : Core)
    (root root' : RootConfig) (k : K.State) (password : Bytes) (args : List Bytes)
    → core.answer (login_call root password) ≡ none
    → root.no_keyring ≡ false
    → (add_to_keyring K env root password k).1 ≡ none
    → env'.passwd_env_var ≡ none
    → env'.current_user ≡ env.current_user
    → root'.no_keyring ≡ false
    → SameAccount root root'
    → pre_run K env' root' args (run_any K env core (log_in (some password)) root args k).1 ≡ (
      record root' { password = password },
      (run_any K env core (log_in (some password)) root args k).1,
      none,
    )
unfolding run_any
login_then_pre_run K law env env' core root root' k password args accepted n ok i' u n' same =
    let stored = add_to_keyring K env root password k in
    let first = logged_in K env core root k password accepted n in
    let found = retrieve_same K law env root k password env' root' ok u same in
    rw first (
      pre_run_with K env' root' args stored.0 password
        (rw (run_without_env K env' root' stored.0 i' n', found) refl))
