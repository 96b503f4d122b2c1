-- ===== src/Examples/Cli.antt =====
-- The command line (directory cli) at concrete inputs.
use go_imapgrab.Base.{
  arith, ◌≡◌, refl, ◌⊎◌, inl, inr, ◌∷◌, ◌++◌, [], List, Bytes, false, ◌&&◌, none, some, codes, pos,
  ◌==◌, list_eq, nat_eq, join, if◌then◌else◌,
}
use go_imapgrab.Decimal.{print_ℤ}
use go_imapgrab.Connection.{tls, plain, authenticate_client, new_imap_client}
use go_imapgrab.Examples.Connection.{open_network}
use go_imapgrab.Cli.{RootConfig, localhost, core_config}
use go_imapgrab.Cli.Quote.{quote, quote_arg}
use go_imapgrab.Cli.Quote.Words.{shell_words, shell_words-quote}
use go_imapgrab.Cli.Keyring.{
  KeyringOps, KeyringError, err_not_found, IsLawful, Environment, keyring_service_spec,
  add_to_keyring, password_input, init_credentials, trim_left, trim_right, trim_space,
}
use go_imapgrab.Cli.Commands.{
  called, Core, log_in, download, DownloadConfig, CoreCall, run_any, pre_run, run_command,
  run_download, with_lock, config_of, locked, unlocked, download_folder,
}
use go_imapgrab.Cli.Commands.Login.{login_then_pre_run}
use go_imapgrab.Cli.Commands.Secure.{run_any-secure}

-- A keyring that keeps everything, the newest entry first.
abbrev Stored : Type 0
Stored = List (Bytes × Bytes × Bytes)

abbrev find_secret : Stored → Bytes → Bytes → Bytes ⊎ KeyringError
find_secret [] service user = inr err_not_found
find_secret ((s, u, secret) ∷ k) service user =
    if service == s && user == u then inl secret else find_secret k service user

abbrev memory_keyring : KeyringOps
memory_keyring = record {
  State = Stored;
  get = find_secret;
  set = λ k service user secret. ((service, user, secret) ∷ k, none);
}

memory_keyring-IsLawful : IsLawful memory_keyring
memory_keyring-IsLawful = record { get-set = λ k service user secret ok service' user'. refl }

abbrev home : Environment
home = record { passwd_env_var = none; read_file = λ _. none; current_user = some (codes "me") }

-- A container, where the variable names a file.
abbrev container : Environment
container = record home {
  passwd_env_var = some (codes "/run/secret");
  read_file = λ _. some (codes " abc\n");
}

abbrev account : RootConfig
account = record {
  server = codes "imap.host";
  port = pos 993;
  username = codes "ann";
  password = [];
  verbose = false;
  no_keyring = false;
}

abbrev local_account : RootConfig
local_account = record account { server = localhost }

abbrev ready_core : Core
ready_core = record { answer = λ _. none; folders = λ _. codes "b" ∷ codes "a" ∷ [] }

abbrev some_words : List Bytes
some_words = codes "-f" ∷ codes "a b" ∷ [] ∷ []

quoted : join (codes " ") (quote some_words) ≡ codes "-f \"a b\" \"\""
unfolding quote quote_arg
quoted = refl

trimmed : trim_space (codes " a b \n") ≡ codes "a b"
unfolding trim_left trim_right
trimmed = refl

spec : keyring_service_spec account ≡ codes "go-imapgrab/ann@imap.host:993"
unfolding keyring_service_spec print_ℤ
spec = refl

shell_words-quote_example : shell_words (join (codes " ") (quote some_words)) ≡ some_words
shell_words-quote_example = shell_words-quote some_words (ground arith)

stored : (add_to_keyring memory_keyring home account (codes "abc") []).1 ≡ none
unfolding add_to_keyring
stored = refl

started : (init_credentials memory_keyring container account []).2 ≡ none
unfolding init_credentials add_to_keyring
started = refl

login_then_pre_run_example :
    pre_run memory_keyring home account
      (codes "go-imapgrab" ∷ [])
      (run_any memory_keyring home ready_core
        (log_in (some (codes "abc")))
        account
        (codes "go-imapgrab" ∷ [])
        []).1
    ≡ (
      record account { password = codes "abc" },
      (run_any memory_keyring home ready_core
          (log_in (some (codes "abc")))
          account
          (codes "go-imapgrab" ∷ [])
          []).1,
      none,
    )
login_then_pre_run_example =
    login_then_pre_run memory_keyring memory_keyring-IsLawful home home ready_core account account
      [] (codes "abc") (codes "go-imapgrab" ∷ []) refl refl stored refl refl refl (refl, refl, refl)

abbrev wish : DownloadConfig
wish = record { folders = codes "_ALL_" ∷ []; path = codes "backup"; threads = pos 0 }

abbrev wish_call : CoreCall
wish_call =
    download_folder (record (core_config account) { password = codes "abc" }) (codes "_ALL_" ∷ [])
      (codes "backup") (pos 0)

connected :
    authenticate_client open_network (config_of wish_call) ≡ inl (tls (codes "imap.host:993"))
unfolding authenticate_client new_imap_client print_ℤ core_config
connected = refl

download_events :
    (run_any memory_keyring container ready_core (download false wish) account [] []).0
    ≡ (locked (codes "backup") ∷ []) ++ called wish_call ∷ unlocked ∷ []
unfolding run_any run_command pre_run init_credentials add_to_keyring run_download with_lock
    core_config trim_left trim_right password_input
download_events = refl

run_any-secure_example :
    (tls (codes "imap.host:993") ≡ tls (account.server ++ (b':' ∷ print_ℤ account.port)))
    ⊎ ((tls (codes "imap.host:993") ≡ plain (account.server ++ (b':' ∷ print_ℤ account.port)))
        × (account.server ≡ localhost))
run_any-secure_example =
    run_any-secure memory_keyring container ready_core (download false wish) account [] []
      (locked (codes "backup") ∷ []) (unlocked ∷ []) wish_call open_network
      (tls (codes "imap.host:993")) download_events connected
