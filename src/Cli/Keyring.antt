-- ===== src/Cli/Keyring.antt =====
-- cli/keyring.go: where the password comes from, and where it is kept.
--
-- The keyring of the system is the code's interface `keyringOps`, here `KeyringOps` over an unknown
-- state; `IsLawful` is what a keyring is for. The environment, the files and the user of the
-- operating system are the parameter `Environment`.
pub mod Spec
pub mod Credentials
use go_imapgrab.Base.{
  ℕ, ◌≡◌, Bool, true, false, ◌&&◌, Option, none, some, List, [], ◌∷◌, ◌++◌, ◌⊎◌, inl, inr, Bytes,
  codes, ◌==◌, list_eq, nat_eq, if◌then◌else◌,
}
use go_imapgrab.Cli.Root.{RootConfig}
use go_imapgrab.Cli.Quote.{is_space}
use go_imapgrab.Decimal.{print_ℤ}

-- `keyring.ErrNotFound`, and any other error.
pub data KeyringError : Type 0 where
  err_not_found other_error : KeyringError

pub record KeyringOps : Type 1 where
  pub State : Type 0
  pub get : State → Bytes → Bytes → Bytes ⊎ KeyringError
  pub set : State → Bytes → Bytes → Bytes → State × Option KeyringError

-- What was set without an error is found, and nothing else changes.
pub record IsLawful (K : KeyringOps) : Type 0 where
  pub get-set :
      (k : K.State) (service user password : Bytes)
      → (K.set k service user password).1 ≡ none
      → (service' user' : Bytes)
      → K.get (K.set k service user password).0 service' user'
        ≡ (if service' == service && user' == user then inl password else K.get k service' user')

pub record Environment : Type 0 where
  pub passwd_env_var : Option Bytes
  pub read_file : Bytes → Option Bytes
  pub current_user : Option Bytes

pub data CredentialsError : Type 0 where
  no_current_user keyring_disabled : CredentialsError
  from_keyring : KeyringError → CredentialsError

abbrev pub service_name : Bytes
service_name = codes "go-imapgrab"

-- Sprintf("%s/%s@%s:%d", serviceName, cfg.username, cfg.server, cfg.port)
unfoldable pub keyring_service_spec : RootConfig → Bytes
keyring_service_spec cfg =
    service_name ++ (b'/' ∷ cfg.username ++ (b'@' ∷ cfg.server ++ (b':' ∷ print_ℤ cfg.port)))

-- strings.TrimSpace
unfoldable pub trim_left : Bytes → Bytes
trim_left [] = []
trim_left (c ∷ s) = if is_space c then trim_left s else c ∷ s

unfoldable pub trim_right : Bytes → Bytes
trim_right [] = []
trim_right (c ∷ s) =
    let rest = trim_right s in
    elim rest [ [] ↦ if is_space c then [] else c ∷ [] | d ∷ r ↦ c ∷ d ∷ r ]

abbrev pub trim_space : Bytes → Bytes
trim_space s = trim_right (trim_left s)

module _ (K : KeyringOps) (env : Environment) where
  -- The secret, which is empty when there is an error.
  unfoldable pub retrieve_from_keyring : RootConfig → K.State → Bytes × Option CredentialsError
  retrieve_from_keyring cfg k = elim env.current_user [
    | none ↦ ([], some no_current_user)
    | some user ↦ elim (K.get k (keyring_service_spec cfg) user) [
      | inr e ↦ ([], some (from_keyring e))
      | inl secret ↦ (secret, none)
    ]
  ]

  unfoldable pub add_to_keyring : RootConfig → Bytes → K.State → K.State × Option CredentialsError
  add_to_keyring cfg password k = elim env.current_user [
    | none ↦ (k, some no_current_user)
    | some user ↦
        let (k', e) = K.set k (keyring_service_spec cfg) user password in
        (k', elim e [ none ↦ none | some e' ↦ some (from_keyring e') ])
  ]

  -- The value of the environment variable, or the content of the file that it names.
  unfoldable pub password_input : Bytes → Bytes
  password_input input = elim (env.read_file input) [
    | none ↦ input
    | some content ↦ trim_space content
  ]

  -- The configuration with its password, the keyring, and the error.
  unfoldable pub init_credentials :
      RootConfig → K.State → RootConfig × K.State × Option CredentialsError
  init_credentials conf k = elim env.passwd_env_var [
    | some input ↦
        let conf' : RootConfig = record conf { password = password_input input } in
        let (k', e) = add_to_keyring conf' (password_input input) k in
        if conf.no_keyring then (conf', k, none) else (conf', k', e)
    | none ↦
        let (secret, e) = retrieve_from_keyring conf k in
        if conf.no_keyring
        then (conf, k, some keyring_disabled)
        else (record conf { password = secret }, k, e)
  ]

abbrev pub credentials_not_found : Option CredentialsError → Bool
credentials_not_found (some (from_keyring err_not_found)) = true
credentials_not_found _ = false
