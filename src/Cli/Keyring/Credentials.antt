-- ===== src/Cli/Keyring/Credentials.antt =====
-- A password that was stored is found again, for its account only (cli/keyring.go).
use go_imapgrab.Base.{
  ◌≡◌, refl, sym, ap, ◌∙◌, false, Bool-cases, Option, none, some, Option-cases, [], Bytes, ◌⊎◌, inl,
  inr, elem, nat_eq, list_eq, eq_list_iff, eq_refl, ◌==◌, arith,
}
use go_imapgrab.Cli.Root.{RootConfig}
use go_imapgrab.Cli.Keyring.{
  KeyringOps, KeyringError, IsLawful, Environment, CredentialsError, from_keyring,
  keyring_service_spec, retrieve_from_keyring, add_to_keyring, password_input, init_credentials,
}
use go_imapgrab.Cli.Keyring.Spec.{keyring_service_spec_injective}

abbrev pub SameAccount : RootConfig → RootConfig → Type 0
SameAccount cfg cfg' =
    (cfg'.username ≡ cfg.username) × (cfg'.server ≡ cfg.server) × (cfg'.port ≡ cfg.port)

same_spec :
    (cfg cfg' : RootConfig)
    → SameAccount cfg cfg'
    → keyring_service_spec cfg' ≡ keyring_service_spec cfg
unfolding keyring_service_spec
same_spec cfg cfg' (u, s, p) = rw (u, s, p) refl

abbrev secret_of : Bytes ⊎ KeyringError → Bytes × Option CredentialsError
secret_of (inl secret) = (secret, none)
secret_of (inr e) = ([], some (from_keyring e))

retrieve_at :
    (K : KeyringOps) (env : Environment) (cfg : RootConfig) (k : K.State) (user : Bytes)
    → env.current_user ≡ some user
    → retrieve_from_keyring K env cfg k ≡ secret_of (K.get k (keyring_service_spec cfg) user)
unfolding retrieve_from_keyring
retrieve_at K env cfg k user e = ground arith

module _ (K : KeyringOps) (law : IsLawful K) (env : Environment) (cfg : RootConfig)
    (k : K.State) where
  added_user :
      (password : Bytes)
      → (add_to_keyring K env cfg password k).1 ≡ none
      → (user : Bytes) × (env.current_user ≡ some user)
        × ((K.set k (keyring_service_spec cfg) user password).1 ≡ none)
        × ((add_to_keyring K env cfg password k).0
            ≡ (K.set k (keyring_service_spec cfg) user password).0)
  unfolding add_to_keyring
  added_user password h = elim (Option-cases env.current_user) [
    | inl e ↦ absurd (ground arith)
    | inr (user, e) ↦ (user, e, ground arith, rw (add_to_keyring, e) refl)
  ]

  -- After a password was stored without an error, the same account gets it, and any other account
  -- gets what it got before, provided that no server name holds an `@`.
  pub retrieve-add_to_keyring :
      (password : Bytes) (cfg' : RootConfig)
      → elem b'@' cfg.server ≡ false
      → elem b'@' cfg'.server ≡ false
      → (add_to_keyring K env cfg password k).1 ≡ none
      → (SameAccount cfg cfg'
          × (retrieve_from_keyring K env cfg' (add_to_keyring K env cfg password k).0
              ≡ (password, none)))
        ⊎ ((¬ SameAccount cfg cfg')
            × (retrieve_from_keyring K env cfg' (add_to_keyring K env cfg password k).0
                ≡ retrieve_from_keyring K env cfg' k))
  retrieve-add_to_keyring password cfg' h h' e =
      let (user, u, ok, same) = added_user password e in
      let found =
        law.get-set k (keyring_service_spec cfg) user password ok (keyring_service_spec cfg')
          user in
      let after =
        retrieve_at K env cfg' (add_to_keyring K env cfg password k).0 user u
        ∙ ap (λ w. secret_of (K.get w (keyring_service_spec cfg') user)) same
        ∙ ap secret_of found in
      elim (Bool-cases (keyring_service_spec cfg' == keyring_service_spec cfg)) [
        | inl t ↦ inl (
          keyring_service_spec_injective cfg' cfg h' h
              ((eq_list_iff (keyring_service_spec cfg') (keyring_service_spec cfg)).0 t),
          after ∙ rw (t, eq_refl user) refl,
        )
        | inr t ↦ inr (
          (λ same_account. ground (
            arith,
            eq_list_iff (keyring_service_spec cfg') (keyring_service_spec cfg),
            same_spec cfg cfg' same_account,
          )),
          after ∙ rw t (sym (retrieve_at K env cfg' k user u)),
        )
      ]

  pub retrieve_same :
      (password : Bytes) (env' : Environment) (cfg' : RootConfig)
      → (add_to_keyring K env cfg password k).1 ≡ none
      → env'.current_user ≡ env.current_user
      → SameAccount cfg cfg'
      → retrieve_from_keyring K env' cfg' (add_to_keyring K env cfg password k).0 ≡ (password, none)
  retrieve_same password env' cfg' e u' account =
      let (user, u, ok, same) = added_user password e in
      let found =
        law.get-set k (keyring_service_spec cfg) user password ok (keyring_service_spec cfg')
          user in
      retrieve_at K env' cfg' (add_to_keyring K env cfg password k).0 user (u' ∙ u)
      ∙ ap (λ w. secret_of (K.get w (keyring_service_spec cfg') user)) same
      ∙ ap secret_of found
      ∙ rw (same_spec cfg cfg' account, eq_refl (keyring_service_spec cfg), eq_refl user) refl

module _ (K : KeyringOps) (env : Environment) (conf : RootConfig) (k : K.State) where
  abbrev pub given : Bytes → RootConfig
  given password = record conf { password = password }

  run_with_env :
      (input : Bytes)
      → env.passwd_env_var ≡ some input
      → conf.no_keyring ≡ false
      → init_credentials K env conf k ≡ (
        given (password_input K env input),
        (add_to_keyring K env
            (given (password_input K env input))
            (password_input K env input)
            k).0,
        (add_to_keyring K env
            (given (password_input K env input))
            (password_input K env input)
            k).1,
      )
  unfolding init_credentials
  run_with_env input i n = ground arith

  pub run_without_env :
      env.passwd_env_var ≡ none
      → conf.no_keyring ≡ false
      → init_credentials K env conf k
        ≡ (given (retrieve_from_keyring K env conf k).0, k, (retrieve_from_keyring K env conf k).1)
  unfolding init_credentials
  run_without_env i n = ground arith

-- A run that takes the password from the environment and stores it without an error leaves a
-- keyring from which a later run for the same account, by the same user of the system, with no
-- password in the environment gets that password.
pub init_credentials_remembered :
    (K : KeyringOps) (law : IsLawful K) (env env' : Environment) (conf conf' : RootConfig)
    (k : K.State) (input : Bytes)
    → env.passwd_env_var ≡ some input
    → conf.no_keyring ≡ false
    → (init_credentials K env conf k).2 ≡ none
    → env'.passwd_env_var ≡ none
    → env'.current_user ≡ env.current_user
    → conf'.no_keyring ≡ false
    → SameAccount conf conf'
    → init_credentials K env' conf' (init_credentials K env conf k).1 ≡ (
      record conf' { password = (init_credentials K env conf k).0.password },
      (init_credentials K env conf k).1,
      none,
    )
init_credentials_remembered K law env env' conf conf' k input i n ok i' u n' same =
    let first = run_with_env K env conf k input i n in
    let password = password_input K env input in
    let conf₁ : RootConfig = record conf { password = password } in
    let found =
      retrieve_same K law env conf₁ k password env' conf' (ap (λ r. r.2) (sym first) ∙ ok) u same in
    rw (first, run_without_env K env' conf' (add_to_keyring K env conf₁ password k).0 i' n', found)
      refl
