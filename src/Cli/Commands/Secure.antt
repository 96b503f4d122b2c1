-- ===== src/Cli/Commands/Secure.antt =====
-- No command lets a password go over an open connection to another machine (directory cli, with
-- core/imap_client.go).
use mathlib.Core.Path.{subst}
use go_imapgrab.Decimal.{print_ℤ}
use go_imapgrab.Base.{
  ◌≡◌, refl, sym, ap, ◌∙◌, Option, none, some, Option-cases, List, [], ◌∷◌, Bytes, ◌⊎◌, inl, inr,
  All, All-at, ◌++◌, eq_list_iff, list_eq, nat_eq, ◌==◌, arith,
}
use go_imapgrab.Connection.{Client, tls, plain, Network, server_with_port, authenticate_client}
use go_imapgrab.Connection.Security.{authenticate_client_secure}
use go_imapgrab.Cli.Root.{RootConfig, localhost, core_config}
use go_imapgrab.Cli.Keyring.{KeyringOps, Environment, init_credentials}
use go_imapgrab.Cli.Commands.{
  CoreCall, config_of, Event, locked, called, unlocked, printed, CommandError, Core, Command,
  download, serve, list_folders, log_in, with_lock, run_download, run_serve, run_list, run_login,
  run_command, pre_run, run_any, try_connect,
}

-- The configuration of a call is that of the options, but for the password.
abbrev IsFrom : RootConfig → CoreCall → Type 0
IsFrom root call =
    ((config_of call).server ≡ root.server)
    × ((config_of call).port ≡ root.port)
    × ((config_of call).insecure ≡ (root.server == localhost))

abbrev CallFrom : RootConfig → Event → Type 0
CallFrom root (called call) = IsFrom root call
CallFrom root (locked path) = Unit
CallFrom root unlocked = Unit
CallFrom root (printed texts) = Unit

abbrev moved-CallFrom :
    (root r : RootConfig) (es : List Event)
    → r.server ≡ root.server
    → r.port ≡ root.port
    → All (CallFrom r) es
    → All (CallFrom root) es
moved-CallFrom root r [] s p h = tt
moved-CallFrom root r (called call ∷ es) s p ((s', p', i), h) =
    ((s' ∙ s, p' ∙ p, i ∙ ap (λ t. t == localhost) s), moved-CallFrom root r es s p h)
moved-CallFrom root r (locked path ∷ es) s p (x, h) = (tt, moved-CallFrom root r es s p h)
moved-CallFrom root r (unlocked ∷ es) s p (x, h) = (tt, moved-CallFrom root r es s p h)
moved-CallFrom root r (printed texts ∷ es) s p (x, h) = (tt, moved-CallFrom root r es s p h)

module _ (K : KeyringOps) (env : Environment) (core : Core) where
  same_server :
      (root : RootConfig) (args : List Bytes) (k : K.State)
      → ((pre_run K env root args k).0.server ≡ root.server)
        × ((pre_run K env root args k).0.port ≡ root.port)
  unfolding pre_run init_credentials
  same_server root args k = (ground arith, ground arith)

  command-CallFrom :
      (run : RootConfig → List Event × Option CommandError)
      → ((r : RootConfig) → All (CallFrom r) (run r).0)
      → (root : RootConfig) (args : List Bytes) (k : K.State)
      → All (CallFrom root) (run_command K env run root args k).0
  unfolding run_command
  command-CallFrom run h root args k =
      let (server, port) = same_server root args k in
      elim (Option-cases (pre_run K env root args k).2) [
        | inr (e, s) ↦ rw (run_command, s) tt
        | inl s ↦
            rw (run_command, s)
              (moved-CallFrom root (pre_run K env root args k).0
                (run (pre_run K env root args k).0).0 server port (h (pre_run K env root args k).0))
      ]

  any-CallFrom :
      (cmd : Command) (root : RootConfig) (args : List Bytes) (k : K.State)
      → All (CallFrom root) (run_any K env core cmd root args k).0
  unfolding run_any run_download run_serve run_list with_lock run_login core_config
  any-CallFrom (download lock_fails conf) root args k =
      command-CallFrom (λ r. run_download core lock_fails r conf) (λ r. ground arith) root args k
  any-CallFrom (serve lock_fails conf) root args k =
      command-CallFrom (λ r. run_serve core lock_fails r conf) (λ r. ground arith) root args k
  any-CallFrom list_folders root args k =
      command-CallFrom (λ r. run_list core r) (λ r. ground arith) root args k
  any-CallFrom (log_in none) root args k = tt
  any-CallFrom (log_in (some password)) root args k =
      elim (Option-cases
        (core.answer (try_connect (record (core_config root) { password = password })))) [
          | inl e ↦ rw (run_login, e) ((refl, refl, refl), tt)
          | inr (err, e) ↦ rw (run_login, e) ((refl, refl, refl), tt)
        ]

  -- Every connection that a command gets for a call of the core is to the server of the options,
  -- by TLS or, when that server is given as 127.0.0.1, by an open connection.
  pub run_any-secure :
      (cmd : Command) (root : RootConfig) (args : List Bytes) (k : K.State)
      (before after : List Event) (call : CoreCall) (net : Network) (client : Client)
      → (run_any K env core cmd root args k).0 ≡ before ++ called call ∷ after
      → authenticate_client net (config_of call) ≡ inl client
      → (client ≡ tls (root.server ++ (b':' ∷ print_ℤ root.port)))
        ⊎ ((client ≡ plain (root.server ++ (b':' ∷ print_ℤ root.port))) × (root.server ≡ localhost))
  run_any-secure cmd root args k before after call net client e h =
      let (server, port, insecure) =
        All-at (CallFrom root) before after (called call)
          (subst (All (CallFrom root)) e (any-CallFrom cmd root args k)) in
      let address : server_with_port (config_of call) ≡ root.server ++ (b':' ∷ print_ℤ root.port) =
        rw (server, port) refl in
      elim (authenticate_client_secure net (config_of call) client h) [
        | inl e ↦ inl (e ∙ ap tls address)
        | inr (e, i, _) ↦
            inr (e ∙ ap plain address, (eq_list_iff root.server localhost).0 (sym insecure ∙ i))
      ]
