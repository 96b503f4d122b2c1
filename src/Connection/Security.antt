-- ===== src/Connection/Security.antt =====
-- A password goes over an open connection only to the own
-- machine (core/imap_client.go).
use go_imapgrab.Base.{◌≡◌, ◌⊎◌, inl, true, has_prefix, arith}
use go_imapgrab.Connection.{
  ImapConfig, Client, tls, plain, Network, localhost_prefix, new_imap_client, server_with_port,
  authenticate_client,
}

module _ (net : Network) (config : ImapConfig) where
  -- Any connection is to the configured address, and it is by TLS or to the own machine.
  pub authenticate_client_secure :
      (client : Client)
      → authenticate_client net config ≡ inl client
      → (client ≡ tls (server_with_port config))
        ⊎ ((client ≡ plain (server_with_port config))
            × (config.insecure ≡ true)
            × (has_prefix (server_with_port config) localhost_prefix ≡ true))
  unfolding authenticate_client new_imap_client
  authenticate_client_secure client h = ground arith
