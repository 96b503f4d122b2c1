-- ===== src/Cli/Root.antt =====
-- cli/root.go, and the constant of cli/main.go.
use go_imapgrab.Base.{Bool, Bytes, codes, ℤ, pos, ◌==◌, list_eq, nat_eq}
use go_imapgrab.Connection.{ImapConfig}

abbrev pub default_port : ℤ
default_port = pos 993

abbrev pub localhost : Bytes
localhost = codes "127.0.0.1"

pub record RootConfig : Type 0 where
  pub server : Bytes
  pub port : ℤ
  pub username : Bytes
  pub password : Bytes
  pub verbose : Bool
  pub no_keyring : Bool

-- The configuration that every command hands to the core. A connection without TLS is asked for
-- only for the own machine.
unfoldable pub core_config : RootConfig → ImapConfig
core_config conf = record {
  server = conf.server;
  port = conf.port;
  user = conf.username;
  password = conf.password;
  insecure = conf.server == localhost;
}
