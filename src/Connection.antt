-- ===== src/Connection.antt =====
-- `newImapClient` and `authenticateClient` of core/imap_client.go, with `IMAPConfig` of
-- core/core.go: how a connection to the server comes about.
--
-- Whether dialling and logging in succeed is a parameter. A connection is told by its kind and its
-- address.
pub mod Security
use go_imapgrab.Base.{
  ℕ, Bool, true, false, not, List, [], ◌∷◌, ◌++◌, ◌⊎◌, inl, inr, Bytes, codes, ℤ, has_prefix,
  length, eqb, if◌then◌else◌,
}
use go_imapgrab.Decimal.{print_ℤ}

pub record ImapConfig : Type 0 where
  pub server : Bytes
  pub port : ℤ
  pub user : Bytes
  pub password : Bytes
  pub insecure : Bool

pub data Client : Type 0 where
  tls plain : Bytes → Client

pub data ClientError : Type 0 where
  password_not_set not_localhost cannot_connect cannot_log_in : ClientError

pub record Network : Type 0 where
  pub dial_tls : Bytes → Bool
  pub dial : Bytes → Bool
  pub log_in : Client → Bytes → Bytes → Bool

abbrev pub localhost_prefix : Bytes
localhost_prefix = codes "127.0.0.1:"

unfoldable pub new_imap_client : Network → Bytes → Bool → Client ⊎ ClientError
new_imap_client net addr insecure =
    if not insecure
    then (if net.dial_tls addr then inl (tls addr) else inr cannot_connect)
    else if not (has_prefix addr localhost_prefix)
    then inr not_localhost
    else if net.dial addr
    then inl (plain addr)
    else inr cannot_connect

-- Sprintf("%s:%d", config.Server, config.Port)
abbrev pub server_with_port : ImapConfig → Bytes
server_with_port config = config.server ++ (b':' ∷ print_ℤ config.port)

unfoldable pub authenticate_client : Network → ImapConfig → Client ⊎ ClientError
authenticate_client net config =
    if eqb (length config.password) 0
    then inr password_not_set
    else elim (new_imap_client net (server_with_port config) config.insecure) [
      | inr e ↦ inr e
      | inl client ↦
          if net.log_in client config.user config.password then inl client else inr cannot_log_in
    ]
