-- ===== src/Examples/Connection.antt =====
-- `authenticateClient` of core/imap_client.go at concrete inputs.
use go_imapgrab.Base.{◌≡◌, inl, inr, refl, true, codes, pos}
use go_imapgrab.Decimal.{print_ℤ}
use go_imapgrab.Connection.{
  ImapConfig, plain, Network, new_imap_client, authenticate_client, not_localhost,
}

abbrev pub open_network : Network
open_network = record { dial_tls = λ _. true; dial = λ _. true; log_in = λ _ _ _. true }

abbrev pub local : ImapConfig
local = record {
  server = codes "127.0.0.1";
  port = pos 30143;
  user = codes "me";
  password = codes "secret";
  insecure = true;
}

-- The prefix of an address is not enough.
refused :
    authenticate_client open_network (record local { server = codes "127.0.0.11" })
    ≡ inr not_localhost
unfolding authenticate_client new_imap_client print_ℤ
refused = refl

local_connection : authenticate_client open_network local ≡ inl (plain (codes "127.0.0.1:30143"))
unfolding authenticate_client new_imap_client print_ℤ
local_connection = refl
