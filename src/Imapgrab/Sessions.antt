-- ===== src/Imapgrab/Sessions.antt =====
-- What the short sessions of core/core.go leave behind.
use go_imapgrab.Base.{
  ◌≡◌, refl, ap, ◌∙◌, Option, none, some, Option-cases, Sum-cases, List, [], ◌∷◌, ◌⊎◌, ◌↔◌, inl,
  inr, Bytes, arith,
}
use go_imapgrab.Connection.{ImapConfig, Client, ClientError, Network, authenticate_client}
use go_imapgrab.Threading.{new_interrupt_ops, deregister, register}
use go_imapgrab.Imapgrab.{
  Imapgrabber, LogoutAnswer, signals_to_wait_for, authenticate, logout, try_connect,
  leave_connected, list_connected, get_all_folders,
}

abbrev pub new_session : Option Client → Imapgrabber
new_session client = record {
  imap_ops = client;
  interrupt_ops = new_interrupt_ops signals_to_wait_for;
}

abbrev left_session : Client → Imapgrabber
left_session client = record {
  imap_ops = some client;
  interrupt_ops = deregister (new_interrupt_ops signals_to_wait_for);
}

pub authenticate_cases :
    (net : Network) (cfg : ImapConfig)
    → ((client : Client) × (authenticate_client net cfg ≡ inl client)
        × (authenticate net cfg ≡ (new_session (some client), none)))
      ⊎ ((e : ClientError) × (authenticate_client net cfg ≡ inr e)
          × (authenticate net cfg ≡ (new_session none, some e)))
unfolding authenticate
authenticate_cases net cfg = elim (Sum-cases (authenticate_client net cfg)) [
  | inl (client, e) ↦ inl (client, e, rw (authenticate, e) refl)
  | inr (e', e) ↦ inr (e', e, rw (authenticate, e) refl)
]

module _ (text : ClientError → Bytes) (net : Network) (cfg : ImapConfig)
    (answer : LogoutAnswer) where
  -- The attempt to connect never panics. It reports no error exactly if the login and the logout
  -- have none. The signal handler is given back exactly if the login has no error.
  pub try_connect_total :
      (ops : Imapgrabber) × (errs : List Bytes) × (try_connect text cfg net answer
        ≡ some (ops, errs))
      × ((errs ≡ []) ↔ (((authenticate net cfg).1 ≡ none) × (answer.logged_out ≡ none)))
      × ((ops.interrupt_ops.channel ≡ none) ↔ ((authenticate net cfg).1 ≡ none))
  unfolding try_connect leave_connected logout deregister new_interrupt_ops register
  try_connect_total = elim (authenticate_cases net cfg) [
    | inl (client, _, e) ↦ elim (Option-cases answer.logged_out) [
      | inl out ↦ (
        left_session client,
        [],
        ap (leave_connected text answer) e ∙ ground arith,
        ground arith,
        ground arith,
      )
      | inr (o, out) ↦ (
        left_session client,
        o ∷ [],
        ap (leave_connected text answer) e ∙ ground arith,
        ground arith,
        ground arith,
      )
    ]
    | inr (e', _, e) ↦ (
      new_session none,
      text e' ∷ [],
      ap (leave_connected text answer) e,
      ground arith,
      ground arith,
    )
  ]

  -- The request for the folders never panics. It reports no error exactly if the login, the request
  -- and the logout have none; and the folders are those of the server once the login has no error.
  pub get_all_folders_total :
      (reply : List Bytes × Option Bytes)
      → (ops : Imapgrabber) × (folders : List Bytes) × (error : Option Bytes) × (get_all_folders
            text cfg net reply answer
          ≡ some (ops, folders, error))
        × ((error ≡ none)
            ↔ (((authenticate net cfg).1 ≡ none) × (reply.1 ≡ none) × (answer.logged_out ≡ none)))
        × (((authenticate net cfg).1 ≡ none) × (folders ≡ reply.0) ⊎ (folders ≡ []))
  unfolding get_all_folders list_connected logout deregister
  get_all_folders_total reply = elim (authenticate_cases net cfg) [
    | inl (client, _, e) ↦ elim (Option-cases reply.1) [
      | inl l ↦ (
        left_session client,
        reply.0,
        answer.logged_out,
        ap (list_connected text reply answer) e ∙ ground arith,
        ground arith,
        inl (ground arith, refl),
      )
      | inr (o, l) ↦ (
        left_session client,
        reply.0,
        some o,
        ap (list_connected text reply answer) e ∙ ground arith,
        ground arith,
        inl (ground arith, refl),
      )
    ]
    | inr (e', _, e) ↦ (
      new_session none,
      [],
      some (text e'),
      ap (list_connected text reply answer) e,
      ground arith,
      inr refl,
    )
  ]
