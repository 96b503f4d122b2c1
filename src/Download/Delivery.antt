-- ===== src/Download/Delivery.antt =====
-- `streamingDelivery` of core/deliver.go.
use go_imapgrab.Base.{ℕ, ◌+◌, Option, none, some, List, [], ◌∷◌, inl, inr, ℤ}
use go_imapgrab.Email.{rfc822_from_email}
use go_imapgrab.Maildir.{Maildir, deliver_message}
use go_imapgrab.Oldmail.{Oldmail}
use go_imapgrab.Oldmail.Writeout.{WriteAnswer}
use go_imapgrab.UniqueName.{ThreadSafeCounter}
use go_imapgrab.Download.Retrieval.{Message}

-- The delivery counter of the process, and the maildir.
abbrev pub Store : Type 0
Store = ThreadSafeCounter × Maildir

-- One round of the loop: the store afterwards, and the record if there was no error.
unfoldable pub deliver_one : ℤ → Message → Store → Store × Option Oldmail
deliver_one uid_folder msg store = elim (rfc822_from_email msg.fields uid_folder) [
  | inr e ↦ (store, none)
  | inl (text, om) ↦
      let (store', err) = deliver_message msg.deliver msg.moment text store in
      elim err [ none ↦ (store', some om) | some e ↦ (store', none) ]
]

-- The records of the delivered emails (each with the answer that its write will get), `errCount`,
-- and the store.
unfoldable pub streaming_delivery :
    ℤ → List Message → Store → List (Oldmail × WriteAnswer) × ℕ × Store
streaming_delivery uid_folder [] store = ([], 0, store)
streaming_delivery uid_folder (msg ∷ msgs) store =
    let (store', r) = deliver_one uid_folder msg store in
    let (oms, errs, final) = streaming_delivery uid_folder msgs store' in
    elim r [ none ↦ (oms, errs + 1, final) | some om ↦ ((om, msg.remember) ∷ oms, errs, final) ]
