-- ===== src/Download/Retrieval.antt =====
-- core/imap_client.go: the UIDs of a folder, and the retrieval of emails by their UIDs.
--
-- What the server sends is a parameter: a reply is `none` where the client library hands on a nil
-- message.
use go_imapgrab.Base.{
  ℕ, ◌+◌, Bool, true, false, not, Option, none, some, List, [], ◌∷◌, ℤ, pos, negsuc, ltb, eqb,
  if◌then◌else◌, all,
}
use go_imapgrab.Email.{Field}
use go_imapgrab.Ids.{UidExt}
use go_imapgrab.Maildir.{Answers}
use go_imapgrab.Oldmail.Writeout.{WriteAnswer}
use go_imapgrab.Partition.{int_to_uint32}
use go_imapgrab.UniqueName.{Moment}

-- What is used of imap.MailboxStatus.
pub record MailboxStatus : Type 0 where
  pub uid_validity : ℕ
  pub messages : ℕ

-- The messages that are not nil.
unfoldable pub uids_of : ℕ → List (Option ℕ) → List UidExt
uids_of uid_validity [] = []
uids_of uid_validity (none ∷ ms) = uids_of uid_validity ms
uids_of uid_validity (some m ∷ ms) =
    record { folder = pos uid_validity; msg = pos m } ∷ uids_of uid_validity ms

-- The UIDs, and whether there was an error. An empty folder is not asked for its emails.
unfoldable pub get_all_message_uuids : MailboxStatus → List (Option ℕ) → Bool → List UidExt × Bool
get_all_message_uuids mbox replies fetch_fails =
    if eqb mbox.messages 0 then ([], false) else (uids_of mbox.uid_validity replies, fetch_fails)

-- An email that the server sends, and what the operating system will answer when it is delivered
-- and when its record is written.
pub record Message : Type 0 where
  pub fields : List Field
  pub moment : Moment
  pub deliver : Answers
  pub remember : WriteAnswer

-- One round of the loop that hands messages on: whether there was an interrupt, and what came if
-- there was none.
pub data Poll : Type 0 where
  interrupt : Poll
  received : Option Message → Poll

pub data Start : Type 0 where
  not_positive overflow : Start
  started : List ℕ → Start

abbrev pub is_positive : ℤ → Bool
is_positive (pos n) = ltb 0 n
is_positive (negsuc n) = false

-- The numbers that are added to the SeqSet; `none` is the panic of `intToUint32`.
unfoldable pub seqset_of : List ℤ → Option (List ℕ)
seqset_of [] = some []
seqset_of (u ∷ us) =
    let rest = seqset_of us in
    elim (int_to_uint32 u) [
      | none ↦ none
      | some n ↦ elim rest [ none ↦ none | some ns ↦ some (n ∷ ns) ]
    ]

-- The part of `streamingRetrieval` before the goroutines.
unfoldable pub start_retrieval : List ℤ → Start
start_retrieval uids =
    if not (all is_positive uids)
    then not_positive
    else elim (seqset_of uids) [ none ↦ overflow | some ns ↦ started ns ]

-- The goroutine that hands messages on: the messages, and whether an interrupt ended it.
unfoldable pub hand_on : List Poll → List Message × Bool
hand_on [] = ([], false)
hand_on (interrupt ∷ ps) = ([], true)
hand_on (received none ∷ ps) = hand_on ps
hand_on (received (some m) ∷ ps) = let (ms, i) = hand_on ps in (m ∷ ms, i)

-- Both goroutines: the messages, and `errCount`.
unfoldable pub streaming_retrieval : Bool → List Poll → List Message × ℕ
streaming_retrieval fetch_fails polls =
    let (messages, i) = hand_on polls in
    (messages, (if fetch_fails then 1 else 0) + (if i then 1 else 0))
