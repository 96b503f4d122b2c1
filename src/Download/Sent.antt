-- ===== src/Download/Sent.antt =====
-- What the server is asked for and what it sends, as core/imap_client.go sees it: the UIDs of a
-- folder, the request for emails, and the emails.
use mathlib.Core.Path.{subst}
use mathlib.Core.Option.{some-injective}
use go_imapgrab.Base.{
  ℕ, ◌≡◌, refl, sym, ap, ◌∙◌, Bool, true, false, not, ◌&&◌, Bool-cases, Option, Option-cases, none,
  some, List, [], ◌∷◌, ◌++◌, map, ℤ, pos, negsuc, elem, int_eq, eqb, all, All, arith, inl, inr,
  if◌then◌else◌,
}
use go_imapgrab.Oldmail.{Oldmail}
use go_imapgrab.Ids.{oldmail_uids, determine_missing_uids}
use go_imapgrab.Ids.Missing.{server_uids, determine_missing_uids_exact}
use go_imapgrab.Partition.{int_to_uint32}
use go_imapgrab.Download.{
  World, Message, Poll, interrupt, received, MailboxStatus, started, is_positive, seqset_of,
  start_retrieval, hand_on, uids_of, get_all_message_uuids,
}

-- All emails that come from the server: what is received and is not nil.
abbrev pub message_of : Poll → List Message
message_of interrupt = []
message_of (received none) = []
message_of (received (some m)) = m ∷ []

abbrev pub messages_of : List Poll → List Message
messages_of [] = []
messages_of (p ∷ ps) = message_of p ++ messages_of ps

abbrev pub is_interrupt : Poll → Bool
is_interrupt interrupt = true
is_interrupt (received m) = false

-- Without an interrupt all are handed on.
pub hand_on_all :
    (ps : List Poll)
    → (hand_on ps).1 ≡ false
    → ((hand_on ps).0 ≡ messages_of ps) × All (λ p. is_interrupt p ≡ false) ps
unfolding hand_on
hand_on_all [] h = (refl, tt)
hand_on_all (interrupt ∷ ps) h = ground (arith, h)
hand_on_all (received none ∷ ps) h = let (same, calm) = hand_on_all ps h in (same, (refl, calm))
hand_on_all (received (some m) ∷ ps) h =
    let (same, calm) = hand_on_all ps h in (ap (λ ms. m ∷ ms) same, (refl, calm))

-- The UIDs of the emails that the server tells of; a folder without messages has none.
abbrev pub number_of : Option ℕ → List ℤ
number_of none = []
number_of (some n) = pos n ∷ []

abbrev pub numbers_of : List (Option ℕ) → List ℤ
numbers_of [] = []
numbers_of (r ∷ rs) = number_of r ++ numbers_of rs

abbrev pub on_server : MailboxStatus → World → List ℤ
on_server mbox w = if eqb mbox.messages 0 then [] else numbers_of w.uid_replies

uids_of-numbers : (v : ℕ) (rs : List (Option ℕ)) → server_uids (uids_of v rs) ≡ numbers_of rs
unfolding uids_of
uids_of-numbers v [] = refl
uids_of-numbers v (none ∷ rs) = uids_of-numbers v rs
uids_of-numbers v (some n ∷ rs) = ap (λ xs. pos n ∷ xs) (uids_of-numbers v rs)

uuids-on_server :
    (mbox : MailboxStatus) (w : World)
    → server_uids (get_all_message_uuids mbox w.uid_replies w.list_fails).0 ≡ on_server mbox w
unfolding get_all_message_uuids
uuids-on_server mbox w = elim (Bool-cases (eqb mbox.messages 0)) [
  | inl e ↦ rw e refl
  | inr e ↦ rw e (uids_of-numbers mbox.uid_validity w.uid_replies)
]

-- The UIDs that the server has and no record names.
pub IsMissing : MailboxStatus → World → List Oldmail → List ℤ → Type 0
IsMissing mbox w olds missing =
    (m : ℤ) → elem m missing ≡ (elem m (on_server mbox w) && not (elem m (oldmail_uids olds)))

pub determine-IsMissing :
    (mbox : MailboxStatus) (w : World) (olds : List Oldmail) (missing : List ℤ)
    → determine_missing_uids olds (get_all_message_uuids mbox w.uid_replies w.list_fails).0
      ≡ inl missing
    → IsMissing mbox w olds missing
unfolding IsMissing
determine-IsMissing mbox w olds missing h m =
    determine_missing_uids_exact olds (get_all_message_uuids mbox w.uid_replies w.list_fails).0
      missing h m
    ∙ ap (λ us. elem m us && not (elem m (oldmail_uids olds))) (uuids-on_server mbox w)

int_to_uint32-same : (u : ℤ) (n : ℕ) → int_to_uint32 u ≡ some n → pos n ≡ u
unfolding int_to_uint32
int_to_uint32-same (pos k) n h = ground (arith, h)
int_to_uint32-same (negsuc k) n h = ground (arith, h)

seqset_of-same : (us : List ℤ) (ns : List ℕ) → seqset_of us ≡ some ns → map pos ns ≡ us
unfolding seqset_of
seqset_of-same [] ns h = ap (map pos) (sym (some-injective [] ns h))
seqset_of-same (u ∷ us) ns h = elim (Option-cases (int_to_uint32 u)) [
  | inl e ↦ absurd (ground arith)
  | inr (n, e) ↦ elim (Option-cases (seqset_of us)) [
    | inl f ↦ absurd (ground arith)
    | inr (rest, f) ↦
        let same : n ∷ rest ≡ ns = ground arith in
        ap (map pos) (sym same)
        ∙ ap (λ x. x ∷ map pos rest) (int_to_uint32-same u n e)
        ∙ ap (λ xs. u ∷ xs) (seqset_of-same us rest f)
  ]
]

-- The numbers that are asked for.
pub start_retrieval-same :
    (us : List ℤ) (ns : List ℕ) → start_retrieval us ≡ started ns → map pos ns ≡ us
unfolding start_retrieval
start_retrieval-same us ns h = elim (Bool-cases (all is_positive us)) [
  | inr e ↦ absurd (ground arith)
  | inl e ↦ elim (Option-cases (seqset_of us)) [
    | inl f ↦ absurd (ground arith)
    | inr (rest, f) ↦
        let same : rest ≡ ns = ground arith in
        subst (λ xs. map pos xs ≡ us) same (seqset_of-same us rest f)
  ]
]
