-- ===== src/Download/Again.antt =====
-- After a run without errors the next one finds nothing to download (core/download.go, core/ids.go).
use go_imapgrab.Base.{
  ℕ, ◌≡◌, ◌≤◌, refl, none, some, List, [], ◌∷◌, inl, Bytes, ℤ, length, All, arith,
}
use go_imapgrab.Email.{rfc822_from_email}
use go_imapgrab.Email.Exact.{rfc822_from_email_exact}
use go_imapgrab.Maildir.{Maildir}
use go_imapgrab.Ids.{UidExt, determine_missing_uids, oldmail_uids}
use go_imapgrab.Ids.Missing.{IsConsistent, determine_missing_uids_done}
use go_imapgrab.Oldmail.{Oldmail, format_oldmails, parse_oldmails, Fits}
use go_imapgrab.Oldmail.Writeout.{WriteAnswer, records_of}
use go_imapgrab.Download.{World, FolderState, Message, hand_on, run_pipeline}
use go_imapgrab.Download.Deliveries.{Kept, nothing, lost, kept}
use go_imapgrab.Download.Run.{MessageFits, run_pipeline-IsComplete}

-- The server answers a request for some UIDs with their emails, one for each and in this order.
pub data Answered (v : ℤ) : List ℤ → List Message → Type 0 where
  no_more : Answered v [] []
  answered :
      (m : Message) (t : Bytes) (om : Oldmail) (us : List ℤ) (ms : List Message)
      → rfc822_from_email m.fields v ≡ inl (t, om)
      → Answered v us ms
      → Answered v (om.uid ∷ us) (m ∷ ms)

length-kept-le :
    (v : ℤ) (d : Maildir) (ms : List Message) (oms : List (Oldmail × WriteAnswer))
    → Kept v d ms oms
    → length oms ≤ length ms
length-kept-le v d _ _ nothing = omega arith
length-kept-le v d _ _ (lost m ms oms k) = omega (arith, length-kept-le v d ms oms k)
length-kept-le v d _ _ (kept m ms om oms t n e i k) = omega (arith, length-kept-le v d ms oms k)

kept-uids :
    (v : ℤ) (d : Maildir) (us : List ℤ) (ms : List Message) (oms : List (Oldmail × WriteAnswer))
    → Answered v us ms
    → Kept v d ms oms
    → length oms ≡ length ms
    → oldmail_uids (records_of oms) ≡ us
kept-uids v d _ _ _ no_more nothing h = refl
kept-uids v d _ _ _ (answered m t om us ms e a) (lost m' ms' oms k) h =
    absurd (omega (arith, length-kept-le v d ms oms k))
kept-uids v d _ _ _ (answered m t om us ms e a) (kept m' ms' om' oms t' n e' i k) h =
    let same : om' ≡ om = cc in
    let rest = kept-uids v d us ms oms a k (omega arith) in rw (same, rest) refl

kept-folder :
    (v : ℤ) (d : Maildir) (ms : List Message) (oms : List (Oldmail × WriteAnswer))
    → Kept v d ms oms
    → All (λ om. om.uid_folder ≡ v) (records_of oms)
kept-folder v d _ _ nothing = tt
kept-folder v d _ _ (lost m ms oms k) = kept-folder v d ms oms k
kept-folder v d _ _ (kept m ms om oms t n e i k) =
    (((rfc822_from_email_exact m.fields v t om).0 e).folder, kept-folder v d ms oms k)

-- When the oldmail file held records consistent with the UIDs on the server, a run has ended without
-- errors, and the server has answered the request for the missing UIDs with their emails, one for
-- each and in this order, then what is read from the oldmail file leaves nothing missing of the same
-- UIDs. The numbers of the records and of the messages fit 64 bits.
pub nothing_missing_after_run :
    (w : World) (v : ℤ) (nums : List ℕ) (f : FolderState) (olds : List Oldmail) (uids : List UidExt)
    (missing : List ℤ)
    → f.oldmail ≡ some (format_oldmails olds)
    → All Fits olds
    → All (MessageFits v) (hand_on (w.polls nums)).0
    → IsConsistent v olds uids
    → determine_missing_uids olds uids ≡ inl missing
    → Answered v missing (hand_on (w.polls nums)).0
    → (run_pipeline w v nums f).1 ≡ none
    → (content : Bytes) × ((run_pipeline w v nums f).0.oldmail ≡ some content)
      × (determine_missing_uids (parse_oldmails content).0 uids ≡ inl [])
nothing_missing_after_run w v nums f olds uids missing o fits ms c miss a h =
    let r = run_pipeline-IsComplete w v nums f olds o fits ms h in
    (
      r.content,
      r.file,
      rw r.reads (
          determine_missing_uids_done v olds (records_of r.new_records) uids missing c miss
            (kept-folder v _ _ _ r.all_kept) (kept-uids v _ missing _ _ a r.all_kept r.none_lost)),
    )
