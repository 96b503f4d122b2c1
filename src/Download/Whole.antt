-- ===== src/Download/Whole.antt =====
-- `downloadMissingEmailsToFolder` as a whole, from the check of the folder on disk (core/download.go,
-- core/maildir.go).
use mathlib.Core.Path.{subst}
use go_imapgrab.Base.{
  ℕ, ◌≡◌, refl, sym, ◌∙◌, ap, false, none, some, Option-cases, List, [], ◌∷◌, ◌++◌, map, ◌⊎◌, inl,
  inr, Bytes, ℤ, pos, length, All, arith,
}
use go_imapgrab.Email.Exact.{Result-cases}
use go_imapgrab.Ids.{determine_missing_uids}
use go_imapgrab.Oldmail.{Oldmail, format_oldmails, parse_oldmails, Fits}
use go_imapgrab.Oldmail.Writeout.{WriteAnswer, streaming_oldmail_writeout, records_of}
use go_imapgrab.Download.{
  World, FolderState, MailboxStatus, Start, not_positive, overflow, started, get_all_message_uuids,
  start_retrieval, hand_on, streaming_retrieval, streaming_delivery, init_maildir, run_pipeline,
  download_missing, download_selected, download_missing_emails_to_folder,
}
use go_imapgrab.Download.Deliveries.{Kept, Grows}
use go_imapgrab.Download.Run.{MessageFits, run_pipeline-IsComplete}
use go_imapgrab.Download.Sent.{
  messages_of, is_interrupt, hand_on_all, IsMissing, determine-IsMissing, start_retrieval-same,
}
use go_imapgrab.Download.Setup.{
  on_disk, IsMade, init_maildir-on_disk, init_maildir-store, init_maildir-reads,
  init_maildir-IsMade,
}

-- What a run has done that had something to download: with `nums` it has asked for the missing
-- UIDs, no more and no less; all emails that the server sent then are in `new` and are records
-- behind the old ones; and no email of the folder is lost.
pub record IsDownloaded (w : World) (v : ℤ) (missing : List ℤ) (olds : List Oldmail)
    (f g : FolderState) : Type 0 where
  pub nums : List ℕ
  pub asked : map pos nums ≡ missing
  pub new_records : List (Oldmail × WriteAnswer)
  pub all_kept : Kept v g.store.1 (messages_of (w.polls nums)) new_records
  pub none_lost : length new_records ≡ length (messages_of (w.polls nums))
  pub content : Bytes
  pub file : g.oldmail ≡ some content
  pub reads : parse_oldmails content ≡ (olds ++ records_of new_records, none)
  pub grows : Grows f.store.1 g.store.1
  pub fetched : w.fetch_fails ≡ false
  pub not_interrupted : All (λ p. is_interrupt p ≡ false) (w.polls nums)
  pub made : IsMade g

-- A run without errors found nothing to do, or has done all of it.
pub data Finished (w : World) (olds : List Oldmail) (f g : FolderState) : Type 0 where
  up_to_date :
      (mbox : MailboxStatus)
      → w.select ≡ some mbox
      → IsMissing mbox w olds []
      → g.store ≡ f.store
      → g.oldmail ≡ on_disk f
      → IsMade g
      → Finished w olds f g
  downloaded :
      (mbox : MailboxStatus) (missing : List ℤ)
      → w.select ≡ some mbox
      → IsMissing mbox w olds missing
      → IsDownloaded w (pos mbox.uid_validity) missing olds f g
      → Finished w olds f g

Start-cases :
    (s : Start) → ((s ≡ not_positive) ⊎ (s ≡ overflow)) ⊎ ((nums : List ℕ) × (s ≡ started nums))
Start-cases not_positive = inl (inl refl)
Start-cases overflow = inl (inr refl)
Start-cases (started nums) = inr (nums, refl)

module _ (w : World) (f : FolderState) where
  whole_run :
      (oldmails : List Oldmail) (mbox : MailboxStatus)
      → (init_maildir w.init f).1 ≡ inl oldmails
      → w.select ≡ some mbox
      → download_missing_emails_to_folder w f
        ≡ download_selected w oldmails mbox (init_maildir w.init f).0
  unfolding download_missing_emails_to_folder
  whole_run oldmails mbox i s = ground arith

  whole_run_none :
      (download_missing_emails_to_folder w f).1 ≡ none
      → (oldmails : List Oldmail) × (mbox : MailboxStatus) × ((init_maildir w.init f).1
          ≡ inl oldmails)
        × (w.select ≡ some mbox)
  unfolding download_missing_emails_to_folder
  whole_run_none h = elim (Result-cases (init_maildir w.init f).1) [
    | inr (e, i) ↦ absurd (ground arith)
    | inl (oldmails, i) ↦ elim (Option-cases w.select) [
      | inl s ↦ absurd (ground arith)
      | inr (mbox, s) ↦ (oldmails, mbox, i, s)
    ]
  ]

  selected_none :
      (oldmails : List Oldmail) (mbox : MailboxStatus)
      → (download_selected w oldmails mbox f).1 ≡ none
      → (missing : List ℤ) × (determine_missing_uids oldmails
            (get_all_message_uuids mbox w.uid_replies w.list_fails).0
          ≡ inl missing)
        × (download_selected w oldmails mbox f
            ≡ download_missing w (pos mbox.uid_validity) missing f)
  unfolding download_selected
  selected_none oldmails mbox h =
      elim (Result-cases (
        determine_missing_uids oldmails
          (get_all_message_uuids mbox w.uid_replies w.list_fails).0)) [
            | inr (e, i) ↦ absurd (ground arith)
            | inl (missing, i) ↦ (missing, i, ground arith)
          ]

  missing_none :
      (v : ℤ) (u : ℤ) (us : List ℤ)
      → (download_missing w v (u ∷ us) f).1 ≡ none
      → (nums : List ℕ) × (start_retrieval (u ∷ us) ≡ started nums)
        × (download_missing w v (u ∷ us) f ≡ run_pipeline w v nums f)
  unfolding download_missing
  missing_none v u us h = elim (Start-cases (start_retrieval (u ∷ us))) [
    | inl e ↦ absurd (ground arith)
    | inr (nums, e) ↦ (nums, e, rw (download_missing, e) refl)
  ]

run_pipeline-IsMade :
    (w : World) (v : ℤ) (nums : List ℕ) (f : FolderState)
    → IsMade f
    → IsMade (run_pipeline w v nums f).0
unfolding run_pipeline streaming_retrieval
run_pipeline-IsMade w v nums f h =
    let delivered = (streaming_delivery v (hand_on (w.polls nums)).0 f.store).0 in
    elim (Option-cases
      (streaming_oldmail_writeout w.open_fails f.oldmail delivered w.close_fails)) [
        | inl e ↦ rw (run_pipeline, e) h
        | inr (r, e) ↦ rw (run_pipeline, e) h
      ]

run_pipeline-IsDownloaded :
    (w : World) (v : ℤ) (missing : List ℤ) (nums : List ℕ) (olds : List Oldmail) (f g : FolderState)
    → start_retrieval missing ≡ started nums
    → f.oldmail ≡ some (format_oldmails olds)
    → All Fits olds
    → All (MessageFits v) (hand_on (w.polls nums)).0
    → IsMade f
    → (run_pipeline w v nums f).1 ≡ none
    → f.store ≡ g.store
    → IsDownloaded w v missing olds g (run_pipeline w v nums f).0
run_pipeline-IsDownloaded w v missing nums olds f g st o fits ms made h same =
    let r = run_pipeline-IsComplete w v nums f olds o fits ms h in
    let (all_sent, calm) = hand_on_all (w.polls nums) r.not_interrupted in
    record {
      nums = nums;
      asked = start_retrieval-same missing nums st;
      new_records = r.new_records;
      all_kept =
          subst (λ sent. Kept v (run_pipeline w v nums f).0.store.1 sent r.new_records) all_sent
            r.all_kept;
      none_lost = r.none_lost ∙ ap length all_sent;
      content = r.content;
      file = r.file;
      reads = r.reads;
      grows = subst (λ x. Grows x.1 (run_pipeline w v nums f).0.store.1) same r.grows;
      fetched = r.fetched;
      not_interrupted = calm;
      made = run_pipeline-IsMade w v nums f made;
    }

module _ (w : World) (f : FolderState) (olds : List Oldmail) where
  finished :
      (g : FolderState) (mbox : MailboxStatus) (missing : List ℤ) (r : FolderState)
      → w.select ≡ some mbox
      → IsMissing mbox w olds missing
      → g.store ≡ f.store
      → g.oldmail ≡ on_disk f
      → IsMade g
      → on_disk f ≡ some (format_oldmails olds)
      → All Fits olds
      → ((nums : List ℕ) → All (MessageFits (pos mbox.uid_validity)) (hand_on (w.polls nums)).0)
      → (download_missing w (pos mbox.uid_validity) missing g).1 ≡ none
      → (download_missing w (pos mbox.uid_validity) missing g).0 ≡ r
      → Finished w olds f r
  unfolding download_missing
  finished g mbox [] r s m st od made o fits ms h e =
      subst (Finished w olds f) e (up_to_date mbox s m st od made)
  finished g mbox (u ∷ us) r s m st od made o fits ms h e =
      let (nums, start, d) = missing_none w g (pos mbox.uid_validity) u us h in
      subst (Finished w olds f) (sym (ap (λ p. p.0) d) ∙ e) (
        downloaded mbox (u ∷ us) s m (
          run_pipeline-IsDownloaded w (pos mbox.uid_validity) (u ∷ us) nums olds g f start (od ∙ o)
            fits (ms nums) made (ap (λ p. p.1) (sym d) ∙ h) st))

  -- A run over a folder that reports no error has found no UID among those that the server has
  -- told of that no record names, and has left the emails and the oldmail file (an empty one for a
  -- new folder) as they were; or it has asked for exactly those of them that no record names, was
  -- not interrupted, every email that the server then sent is an email in `new` and a record that
  -- is read back behind the old ones, and no email was lost. In both cases all directories of the
  -- maildir are there. The oldmail file holds records at the start, or the folder is new; the
  -- numbers of the records and of the messages fit 64 bits.
  pub download_missing_emails_to_folder-Finished :
      on_disk f ≡ some (format_oldmails olds)
      → All Fits olds
      → ((mbox : MailboxStatus) (nums : List ℕ)
          → w.select ≡ some mbox
          → All (MessageFits (pos mbox.uid_validity)) (hand_on (w.polls nums)).0)
      → (download_missing_emails_to_folder w f).1 ≡ none
      → Finished w olds f (download_missing_emails_to_folder w f).0
  download_missing_emails_to_folder-Finished o fits ms h =
      let (oldmails, mbox, i, s) = whole_run_none w f h in
      let same = init_maildir-reads w.init f oldmails olds o fits i in
      let g = (init_maildir w.init f).0 in
      let e = whole_run w f oldmails mbox i s in
      let (missing, m, e') = selected_none w g oldmails mbox (ap (λ p. p.1) (sym e) ∙ h) in
      let whole =
        subst
          (λ l.
            determine_missing_uids l (get_all_message_uuids mbox w.uid_replies w.list_fails).0
            ≡ inl missing)
          same m in
      finished g mbox missing _ s (determine-IsMissing mbox w olds missing whole)
        (init_maildir-store w.init f oldmails i) (init_maildir-on_disk w.init f oldmails i)
        (init_maildir-IsMade w.init f oldmails i) o fits (λ nums. ms mbox nums s)
        (ap (λ p. p.1) (sym (e ∙ e')) ∙ h) (ap (λ p. p.0) (sym (e ∙ e')))
