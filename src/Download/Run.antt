-- ===== src/Download/Run.antt =====
-- One run over a folder, and the next (`downloadMissingEmailsToFolder` of core/download.go).
use go_imapgrab.Base.{
  ℕ, ◌≡◌, refl, ◌∙◌, ap, false, Option, none, some, Option-cases, List, ◌++◌, inl, inr, Bytes, ℤ,
  length, All, arith,
}
use go_imapgrab.Email.{rfc822_from_email}
use go_imapgrab.Maildir.{Maildir}
use go_imapgrab.Oldmail.{Oldmail, format_oldmails, parse_oldmails, Fits}
use go_imapgrab.Oldmail.Writeout.{WriteAnswer, streaming_oldmail_writeout, records_of}
use go_imapgrab.Oldmail.Writeout.Content.{read_after_writeout}
use go_imapgrab.Download.{
  World, FolderState, Message, hand_on, streaming_retrieval, streaming_delivery, run_pipeline,
}
use go_imapgrab.Download.Deliveries.{
  Kept, nothing, lost, kept, Grows, streaming_delivery-Grows, streaming_delivery-Kept,
  streaming_delivery_counts,
}

-- The numbers of the email that a message holds, if it holds one, fit 64 bits.
abbrev pub MessageFits : ℤ → Message → Type 0
MessageFits v m = (t : Bytes) (om : Oldmail) → rfc822_from_email m.fields v ≡ inl (t, om) → Fits om

kept-Fits :
    (v : ℤ) (d : Maildir) (ms : List Message) (oms : List (Oldmail × WriteAnswer))
    → Kept v d ms oms
    → All (MessageFits v) ms
    → All Fits (records_of oms)
kept-Fits v d _ _ nothing h = tt
kept-Fits v d _ _ (lost m ms oms k) h = kept-Fits v d ms oms k h.1
kept-Fits v d _ _ (kept m ms om oms t n e i k) h = (h.0 t om e, kept-Fits v d ms oms k h.1)

-- What a run without errors has done: each message of the server is an email of `new` and a record
-- behind those that were there, and no email of `new` is lost.
pub record IsComplete (w : World) (v : ℤ) (nums : List ℕ) (olds : List Oldmail) (f g : FolderState)
    : Type 0 where
  pub new_records : List (Oldmail × WriteAnswer)
  pub all_kept : Kept v g.store.1 (hand_on (w.polls nums)).0 new_records
  pub none_lost : length new_records ≡ length (hand_on (w.polls nums)).0
  pub content : Bytes
  pub file : g.oldmail ≡ some content
  pub reads : parse_oldmails content ≡ (olds ++ records_of new_records, none)
  pub grows : Grows f.store.1 g.store.1
  pub fetched : w.fetch_fails ≡ false
  pub not_interrupted : (hand_on (w.polls nums)).1 ≡ false

module _ (w : World) (v : ℤ) (nums : List ℕ) (f : FolderState) where
  abbrev sent : List Message
  sent = (hand_on (w.polls nums)).0

  abbrev written_file : Option (Bytes × ℕ)
  written_file =
      streaming_oldmail_writeout w.open_fails f.oldmail (streaming_delivery v sent f.store).0
        w.close_fails

  run_pipeline_opened :
      (run_pipeline w v nums f).1 ≡ none
      → (content : Bytes) × (written_file ≡ some (content, 0))
        × ((run_pipeline w v nums f).0.oldmail ≡ some content)
        × ((run_pipeline w v nums f).0.store ≡ (streaming_delivery v sent f.store).2)
        × ((streaming_delivery v sent f.store).1 ≡ 0)
        × (w.fetch_fails ≡ false)
        × ((hand_on (w.polls nums)).1 ≡ false)
  unfolding run_pipeline streaming_retrieval
  run_pipeline_opened h = elim (Option-cases written_file) [
    | inl e ↦ absurd (ground arith)
    | inr ((content, n), e) ↦
        let zero_errors : n ≡ 0 = ground arith in
        (
          content,
          e ∙ ap (λ k. some (content, k)) zero_errors,
          rw (run_pipeline, e) refl,
          rw (run_pipeline, e) refl,
          ground arith,
          ground arith,
          ground arith,
        )
  ]

  -- A run without errors over a file that holds records and over messages whose numbers fit 64 bits
  -- is complete: all that the server sent is in `new` and is read back, behind the old records.
  pub run_pipeline-IsComplete :
      (olds : List Oldmail)
      → f.oldmail ≡ some (format_oldmails olds)
      → All Fits olds
      → All (MessageFits v) (hand_on (w.polls nums)).0
      → (run_pipeline w v nums f).1 ≡ none
      → IsComplete w v nums olds f (run_pipeline w v nums f).0
  run_pipeline-IsComplete olds o fits ms h =
      let (content, e, file, st, errs, ff, ni) = run_pipeline_opened h in
      record {
        new_records = (streaming_delivery v sent f.store).0;
        all_kept = rw st (streaming_delivery-Kept v sent f.store);
        none_lost = omega (arith, streaming_delivery_counts v sent f.store);
        content = content;
        file = file;
        reads =
            read_after_writeout w.open_fails w.close_fails olds
              (streaming_delivery v sent f.store).0 content fits
              (kept-Fits v _ sent _ (streaming_delivery-Kept v sent f.store) ms) (rw⁻¹ o e);
        grows = rw st (streaming_delivery-Grows v sent f.store);
        fetched = ff;
        not_interrupted = ni;
      }
