-- ===== src/Download/Pipeline/Outcome.antt =====
-- What the goroutines of a download (core/download.go) leave, beside `run_pipeline`.
use mathlib.Core.Path.{subst}
use go_imapgrab.Base.{
  ℕ, ◌+◌, ◌≡◌, refl, sym, ap, ◌∙◌, Bool, true, false, ◌||◌, Option, none, some, List, [], ◌++◌,
  Bytes, ℤ, ltb, inl, inr, arith, if◌then◌else◌,
}
use go_imapgrab.Oldmail.Writeout.{Writer, write_all, opened, content_of, streaming_oldmail_writeout}
use go_imapgrab.Download.{
  Message, Store, FolderState, World, DownloadError, errors_in_pipeline, cannot_open, hand_on,
  streaming_delivery, streaming_retrieval, run_pipeline,
}
use go_imapgrab.Download.Pipeline.{
  ended, Writeout, writing, closed, done, State, first_state, Step, starts, hands_on,
  closes_messages, fetch_done, delivers, sends, delivery_done, closes_delivered, writes,
  closes_file, writeout_done, Steps, here, next,
}
use go_imapgrab.Download.Pipeline.Invariant.{
  outcome, outcome_of, in_hand, DeliveryOver, WriteoutOver, close_count, open_writeout, Good,
  true_ne_false,
}
use go_imapgrab.Download.Pipeline.Invariant.Preserved.{
  hands_on-Good, closes_messages-Good, fetch_done-Good, delivers-Good, sends-Good,
  delivery_done-Good, closes_delivered-Good, writes-Good, closes_file-Good, writeout_done-Good,
}

module _ (v : ℤ) (fails : Bool) (end : Writer × ℕ × Store) where
  Step-Good : (s t : State) → Step v fails s t → Good v fails end s → Good v fails end t
  Step-Good s _ (starts e) h = record {
    leads = h.leads;
    counted = h.counted;
    messages_over = h.messages_over;
    delivery_over = h.delivery_over;
    writeout_over = h.writeout_over;
  }
  Step-Good s _ (hands_on m ms b e l) h = hands_on-Good v fails end s h m ms e
  Step-Good s _ (closes_messages b e c) h = closes_messages-Good v fails end s h e
  Step-Good s _ (fetch_done b e) h = fetch_done-Good v fails end s h e
  Step-Good s _ (delivers m ms b e c) h = delivers-Good v fails end s h m ms _ e c refl
  Step-Good s _ (sends r e l) h = sends-Good v fails end s h r e
  Step-Good s _ (delivery_done b e n c) h = delivery_done-Good v fails end s h e n c
  Step-Good s _ (closes_delivered e) h = closes_delivered-Good v fails end s h e
  Step-Good s _ (writes r rs b e c) h = writes-Good v fails end s h r rs e c
  Step-Good s _ (closes_file e n d) h = closes_file-Good v fails end s h e n d
  Step-Good s _ (writeout_done e) h = writeout_done-Good v fails end s h e

  pub Steps-Good :
      (n : ℕ) (s t : State) → Steps v fails n s t → Good v fails end s → Good v fails end t
  Steps-Good _ _ _ (here s) h = h
  Steps-Good _ _ _ (next n s t u m r) h = Steps-Good n t u r (Step-Good s t m h)

pub first_state-Good :
    (v : ℤ) (fails : Bool) (messages : List Message) (f : FolderState)
    → Good v fails
        (outcome v messages f.store 0 [] (opened (content_of f.oldmail)))
        (first_state messages f)
first_state-Good v fails messages f = record {
  leads = refl;
  counted = refl;
  messages_over = inl refl;
  delivery_over = tt;
  writeout_over = refl;
}

-- When all goroutines have called `wg.Done` nothing is on the way.
pub record IsThrough (fails : Bool) (s : State) : Type 0 where
  pub no_incoming : s.incoming ≡ []
  pub no_messages : s.message_chan ≡ []
  pub no_records : s.delivered_chan ≡ []
  pub at_end : s.delivery ≡ ended
  pub close_counted : s.close_errs ≡ close_count fails

done-IsThrough :
    (v : ℤ) (fails : Bool) (end : Writer × ℕ × Store) (s : State)
    → s.wg ≡ 0
    → Good v fails end s
    → IsThrough fails s
done-IsThrough v fails end s z h = go s.writeout refl
  where
    go : (wo : Writeout) → s.writeout ≡ wo → IsThrough fails s
    go writing e = absurd (omega (arith, z, h.counted, ap open_writeout e))
    go closed e = absurd (omega (arith, z, h.counted, ap open_writeout e))
    go done e =
        let (chan, d, errs) =
          subst (λ wo. WriteoutOver fails wo s.delivered_chan s.delivery s.close_errs) e
            h.writeout_over in
        let (messages, over) =
          subst (λ d. DeliveryOver d s.message_chan s.message_chan_closed) d h.delivery_over in
        record {
          no_incoming = elim h.messages_over [
            | inl o ↦ absurd (true_ne_false (sym over ∙ o))
            | inr n ↦ n
          ];
          no_messages = messages;
          no_records = chan;
          at_end = d;
          close_counted = errs;
        }

outcome_of-IsThrough :
    (v : ℤ) (fails : Bool) (s : State)
    → IsThrough fails s
    → outcome_of v s ≡ (s.writer, s.deliver_errs, s.store)
unfolding outcome streaming_delivery write_all
outcome_of-IsThrough v fails s t =
    ap (λ l. outcome v l s.store s.deliver_errs (s.delivered_chan ++ in_hand s.delivery) s.writer)
      (ap (λ l. l ++ s.incoming) t.no_messages ∙ t.no_incoming)
    ∙ ap (λ q. (write_all s.writer ((q ++ in_hand s.delivery) ++ []), s.deliver_errs + 0, s.store))
        t.no_records
    ∙ ap (λ d. (write_all s.writer (in_hand d ++ []), s.deliver_errs + 0, s.store)) t.at_end
    ∙ ap (λ k. (s.writer, k, s.store)) (omega arith)

-- What is reported at the end, and what becomes of the folder.
abbrev reported : FolderState → ℕ → ℕ → ℕ → Bytes → Store → FolderState × Option DownloadError
reported f fetch_errs deliver_errs oldmail_errs content store = (
  record f { oldmail = some content; store = store },
  if ltb 0 fetch_errs || ltb 0 deliver_errs || ltb 0 oldmail_errs
      then some (errors_in_pipeline fetch_errs deliver_errs oldmail_errs)
      else none,
)

abbrev closing_errs : Bool → Writer → ℕ
closing_errs fails w = if fails then w.err_count + 1 else w.err_count

abbrev behind :
    FolderState → ℕ → ℕ × Store → Option (Bytes × ℕ) → FolderState × Option DownloadError
behind f fetch_errs d none = (f, some cannot_open)
behind f fetch_errs (deliver_errs, store) (some (content, oldmail_errs)) =
    reported f fetch_errs deliver_errs oldmail_errs content store

abbrev report : FolderState → ℕ → Bool → Writer × ℕ × Store → FolderState × Option DownloadError
report f fetch_errs fails (w, deliver_errs, store) =
    reported f fetch_errs deliver_errs (closing_errs fails w) w.content store

closed_sum :
    (fails : Bool) (w : Writer) (n : ℕ)
    → n ≡ close_count fails
    → closing_errs fails w ≡ w.err_count + n
closed_sum true w n e = omega (arith, e)
closed_sum false w n e = omega (arith, e)

module _ (w : World) (v : ℤ) (nums : List ℕ) (f : FolderState) (n : ℕ) (s : State) where
  abbrev fetch_errs : ℕ
  fetch_errs = (streaming_retrieval w.fetch_fails (w.polls nums)).1

  abbrev oldmail_errs : ℕ
  oldmail_errs = s.writer.err_count + s.close_errs

  -- However the goroutines are interleaved: when all have called `wg.Done`, the files, the store and
  -- the error counts are those that the stages give one after the other, for the messages that the
  -- retrieval hands on. The oldmail file could be opened.
  pub run_pipeline-Steps :
      w.open_fails ≡ false
      → Steps v w.close_fails n (first_state (hand_on (w.polls nums)).0 f) s
      → s.wg ≡ 0
      → run_pipeline w v nums f ≡ (
        record f { oldmail = some s.writer.content; store = s.store },
        if ltb 0 fetch_errs || ltb 0 s.deliver_errs || ltb 0 oldmail_errs
            then some (errors_in_pipeline fetch_errs s.deliver_errs oldmail_errs)
            else none,
      )
  unfolding run_pipeline streaming_retrieval streaming_oldmail_writeout outcome
  run_pipeline-Steps o r z =
      let messages = (hand_on (w.polls nums)).0 in
      let start = opened (content_of f.oldmail) in
      let end = outcome v messages f.store 0 [] start in
      let good =
        Steps-Good v w.close_fails end n (first_state messages f) s r
          (first_state-Good v w.close_fails messages f) in
      let through = done-IsThrough v w.close_fails end s z good in
      let leads : end ≡ (s.writer, s.deliver_errs, s.store) =
        sym good.leads ∙ outcome_of-IsThrough v w.close_fails s through in
      let d = streaming_delivery v messages f.store in
      let opens : streaming_oldmail_writeout w.open_fails f.oldmail d.0 w.close_fails
          ≡ some ((write_all start d.0).content, closing_errs w.close_fails (write_all start d.0)) =
        rw o refl in
      ap (behind f fetch_errs (d.1, d.2)) opens
      ∙ ap (λ k. (report f fetch_errs w.close_fails (write_all start d.0, k, d.2))) (omega arith)
      ∙ ap (report f fetch_errs w.close_fails) leads
      ∙ ap (λ k. reported f fetch_errs s.deliver_errs k s.writer.content s.store)
          (closed_sum w.close_fails s.writer s.close_errs through.close_counted)
