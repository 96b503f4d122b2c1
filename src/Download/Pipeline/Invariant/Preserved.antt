-- ===== src/Download/Pipeline/Invariant/Preserved.antt =====
-- What will come out of the pipeline of core/download.go, behind each step of its goroutines.
use mathlib.Core.Path.{subst}
use go_imapgrab.Base.{
  ℕ, ◌-◌, ◌≡◌, sym, ap, ◌∙◌, Bool, true, false, Option, none, some, List, [], ◌∷◌, ◌++◌,
  append_assoc, append-nil, ℤ, inl, inr, arith,
}
use go_imapgrab.Oldmail.{Oldmail}
use go_imapgrab.Oldmail.Writeout.{WriteAnswer, Writer}
use go_imapgrab.Download.{Message, Store, deliver_one}
use go_imapgrab.Download.Pipeline.{
  Delivery, receiving, sending, closing, ended, writing, closed, done, State, delivered,
  write_record, close_file,
}
use go_imapgrab.Download.Pipeline.Invariant.{
  Records, outcome, in_hand, open_fetch, open_delivery, open_writeout, DeliveryOver, WriteoutOver,
  Good, outcome_delivered, outcome-deliver, outcome-write, DeliveryOver-open, DeliveryOver-closed,
  WriteoutOver-early, receiving_ne_ended, sending_ne_ended, closing_ne_ended, cons_ne_nil,
  count_close,
}

module _ (v : ℤ) (fails : Bool) (end : Writer × ℕ × Store) (s : State)
    (h : Good v fails end s) where
  pub hands_on-Good :
      (m : Message) (ms : List Message)
      → s.incoming ≡ m ∷ ms
      → Good v fails end (record s { incoming = ms; message_chan = s.message_chan ++ m ∷ [] })
  hands_on-Good m ms e =
      let still : s.message_chan_closed ≡ false = elim h.messages_over [
        | inl o ↦ o
        | inr n ↦ absurd (cons_ne_nil m ms (sym e ∙ n))
      ] in
      record {
        leads =
            ap
              (λ l.
                outcome v l s.store s.deliver_errs (s.delivered_chan ++ in_hand s.delivery)
                  s.writer)
              (append_assoc s.message_chan (m ∷ []) ms ∙ ap (λ l. s.message_chan ++ l) (sym e))
            ∙ h.leads;
        counted = h.counted;
        messages_over = inl still;
        delivery_over =
            DeliveryOver-open s.delivery s.message_chan (s.message_chan ++ m ∷ [])
              s.message_chan_closed still h.delivery_over;
        writeout_over = h.writeout_over;
      }

  pub closes_messages-Good :
      s.incoming ≡ [] → Good v fails end (record s { message_chan_closed = true })
  closes_messages-Good e = record {
    leads = h.leads;
    counted = h.counted;
    messages_over = inr e;
    delivery_over =
        DeliveryOver-closed s.delivery s.message_chan s.message_chan_closed h.delivery_over;
    writeout_over = h.writeout_over;
  }

  pub fetch_done-Good :
      s.fetched ≡ false → Good v fails end (record s { fetched = true; wg = s.wg - 1 })
  fetch_done-Good e = record {
    leads = h.leads;
    counted = omega (arith, h.counted, ap open_fetch e);
    messages_over = h.messages_over;
    delivery_over = h.delivery_over;
    writeout_over = h.writeout_over;
  }

  pub sends-Good :
      (r : Oldmail × WriteAnswer)
      → s.delivery ≡ sending r
      → Good v fails end
          (record s { delivery = receiving; delivered_chan = s.delivered_chan ++ r ∷ [] })
  sends-Good r e = record {
    leads =
        ap (λ q. outcome v (s.message_chan ++ s.incoming) s.store s.deliver_errs q s.writer)
          (append-nil (s.delivered_chan ++ r ∷ [])
            ∙ ap (λ d. s.delivered_chan ++ in_hand d) (sym e))
        ∙ h.leads;
    counted = omega (arith, h.counted, ap open_delivery e);
    messages_over = h.messages_over;
    delivery_over = tt;
    writeout_over =
        WriteoutOver-early fails s.writeout s.delivered_chan (s.delivered_chan ++ r ∷ []) s.delivery
          receiving s.close_errs (subst (λ d. d ≡ ended → ⊥) (sym e) (sending_ne_ended r))
          h.writeout_over;
  }

  pub delivery_done-Good :
      s.delivery ≡ receiving
      → s.message_chan ≡ []
      → s.message_chan_closed ≡ true
      → Good v fails end (record s { delivery = closing; wg = s.wg - 1 })
  delivery_done-Good e n c = record {
    leads =
        ap
          (λ d.
            outcome v (s.message_chan ++ s.incoming) s.store s.deliver_errs (s.delivered_chan ++ d)
              s.writer)
          (ap in_hand (sym e))
        ∙ h.leads;
    counted = omega (arith, h.counted, ap open_delivery e);
    messages_over = h.messages_over;
    delivery_over = (n, c);
    writeout_over =
        WriteoutOver-early fails s.writeout s.delivered_chan s.delivered_chan s.delivery closing
          s.close_errs (subst (λ d. d ≡ ended → ⊥) (sym e) receiving_ne_ended) h.writeout_over;
  }

  pub closes_delivered-Good :
      s.delivery ≡ closing → Good v fails end (record s { delivery = ended })
  closes_delivered-Good e = record {
    leads =
        ap
          (λ d.
            outcome v (s.message_chan ++ s.incoming) s.store s.deliver_errs (s.delivered_chan ++ d)
              s.writer)
          (ap in_hand (sym e))
        ∙ h.leads;
    counted = omega (arith, h.counted, ap open_delivery e);
    messages_over = h.messages_over;
    delivery_over =
        subst (λ d. DeliveryOver d s.message_chan s.message_chan_closed) e h.delivery_over;
    writeout_over =
        WriteoutOver-early fails s.writeout s.delivered_chan s.delivered_chan s.delivery ended
          s.close_errs (subst (λ d. d ≡ ended → ⊥) (sym e) closing_ne_ended) h.writeout_over;
  }

  pub writes-Good :
      (r : Oldmail × WriteAnswer) (rs : Records)
      → s.writeout ≡ writing
      → s.delivered_chan ≡ r ∷ rs
      → Good v fails end (record s { delivered_chan = rs; writer = write_record r s.writer })
  writes-Good r rs e f = record {
    leads =
        sym (
          outcome-write v (s.message_chan ++ s.incoming) s.store s.deliver_errs r
            (rs ++ in_hand s.delivery) s.writer)
        ∙ ap
            (λ q.
              outcome v (s.message_chan ++ s.incoming) s.store s.deliver_errs
                (q ++ in_hand s.delivery) s.writer)
            (sym f)
        ∙ h.leads;
    counted = h.counted;
    messages_over = h.messages_over;
    delivery_over = h.delivery_over;
    writeout_over =
        subst (λ wo. WriteoutOver fails wo rs s.delivery s.close_errs) (sym e)
          (subst (λ wo. WriteoutOver fails wo s.delivered_chan s.delivery s.close_errs) e
            h.writeout_over);
  }

  pub closes_file-Good :
      s.writeout ≡ writing
      → s.delivered_chan ≡ []
      → s.delivery ≡ ended
      → Good v fails end (close_file fails s)
  unfolding close_file
  closes_file-Good e f d = record {
    leads = h.leads;
    counted = omega (arith, h.counted, ap open_writeout e);
    messages_over = h.messages_over;
    delivery_over = h.delivery_over;
    writeout_over = (
      f,
      d,
      count_close fails (
          subst (λ wo. WriteoutOver fails wo s.delivered_chan s.delivery s.close_errs) e
            h.writeout_over),
    );
  }

  pub writeout_done-Good :
      s.writeout ≡ closed → Good v fails end (record s { writeout = done; wg = s.wg - 1 })
  writeout_done-Good e = record {
    leads = h.leads;
    counted = omega (arith, h.counted, ap open_writeout e);
    messages_over = h.messages_over;
    delivery_over = h.delivery_over;
    writeout_over =
        subst (λ wo. WriteoutOver fails wo s.delivered_chan s.delivery s.close_errs) e
          h.writeout_over;
  }

  later :
      (d : Delivery)
      → s.delivery ≡ receiving
      → WriteoutOver fails s.writeout s.delivered_chan d s.close_errs
  later d e =
      WriteoutOver-early fails s.writeout s.delivered_chan s.delivered_chan s.delivery d
        s.close_errs (subst (λ d. d ≡ ended → ⊥) (sym e) receiving_ne_ended) h.writeout_over

  ahead :
      (m : Message) (ms : List Message) (p : Store × Option Oldmail)
      → s.delivery ≡ receiving
      → s.message_chan ≡ m ∷ ms
      → p ≡ deliver_one v m s.store
      → outcome_delivered v m (ms ++ s.incoming) p s.deliver_errs (s.delivered_chan ++ []) s.writer
        ≡ end
  ahead m ms p e f g =
      ap
        (λ q.
          outcome_delivered v m (ms ++ s.incoming) q s.deliver_errs (s.delivered_chan ++ [])
            s.writer)
        g
      ∙ sym (
          outcome-deliver v m (ms ++ s.incoming) s.store s.deliver_errs (s.delivered_chan ++ [])
            s.writer)
      ∙ ap
          (λ d.
            outcome v (m ∷ ms ++ s.incoming) s.store s.deliver_errs (s.delivered_chan ++ d)
              s.writer)
          (ap in_hand (sym e))
      ∙ ap
          (λ c.
            outcome v (c ++ s.incoming) s.store s.deliver_errs
              (s.delivered_chan ++ in_hand s.delivery) s.writer)
          (sym f)
      ∙ h.leads

  pub delivers-Good :
      (m : Message) (ms : List Message) (p : Store × Option Oldmail)
      → s.delivery ≡ receiving
      → s.message_chan ≡ m ∷ ms
      → p ≡ deliver_one v m s.store
      → Good v fails end (delivered m p (record s { message_chan = ms }))
  unfolding delivered
  delivers-Good m ms (store', none) e f g = record {
    leads = ahead m ms (store', none) e f g;
    counted = omega (arith, h.counted, ap open_delivery e);
    messages_over = h.messages_over;
    delivery_over = tt;
    writeout_over = later receiving e;
  }
  delivers-Good m ms (store', some om) e f g = record {
    leads =
        ap (λ q. outcome v (ms ++ s.incoming) store' s.deliver_errs q s.writer)
          (ap (λ c. c ++ (om, m.remember) ∷ []) (sym (append-nil s.delivered_chan)))
        ∙ ahead m ms (store', some om) e f g;
    counted = omega (arith, h.counted, ap open_delivery e);
    messages_over = h.messages_over;
    delivery_over = tt;
    writeout_over = later (sending (om, m.remember)) e;
  }
