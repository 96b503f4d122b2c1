-- ===== src/Download/Pipeline/Invariant.antt =====
-- What is still to come in the pipeline of core/download.go, and when its goroutines end.
pub mod Preserved
use mathlib.Core.Path.{subst}
use go_imapgrab.Base.{
  ℕ, suc, ◌+◌, ◌-◌, ◌≡◌, refl, sym, ap, ◌∙◌, Bool, true, false, Option, none, some, List, [], ◌∷◌,
  ◌++◌, append_assoc, append-nil, ℤ, ◌⊎◌, inl, inr, arith, if◌then◌else◌,
}
use go_imapgrab.Oldmail.{Oldmail}
use go_imapgrab.Oldmail.Writeout.{WriteAnswer, Writer, write_all}
use go_imapgrab.Download.{Message, Store, deliver_one, streaming_delivery}
use go_imapgrab.Download.Pipeline.{
  Delivery, receiving, sending, closing, ended, Writeout, writing, closed, done, State, delivered,
  write_record, close_file,
}

abbrev Records : Type 0
Records = List (Oldmail × WriteAnswer)

-- What comes out when the rest of the messages is delivered and the queue and their records are
-- written, one after the other: the writer, the errors of the delivery, and the store.
unfoldable pub outcome : ℤ → List Message → Store → ℕ → Records → Writer → Writer × ℕ × Store
outcome v rest store errs queue w =
    let (oms, more, final) = streaming_delivery v rest store in
    (write_all w (queue ++ oms), errs + more, final)

abbrev pub in_hand : Delivery → Records
in_hand receiving = []
in_hand (sending r) = r ∷ []
in_hand closing = []
in_hand ended = []

abbrev pub outcome_of : ℤ → State → Writer × ℕ × Store
outcome_of v s =
    outcome v (s.message_chan ++ s.incoming) s.store s.deliver_errs
      (s.delivered_chan ++ in_hand s.delivery) s.writer

abbrev pub open_fetch : Bool → ℕ
open_fetch true = 0
open_fetch false = 1

abbrev pub open_delivery : Delivery → ℕ
open_delivery receiving = 1
open_delivery (sending r) = 1
open_delivery closing = 0
open_delivery ended = 0

abbrev pub open_writeout : Writeout → ℕ
open_writeout writing = 1
open_writeout closed = 1
open_writeout done = 0

abbrev pub DeliveryOver : Delivery → List Message → Bool → Type 0
DeliveryOver receiving chan over = Unit
DeliveryOver (sending r) chan over = Unit
DeliveryOver closing chan over = (chan ≡ []) × (over ≡ true)
DeliveryOver ended chan over = (chan ≡ []) × (over ≡ true)

abbrev pub close_count : Bool → ℕ
close_count true = 1
close_count false = 0

abbrev pub WriteoutOver : Bool → Writeout → Records → Delivery → ℕ → Type 0
WriteoutOver fails writing chan d errs = errs ≡ 0
WriteoutOver fails closed chan d errs = (chan ≡ []) × (d ≡ ended) × (errs ≡ close_count fails)
WriteoutOver fails done chan d errs = (chan ≡ []) × (d ≡ ended) × (errs ≡ close_count fails)

-- What the outcome will be does not change, and who has ended has nothing left to do.
pub record Good (v : ℤ) (fails : Bool) (end : Writer × ℕ × Store) (s : State) : Type 0 where
  pub leads : outcome_of v s ≡ end
  pub counted : s.wg ≡ open_fetch s.fetched + open_delivery s.delivery + open_writeout s.writeout
  pub messages_over : (s.message_chan_closed ≡ false) ⊎ (s.incoming ≡ [])
  pub delivery_over : DeliveryOver s.delivery s.message_chan s.message_chan_closed
  pub writeout_over : WriteoutOver fails s.writeout s.delivered_chan s.delivery s.close_errs

-- The outcome behind one round of the delivery.
abbrev outcome_delivered :
    ℤ → Message → List Message → Store × Option Oldmail → ℕ → Records → Writer → Writer × ℕ × Store
outcome_delivered v m ms (store', none) errs queue w = outcome v ms store' (suc errs) queue w
outcome_delivered v m ms (store', some om) errs queue w =
    outcome v ms store' errs (queue ++ (om, m.remember) ∷ []) w

abbrev delivery_round : ℤ → Message → List Message → Store × Option Oldmail → Records × ℕ × Store
delivery_round v m ms (store', r) =
    let (oms, errs, final) = streaming_delivery v ms store' in
    elim r [ none ↦ (oms, errs + 1, final) | some om ↦ ((om, m.remember) ∷ oms, errs, final) ]

outcome_round :
    (v : ℤ) (m : Message) (ms : List Message) (p : Store × Option Oldmail) (errs : ℕ)
    (queue : Records) (w : Writer)
    → (
      write_all w (queue ++ (delivery_round v m ms p).0),
      errs + (delivery_round v m ms p).1,
      (delivery_round v m ms p).2,
    )
      ≡ outcome_delivered v m ms p errs queue w
unfolding outcome
outcome_round v m ms (store', none) errs queue w =
    ap
      (λ n. (
        write_all w (queue ++ (streaming_delivery v ms store').0),
        n,
        (streaming_delivery v ms store').2,
      ))
      (omega arith)
outcome_round v m ms (store', some om) errs queue w =
    ap
      (λ q. (
        write_all w q,
        errs + (streaming_delivery v ms store').1,
        (streaming_delivery v ms store').2,
      ))
      (sym (append_assoc queue ((om, m.remember) ∷ []) (streaming_delivery v ms store').0))

outcome-deliver :
    (v : ℤ) (m : Message) (ms : List Message) (store : Store) (errs : ℕ) (queue : Records)
    (w : Writer)
    → outcome v (m ∷ ms) store errs queue w
      ≡ outcome_delivered v m ms (deliver_one v m store) errs queue w
unfolding outcome streaming_delivery
outcome-deliver v m ms store errs queue w =
    outcome_round v m ms (deliver_one v m store) errs queue w

outcome-write :
    (v : ℤ) (rest : List Message) (store : Store) (errs : ℕ) (r : Oldmail × WriteAnswer)
    (queue : Records) (w : Writer)
    → outcome v rest store errs (r ∷ queue) w ≡ outcome v rest store errs queue (write_record r w)
unfolding outcome write_all write_record
outcome-write v rest store errs r queue w = refl

DeliveryOver-open :
    (d : Delivery) (chan chan' : List Message) (over : Bool)
    → over ≡ false
    → DeliveryOver d chan over
    → DeliveryOver d chan' over
DeliveryOver-open receiving chan chan' over e h = tt
DeliveryOver-open (sending r) chan chan' over e h = tt
DeliveryOver-open closing chan chan' over e h = absurd (ground arith)
DeliveryOver-open ended chan chan' over e h = absurd (ground arith)

DeliveryOver-closed :
    (d : Delivery) (chan : List Message) (over : Bool)
    → DeliveryOver d chan over
    → DeliveryOver d chan true
DeliveryOver-closed receiving chan over h = tt
DeliveryOver-closed (sending r) chan over h = tt
DeliveryOver-closed closing chan over h = (h.0, refl)
DeliveryOver-closed ended chan over h = (h.0, refl)

-- As long as the delivery has not ended, the file is not closed.
WriteoutOver-early :
    (fails : Bool) (wo : Writeout) (chan chan' : Records) (d d' : Delivery) (errs : ℕ)
    → (d ≡ ended → ⊥)
    → WriteoutOver fails wo chan d errs
    → WriteoutOver fails wo chan' d' errs
WriteoutOver-early fails writing chan chan' d d' errs n h = h
WriteoutOver-early fails closed chan chan' d d' errs n h = absurd (n h.1)
WriteoutOver-early fails done chan chan' d d' errs n h = absurd (n h.1)

receiving_ne_ended : receiving ≡ ended → ⊥
receiving_ne_ended e = cc

pub sending_ne_ended : (r : Oldmail × WriteAnswer) → sending r ≡ ended → ⊥
sending_ne_ended r e = cc

closing_ne_ended : closing ≡ ended → ⊥
closing_ne_ended e = cc

pub true_ne_false : true ≡ false → ⊥
true_ne_false e = cc

cons_ne_nil : (m : Message) (ms : List Message) → m ∷ ms ≡ [] → ⊥
cons_ne_nil m ms e = cc

count_close : (fails : Bool) {n : ℕ} → n ≡ 0 → (if fails then suc n else n) ≡ close_count fails
count_close true e = ap suc e
count_close false e = e
