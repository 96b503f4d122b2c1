-- ===== src/Download/Pipeline/Progress.antt =====
-- The number of steps of the goroutines of core/download.go, and the next of them.
use mathlib.Core.Path.{subst}
use go_imapgrab.Base.{
  ℕ, ◌+◌, ◌*◌, ◌≤◌, ◌<◌, ◌≡◌, refl, sym, ap, ◌∙◌, Bool, true, false, Option, none, some, List, [],
  ◌∷◌, ℤ, length, length-append, ◌⊎◌, inl, inr, arith,
}
use go_imapgrab.Oldmail.{Oldmail}
use go_imapgrab.Oldmail.Writeout.{WriteAnswer, Writer, opened, content_of}
use go_imapgrab.Download.{Message, Store, FolderState, deliver_one}
use go_imapgrab.Download.Pipeline.{
  Delivery, receiving, sending, closing, ended, Writeout, writing, closed, done, State, first_state,
  delivered, close_file, Step, starts, hands_on, closes_messages, fetch_done, delivers, sends,
  delivery_done, closes_delivered, writes, closes_file, writeout_done, Steps, here, next,
}
use go_imapgrab.Download.Pipeline.Invariant.{
  outcome, WriteoutOver, open_fetch, open_delivery, open_writeout, Good, sending_ne_ended,
}
use go_imapgrab.Download.Pipeline.Outcome.{Steps-Good, first_state-Good}

abbrev to_do : Bool → ℕ
to_do true = 0
to_do false = 1

abbrev delivery_weight : Delivery → ℕ
delivery_weight receiving = 2
delivery_weight (sending r) = 4
delivery_weight closing = 1
delivery_weight ended = 0

abbrev writeout_weight : Writeout → ℕ
writeout_weight writing = 2
writeout_weight closed = 1
writeout_weight done = 0

-- The steps that are left, at most.
abbrev measure : State → ℕ
measure s =
    to_do s.started
    + 4 * length s.incoming
    + 3 * length s.message_chan
    + to_do s.message_chan_closed
    + to_do s.fetched
    + delivery_weight s.delivery
    + length s.delivered_chan
    + writeout_weight s.writeout

delivered-measure :
    (m : Message) (p : Store × Option Oldmail) (s : State)
    → s.delivery ≡ receiving
    → measure (delivered m p s) ≤ measure s + 2
unfolding delivered
delivered-measure m (store', none) s e = omega (arith, ap delivery_weight e)
delivered-measure m (store', some om) s e = omega (arith, ap delivery_weight e)

module _ (v : ℤ) (fails : Bool) where
  Step-measure : (s t : State) → Step v fails s t → measure t < measure s
  unfolding close_file
  Step-measure s _ (starts e) = omega (arith, ap to_do e)
  Step-measure s _ (hands_on m ms b e l) =
      omega (arith, ap length e, length-append s.message_chan (m ∷ []))
  Step-measure s _ (closes_messages b e c) = omega (arith, ap to_do c)
  Step-measure s _ (fetch_done b e) = omega (arith, ap to_do e)
  Step-measure s _ (delivers m ms b e c) = omega (
    arith,
    delivered-measure m (deliver_one v m s.store) (record s { message_chan = ms }) e,
    ap length c,
  )
  Step-measure s _ (sends r e l) =
      omega (arith, ap delivery_weight e, length-append s.delivered_chan (r ∷ []))
  Step-measure s _ (delivery_done b e n c) = omega (arith, ap delivery_weight e)
  Step-measure s _ (closes_delivered e) = omega (arith, ap delivery_weight e)
  Step-measure s _ (writes r rs b e c) = omega (arith, ap length c)
  Step-measure s _ (closes_file e n d) = omega (arith, ap writeout_weight e)
  Step-measure s _ (writeout_done e) = omega (arith, ap writeout_weight e)

  Steps-measure : (n : ℕ) (s t : State) → Steps v fails n s t → n + measure t ≤ measure s
  Steps-measure _ _ _ (here s) = omega arith
  Steps-measure _ _ _ (next n s t u m r) = omega (arith, Step-measure s t m, Steps-measure n t u r)

  -- The pipeline makes at most four steps for each message that the retrieval hands on, and seven
  -- more, in whatever order.
  pub pipeline_terminates :
      (messages : List Message) (f : FolderState) (n : ℕ) (s : State)
      → Steps v fails n (first_state messages f) s
      → n ≤ 4 * length messages + 7
  pipeline_terminates messages f n s r = omega (arith, Steps-measure n (first_state messages f) s r)

  module _ (s : State) where
    abbrev Moves : Type 0
    Moves = (t : State) × Step v fails s t

    sending_moves :
        (r : Oldmail × WriteAnswer) (rs : List (Oldmail × WriteAnswer)) (wo : Writeout)
        → s.started ≡ true
        → s.delivery ≡ sending r
        → s.delivered_chan ≡ rs
        → s.writeout ≡ wo
        → WriteoutOver fails s.writeout s.delivered_chan s.delivery s.close_errs
        → Moves
    sending_moves r [] wo b d c e h = (_, sends r d (rw c (omega arith)))
    sending_moves r (x ∷ xs) writing b d c e h = (_, writes x xs b e c)
    sending_moves r (x ∷ xs) closed b d c e h = absurd (
        sending_ne_ended r (
          sym d
          ∙ (subst (λ wo. WriteoutOver fails wo s.delivered_chan s.delivery s.close_errs) e h).1))
    sending_moves r (x ∷ xs) done b d c e h = absurd (
        sending_ne_ended r (
          sym d
          ∙ (subst (λ wo. WriteoutOver fails wo s.delivered_chan s.delivery s.close_errs) e h).1))

    ended_moves :
        (wo : Writeout) (rs : List (Oldmail × WriteAnswer))
        → s.started ≡ true
        → s.fetched ≡ true
        → s.delivery ≡ ended
        → s.writeout ≡ wo
        → s.delivered_chan ≡ rs
        → s.wg ≡ open_fetch s.fetched + open_delivery s.delivery + open_writeout s.writeout
        → (s.wg ≡ 0) ⊎ Moves
    ended_moves writing [] b g d e c h = inr (_, closes_file e c d)
    ended_moves writing (r ∷ rs) b g d e c h = inr (_, writes r rs b e c)
    ended_moves closed rs b g d e c h = inr (_, writeout_done e)
    ended_moves done rs b g d e c h =
        inl (omega (arith, h, ap open_fetch g, ap open_delivery d, ap open_writeout e))

    receiving_moves :
        (chan inc : List Message) (over : Bool)
        → s.started ≡ true
        → s.delivery ≡ receiving
        → s.message_chan ≡ chan
        → s.incoming ≡ inc
        → s.message_chan_closed ≡ over
        → Moves
    receiving_moves (m ∷ ms) inc over b d c i o = (_, delivers m ms b d c)
    receiving_moves [] inc true b d c i o = (_, delivery_done b d c o)
    receiving_moves [] [] false b d c i o = (_, closes_messages b i o)
    receiving_moves [] (m ∷ ms) false b d c i o = (_, hands_on m ms b i (rw c (omega arith)))

    Good-moves :
        (end : Writer × ℕ × Store) (started fetched : Bool) (d : Delivery)
        → Good v fails end s
        → s.started ≡ started
        → s.fetched ≡ fetched
        → s.delivery ≡ d
        → (s.wg ≡ 0) ⊎ Moves
    Good-moves end false fetched d h b g e = inr (_, starts b)
    Good-moves end true false d h b g e = inr (_, fetch_done b g)
    Good-moves end true true receiving h b g e =
        inr (receiving_moves s.message_chan s.incoming s.message_chan_closed b e refl refl refl)
    Good-moves end true true (sending r) h b g e =
        inr (sending_moves r s.delivered_chan s.writeout b e refl refl h.writeout_over)
    Good-moves end true true closing h b g e = inr (_, closes_delivered e)
    Good-moves end true true ended h b g e =
        ended_moves s.writeout s.delivered_chan b g e refl refl h.counted

  -- Until every goroutine has called `wg.Done` one of them can go on, so that the main thread does
  -- not wait for ever.
  pub pipeline_never_stuck :
      (messages : List Message) (f : FolderState) (n : ℕ) (s : State)
      → Steps v fails n (first_state messages f) s
      → (s.wg ≡ 0) ⊎ ((t : State) × Step v fails s t)
  pipeline_never_stuck messages f n s r =
      let end = outcome v messages f.store 0 [] (opened (content_of f.oldmail)) in
      Good-moves s end s.started s.fetched s.delivery
        (Steps-Good v fails end n (first_state messages f) s r
          (first_state-Good v fails messages f))
        refl refl refl
