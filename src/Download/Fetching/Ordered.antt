-- ===== src/Download/Fetching/Ordered.antt =====
-- Nothing is lost or reordered between the two goroutines of `streamingRetrieval`
-- (core/imap_client.go), and they never block each other.
use mathlib.Core.Path.{subst}
use go_imapgrab.Base.{
  ◌≤◌, ◌≡◌, refl, sym, ap, ◌∙◌, true, false, List, [], ◌∷◌, ◌++◌, append_assoc, append-nil, length,
  ◌⊎◌, inl, inr, arith,
}
use go_imapgrab.Download.Fetching.{
  message_retrieval_buffer, Fetch, fetching, fetched, returned, Translate, checking, receiving,
  finished, handing, is_open, State, first_state, Step, ends, checks, takes, takes_nil, hands,
  reads, Steps,
}
use go_imapgrab.Download.Fetching.Invariant.{
  hooks, hooks-le, true_ne_false, in_hand, in_line, Ended, Through, Good,
}
use go_imapgrab.Download.Fetching.Invariant.Preserved.{Steps-Good, first_state-Good}

module _ {A : Type 0} where
  module _ (messages : List A) (s : State A) (r : Steps (first_state messages) s) where
    good : Good messages s
    good = Steps-Good messages (first_state messages) s r (first_state-Good messages)

    -- However the goroutines and the reader are interleaved, what was read and what is in the
    -- channel is a beginning of what the library was to send, in its order; the channel holds no
    -- more than its buffer; and `wg.Done` runs at most once.
    pub retrieval_ordered :
        ((rest : List A) × (messages ≡ s.consumed ++ s.translated_message_chan ++ rest))
        × (length s.translated_message_chan ≤ message_retrieval_buffer)
        × (s.already.hook_runs ≤ 1)
    retrieval_ordered = (
      (
        in_hand s.translate ++ s.unsent,
        sym good.ordered
            ∙ sym (
                append_assoc s.consumed s.translated_message_chan
                  (in_hand s.translate ++ s.unsent)),
      ),
      good.bounded,
      omega (arith, good.once, hooks-le s.already.called),
    )

    -- When the channel is closed and no error was counted, every message has come through, and
    -- `wg.Done` has run once.
    pub retrieval_complete :
        s.translate ≡ finished
        → s.err_count ≡ 0
        → (s.consumed ++ s.translated_message_chan ≡ messages) × (s.already.hook_runs ≡ 1)
    retrieval_complete e z =
        let called : s.already.called ≡ true =
          subst (λ t. Through t s.already.called) e good.through in
        let empty : s.unsent ≡ [] = elim good.why [
          | inl n ↦ absurd (true_ne_false (sym called ∙ n))
          | inr (inl p) ↦ absurd (omega (arith, p, z))
          | inr (inr f) ↦ elim (subst (λ g. Ended g s.unsent s.err_count) f good.ended) [
            | inl u ↦ u
            | inr p ↦ absurd (omega (arith, p, z))
          ]
        ] in
        (
          sym (append-nil (s.consumed ++ s.translated_message_chan))
              ∙ append_assoc s.consumed s.translated_message_chan []
              ∙ subst (λ u. in_line s.consumed s.translated_message_chan finished u ≡ messages)
                  empty
                  (subst (λ t. in_line s.consumed s.translated_message_chan t s.unsent ≡ messages) e
                    good.ordered),
          good.once ∙ ap hooks called,
        )

  -- The goroutine that hands messages on is never blocked for good: until it is through there is a
  -- step, of the library, of a reader or its own.
  pub retrieval_never_blocked :
      (s : State A) → (s.translate ≡ finished) ⊎ ((t : State A) × Step s t)
  retrieval_never_blocked s =
      go s.translate s.fetch s.unsent s.translated_message_chan refl refl refl refl
    where
      go :
          (t : Translate A) (f : Fetch) (u c : List A)
          → s.translate ≡ t
          → s.fetch ≡ f
          → s.unsent ≡ u
          → s.translated_message_chan ≡ c
          → (s.translate ≡ finished) ⊎ ((t : State A) × Step s t)
      go finished f u c e _ _ _ = inl e
      go checking f u c e _ _ _ = inr (_, checks false e)
      go receiving fetching [] c e f' u' _ = inr (_, ends f' u')
      go receiving fetching (m ∷ ms) c e f' u' _ = inr (_, takes m ms f' e u')
      go receiving fetched u c e f' _ _ = inr (_, takes_nil (ap is_open f') e)
      go receiving returned u c e f' _ _ = inr (_, takes_nil (ap is_open f') e)
      go (handing m) f u [] e _ _ c' = inr (_, hands m e (rw c' (omega arith)))
      go (handing m) f u (n ∷ ns) e _ _ c' = inr (_, reads n ns c')
