-- ===== src/Download/Fetching/Invariant/Preserved.antt =====
-- Every step of the goroutines of `streamingRetrieval` (core/imap_client.go) keeps the invariant.
use mathlib.Core.Path.{subst}
use go_imapgrab.Base.{
  suc, ◌<◌, ◌≡◌, refl, sym, ap, ◌∙◌, Bool, true, false, List, [], ◌∷◌, ◌++◌, append_assoc, length,
  length-append, ◌⊎◌, inl, inr, arith,
}
use go_imapgrab.Download.Fetching.{
  message_retrieval_buffer, call, fetching, fetched, checking, receiving, finished, handing, State,
  first_state, end_fetch, call_already, check, check_if, Step, ends, fails, calls, checks, takes,
  takes_nil, hands, reads, Steps, here, next,
}
use go_imapgrab.Download.Fetching.Invariant.{
  call-hooks, call-called, fetching_ne_returned, in_hand, in_line, Ended, Good, Through-mono,
  Ended-more,
}

module _ {A : Type 0} where
  module _ (all : List A) (s : State A) (h : Good all s) where
    end_fetch-Good :
        (fails : Bool)
        → s.fetch ≡ fetching
        → (fails ≡ true) ⊎ (s.unsent ≡ [])
        → Good all (end_fetch fails s)
    unfolding end_fetch
    end_fetch-Good true e w = record {
      ordered = h.ordered;
      bounded = h.bounded;
      once = h.once;
      ended = inr (omega arith);
      why = elim h.why [
        | inl n ↦ inl n
        | inr (inl p) ↦ inr (inl (omega arith))
        | inr (inr r) ↦ inr (inl (omega arith))
      ];
      through = h.through;
    }
    end_fetch-Good false e (inl w) = absurd (ground arith)
    end_fetch-Good false e (inr w) = record {
      ordered = h.ordered;
      bounded = h.bounded;
      once = h.once;
      ended = inl w;
      why = elim h.why [
        | inl n ↦ inl n
        | inr (inl p) ↦ inr (inl p)
        | inr (inr r) ↦ absurd (fetching_ne_returned (sym e ∙ r))
      ];
      through = h.through;
    }

    call_already-Good : s.fetch ≡ fetched → Good all (call_already s)
    unfolding call_already
    call_already-Good e = record {
      ordered = h.ordered;
      bounded = h.bounded;
      once = call-hooks s.already h.once;
      ended = subst (λ f. Ended f s.unsent s.err_count) e h.ended;
      why = inr (inr refl);
      through =
          Through-mono s.translate s.already.called (call s.already).called
            (λ _. call-called s.already) h.through;
    }

    interrupted-Good :
        s.translate ≡ checking
        → Good all (record s { err_count = suc s.err_count; already = call s.already })
    interrupted-Good e = record {
      ordered = h.ordered;
      bounded = h.bounded;
      once = call-hooks s.already h.once;
      ended = Ended-more s.fetch s.unsent s.err_count h.ended;
      why = inr (inl (omega arith));
      through = rw e tt;
    }

    receiving-Good : s.translate ≡ checking → Good all (record s { translate = receiving })
    receiving-Good e = record {
      ordered =
          subst (λ t. in_line s.consumed s.translated_message_chan t s.unsent ≡ all) e h.ordered;
      bounded = h.bounded;
      once = h.once;
      ended = h.ended;
      why = h.why;
      through = tt;
    }

    finished-Good :
        s.translate ≡ checking
        → s.already.called ≡ true
        → Good all (record s { translate = finished })
    finished-Good e c = record {
      ordered =
          subst (λ t. in_line s.consumed s.translated_message_chan t s.unsent ≡ all) e h.ordered;
      bounded = h.bounded;
      once = h.once;
      ended = h.ended;
      why = h.why;
      through = c;
    }

    check_if-Good :
        (called interrupted : Bool)
        → s.already.called ≡ called
        → s.translate ≡ checking
        → Good all (check_if called interrupted s)
    unfolding check_if
    check_if-Good true interrupted c e = finished-Good e c
    check_if-Good false true c e = interrupted-Good e
    check_if-Good false false c e = receiving-Good e

    takes-Good :
        (m : A) (ms : List A)
        → s.fetch ≡ fetching
        → s.translate ≡ receiving
        → s.unsent ≡ m ∷ ms
        → Good all (record s { unsent = ms; translate = handing m })
    takes-Good m ms f e u = record {
      ordered =
          subst (λ t. in_line s.consumed s.translated_message_chan t (m ∷ ms) ≡ all) e
            (subst (λ v. in_line s.consumed s.translated_message_chan s.translate v ≡ all) u
              h.ordered);
      bounded = h.bounded;
      once = h.once;
      ended = rw f tt;
      why = h.why;
      through = tt;
    }

    takes_nil-Good : s.translate ≡ receiving → Good all (record s { translate = checking })
    takes_nil-Good e = record {
      ordered =
          subst (λ t. in_line s.consumed s.translated_message_chan t s.unsent ≡ all) e h.ordered;
      bounded = h.bounded;
      once = h.once;
      ended = h.ended;
      why = h.why;
      through = tt;
    }

    hands-Good :
        (m : A)
        → s.translate ≡ handing m
        → length s.translated_message_chan < message_retrieval_buffer
        → Good all (record s {
          translate = checking;
          translated_message_chan = s.translated_message_chan ++ m ∷ [];
        })
    hands-Good m e l = record {
      ordered =
          ap (λ v. s.consumed ++ v) (append_assoc s.translated_message_chan (m ∷ []) s.unsent)
          ∙ (subst (λ t. in_line s.consumed s.translated_message_chan t s.unsent ≡ all) e
              h.ordered);
      bounded = omega (arith, length-append s.translated_message_chan (m ∷ []));
      once = h.once;
      ended = h.ended;
      why = h.why;
      through = tt;
    }

    reads-Good :
        (m : A) (ms : List A)
        → s.translated_message_chan ≡ m ∷ ms
        → Good all (record s { translated_message_chan = ms; consumed = s.consumed ++ m ∷ [] })
    reads-Good m ms e = record {
      ordered =
          append_assoc s.consumed (m ∷ []) (ms ++ (in_hand s.translate ++ s.unsent))
          ∙ subst (λ c. in_line s.consumed c s.translate s.unsent ≡ all) e h.ordered;
      bounded = omega (arith, h.bounded, ap length e);
      once = h.once;
      ended = h.ended;
      why = h.why;
      through = h.through;
    }

  Step-Good : (all : List A) (s t : State A) → Step s t → Good all s → Good all t
  unfolding check
  Step-Good all s _ (ends f u) h = end_fetch-Good all s h false f (inr u)
  Step-Good all s _ (fails f) h = end_fetch-Good all s h true f (inl refl)
  Step-Good all s _ (calls f) h = call_already-Good all s h f
  Step-Good all s _ (checks interrupted e) h =
      check_if-Good all s h s.already.called interrupted refl e
  Step-Good all s _ (takes m ms f e u) h = takes-Good all s h m ms f e u
  Step-Good all s _ (takes_nil f e) h = takes_nil-Good all s h e
  Step-Good all s _ (hands m e l) h = hands-Good all s h m e l
  Step-Good all s _ (reads m ms e) h = reads-Good all s h m ms e

  pub Steps-Good : (all : List A) (s t : State A) → Steps s t → Good all s → Good all t
  Steps-Good all _ _ (here s) h = h
  Steps-Good all _ _ (next s t u m r) h = Steps-Good all t u r (Step-Good all s t m h)

  pub first_state-Good : (all : List A) → Good all (first_state all)
  first_state-Good all = record {
    ordered = refl;
    bounded = omega arith;
    once = refl;
    ended = tt;
    why = inl refl;
    through = tt;
  }
