-- ===== src/Examples/Fetching.antt =====
-- The goroutines of `streamingRetrieval` (core/imap_client.go) with two messages.
use go_imapgrab.Base.{◌≡◌, ◌≤◌, refl, true, false, List, [], ◌∷◌, ◌++◌, length, arith}
use go_imapgrab.Download.{Message, hand_on}
use go_imapgrab.Examples.Download.{message}
use go_imapgrab.Download.Fetching.Refines.{all_received, retrieval_complete-hand_on}
use go_imapgrab.Download.Fetching.{
  message_retrieval_buffer, Fetch, fetching, fetched, returned, Translate, checking, receiving,
  finished, handing, Once, State, first_state, end_fetch, call_already, call, check, check_if, ends,
  calls, checks, takes, takes_nil, hands, reads, Steps, here, next,
}
use go_imapgrab.Download.Fetching.Ordered.{retrieval_ordered}

abbrev messages : List Message
messages = message 1 ∷ message 2 ∷ []

abbrev not_yet : Once
not_yet = record { called = false; hook_runs = 0 }

abbrev state :
    List Message → Fetch → Once → Translate Message → List Message → List Message → State Message
state unsent fetch already translate chan consumed = record {
  unsent = unsent;
  fetch = fetch;
  already = already;
  translate = translate;
  translated_message_chan = chan;
  err_count = 0;
  consumed = consumed;
}

abbrev once_called : Once
once_called = record { called = true; hook_runs = 1 }

abbrev last : State Message
last = state [] returned once_called finished (message 2 ∷ []) (message 1 ∷ [])

whole-Steps : Steps (first_state messages) last
unfolding check check_if end_fetch call_already call
whole-Steps =
    next (first_state messages) (state messages fetching not_yet receiving [] []) last
      (checks false refl)
      (next _ (state (message 2 ∷ []) fetching not_yet (handing (message 1)) [] []) last
        (takes (message 1) (message 2 ∷ []) refl refl refl)
        (next _ (state (message 2 ∷ []) fetching not_yet checking (message 1 ∷ []) []) last
          (hands (message 1) refl (omega arith))
          (next _ (state (message 2 ∷ []) fetching not_yet receiving (message 1 ∷ []) []) last
            (checks false refl)
            (next _ (state [] fetching not_yet (handing (message 2)) (message 1 ∷ []) []) last
              (takes (message 2) [] refl refl refl)
              (next _ (state [] fetching not_yet (handing (message 2)) [] (message 1 ∷ [])) last
                (reads (message 1) [] refl)
                (next _ (state [] fetching not_yet checking (message 2 ∷ []) (message 1 ∷ [])) last
                  (hands (message 2) refl (omega arith))
                  (next _ (state [] fetching not_yet receiving (message 2 ∷ []) (message 1 ∷ []))
                    last (checks false refl)
                    (next _ (state [] fetched not_yet receiving (message 2 ∷ []) (message 1 ∷ []))
                      last (ends refl refl)
                      (next _ (state [] fetched not_yet checking (message 2 ∷ []) (message 1 ∷ []))
                        last (takes_nil refl refl)
                        (next _
                          (state [] returned once_called checking (message 2 ∷ []) (message 1 ∷ []))
                          last (calls refl)
                          (next _ last last (checks false refl) (here last))))))))))))

retrieval_ordered_example :
    ((rest : List Message) × (messages ≡ last.consumed ++ last.translated_message_chan ++ rest))
    × (length last.translated_message_chan ≤ message_retrieval_buffer)
    × (last.already.hook_runs ≤ 1)
retrieval_ordered_example = retrieval_ordered messages last whole-Steps

retrieval_complete-hand_on_example :
    hand_on (all_received messages) ≡ (last.consumed ++ last.translated_message_chan, false)
retrieval_complete-hand_on_example = retrieval_complete-hand_on messages last whole-Steps refl refl
