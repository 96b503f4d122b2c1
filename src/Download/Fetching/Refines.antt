-- ===== src/Download/Fetching/Refines.antt =====
-- The two goroutines of `streamingRetrieval` (core/imap_client.go) do what the loop on its own does.
use go_imapgrab.Base.{◌≡◌, refl, sym, ap, ◌∙◌, false, some, List, [], ◌∷◌, ◌++◌}
use go_imapgrab.Download.{Message, Poll, received, hand_on}
use go_imapgrab.Download.Fetching.{finished, State, first_state, Steps}
use go_imapgrab.Download.Fetching.Ordered.{retrieval_complete}

-- Each message is received, and there is no interrupt.
abbrev pub all_received : List Message → List Poll
all_received [] = []
all_received (m ∷ ms) = received (some m) ∷ all_received ms

hand_on-all_received : (ms : List Message) → hand_on (all_received ms) ≡ (ms, false)
unfolding hand_on
hand_on-all_received [] = refl
hand_on-all_received (m ∷ ms) = ap (λ r. (m ∷ r.0, r.1)) (hand_on-all_received ms)

-- When the goroutines are through and no error was counted, what came through the channel is what
-- the loop alone hands on when it receives all messages, in whatever way the goroutines and the
-- reader were interleaved.
pub retrieval_complete-hand_on :
    (messages : List Message) (s : State Message)
    → Steps (first_state messages) s
    → s.translate ≡ finished
    → s.err_count ≡ 0
    → hand_on (all_received messages) ≡ (s.consumed ++ s.translated_message_chan, false)
retrieval_complete-hand_on messages s r e z =
    hand_on-all_received messages
    ∙ ap (λ ms. (ms, false)) (sym (retrieval_complete messages s r e z).0)
