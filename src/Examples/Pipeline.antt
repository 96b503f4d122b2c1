-- ===== src/Examples/Pipeline.antt =====
-- The goroutines of a download (core/download.go) with one message.
use go_imapgrab.Base.{
  ◌≡◌, ◌≤◌, ◌+◌, ◌*◌, ◌⊎◌, ◌||◌, refl, true, false, none, some, List, [], ◌∷◌, pos, ltb, length,
  if◌then◌else◌, arith,
}
use go_imapgrab.Decimal.{print_ℤ}
use go_imapgrab.Email.{rfc822_from_email, set_all, set, finish, validate}
use go_imapgrab.Maildir.{
  deliver_message, store_message, error_if_exists, written_to, not_wrote, rename,
}
use go_imapgrab.Oldmail.{Oldmail}
use go_imapgrab.Oldmail.Writeout.{WriteAnswer, written}
use go_imapgrab.UniqueName.{
  new_unique_name, inc, hex, format_name, choose_hostname, choose_random, clean_hostname,
}
use go_imapgrab.Download.{
  Message, errors_in_pipeline, hand_on, streaming_retrieval, run_pipeline, deliver_one,
}
use go_imapgrab.Download.Pipeline.{
  State, first_state, delivered, write_record, close_file, receiving, closing, ended, done, Step,
  starts, hands_on, closes_messages, fetch_done, delivers, sends, delivery_done, closes_delivered,
  writes, closes_file, writeout_done, Steps, here, next,
}
use go_imapgrab.Download.Pipeline.Outcome.{run_pipeline-Steps}
use go_imapgrab.Download.Pipeline.Progress.{pipeline_terminates, pipeline_never_stuck}
use go_imapgrab.Examples.Download.{message, world, folder, record_of}

abbrev messages : List Message
messages = message 2 ∷ []

abbrev begun : State
begun = record (first_state messages folder) { started = true }

abbrev sent : State
sent = record begun { incoming = []; message_chan = message 2 ∷ [] }

abbrev shut : State
shut = record sent { message_chan_closed = true; fetched = true; wg = 2 }

abbrev new_record : Oldmail × WriteAnswer
new_record = (record_of 2, written)

abbrev stored : State
stored =
    delivered (message 2) (deliver_one (pos 7) (message 2) shut.store)
      (record shut { message_chan = [] })

abbrev passed : State
passed = record stored { delivery = receiving; delivered_chan = new_record ∷ [] }

abbrev noted : State
noted = record passed { delivered_chan = []; writer = write_record new_record passed.writer }

abbrev over : State
over = record noted { delivery = ended; wg = 1 }

abbrev final : State
final = record (close_file false over) { writeout = done; wg = 0 }

whole-Steps : Steps (pos 7) false 11 (first_state messages folder) final
unfolding delivered write_record close_file deliver_one deliver_message store_message
    error_if_exists written_to not_wrote rename rfc822_from_email set_all set finish validate
    new_unique_name inc hex format_name choose_hostname choose_random clean_hostname print_ℤ
whole-Steps = next 10 (first_state messages folder) begun final (starts refl) (
    next 9 begun sent final (hands_on (message 2) [] refl refl (omega arith)) (
      next 8 sent (record sent { message_chan_closed = true }) final
        (closes_messages refl refl refl)
        (next 7 (record sent { message_chan_closed = true }) shut final (fetch_done refl refl)
          (next 6 shut stored final (delivers (message 2) [] refl refl refl) (
            next 5 stored passed final (sends new_record refl (omega arith)) (
              next 4 passed noted final (writes new_record [] refl refl refl) (
                next 3 noted (record noted { delivery = closing; wg = 1 }) final
                  (delivery_done refl refl refl refl)
                  (next 2 (record noted { delivery = closing; wg = 1 }) over final
                    (closes_delivered refl)
                    (next 1 over (close_file false over) final (closes_file refl refl refl) (
                      next 0 (close_file false over) final final (writeout_done refl)
                        (here final)))))))))))

handed : (hand_on (world.polls (2 ∷ []))).0 ≡ messages
unfolding hand_on
handed = refl

all-Steps :
    Steps (pos 7) world.close_fails 11 (first_state (hand_on (world.polls (2 ∷ []))).0 folder) final
unfolding hand_on
all-Steps = whole-Steps

run_pipeline-Steps_example : run_pipeline world (pos 7) (2 ∷ []) folder ≡ (
  record folder { oldmail = some final.writer.content; store = final.store },
  if ltb 0 (streaming_retrieval world.fetch_fails (world.polls (2 ∷ []))).1
        || ltb 0 final.deliver_errs
        || ltb 0 (final.writer.err_count + final.close_errs)
      then some (
          errors_in_pipeline
            (streaming_retrieval world.fetch_fails (world.polls (2 ∷ []))).1
            final.deliver_errs
            (final.writer.err_count + final.close_errs))
      else none,
)
unfolding close_file
run_pipeline-Steps_example =
    run_pipeline-Steps world (pos 7) (2 ∷ []) folder 11 final refl all-Steps refl

pipeline_terminates_example : 11 ≤ 4 * length messages + 7
pipeline_terminates_example = pipeline_terminates (pos 7) false messages folder 11 final whole-Steps

pipeline_never_stuck_example : (final.wg ≡ 0) ⊎ ((t : State) × Step (pos 7) false final t)
pipeline_never_stuck_example =
    pipeline_never_stuck (pos 7) false messages folder 11 final whole-Steps
