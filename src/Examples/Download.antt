-- ===== src/Examples/Download.antt =====
-- The delivery and the download of a folder (core/maildir.go, core/deliver.go, core/download.go) at
-- concrete inputs.
use go_imapgrab.Base.{
  ℕ, ◌≡◌, ◌≢◌, ◌⊎◌, refl, true, false, none, some, List, [], ◌∷◌, inl, Bytes, codes, pos, All,
  list_eq, nat_eq, arith,
}
use mathlib.Core.Path.{subst}
use go_imapgrab.Decimal.{print_ℤ, scan_ℤ, in_int64}
use go_imapgrab.Partition.{int_to_uint32}
use go_imapgrab.Email.{
  number, time, raw_string, other, rfc822_from_email, set_all, set, finish, validate,
}
use go_imapgrab.Ids.{UidExt, determine_missing_uids}
use go_imapgrab.Maildir.{
  Maildir, no_faults, deliver_message, store_message, error_if_exists, written_to, not_wrote,
  rename,
}
use go_imapgrab.Maildir.Delivery.{IsDelivered, deliver_message-IsDelivered}
use go_imapgrab.Oldmail.{
  Oldmail, Fits, format_oldmails, parse_oldmails, read_oldmail, split_lines, read_lines, drop_cr,
  parse_line, scan_fields,
}
use go_imapgrab.Oldmail.Writeout.{written, streaming_oldmail_writeout, content_of, write_all, write}
use go_imapgrab.UniqueName.{
  ThreadSafeCounter, Moment, new_unique_name, inc, hex, format_name, choose_hostname, choose_random,
  clean_hostname,
}
use go_imapgrab.Download.{
  World, FolderState, MailboxStatus, Message, received, Store, hand_on, streaming_retrieval,
  streaming_delivery, deliver_one, run_pipeline, init_maildir, init_existing_maildir, is_maildir,
  download_missing_emails_to_folder, download_selected, download_missing, get_all_message_uuids,
  uids_of, start_retrieval, seqset_of,
}
use go_imapgrab.Download.Deliveries.{streaming_delivery-Kept, Kept}
use go_imapgrab.Download.Run.{MessageFits}
use go_imapgrab.Download.Again.{Answered, answered, no_more, nothing_missing_after_run}
use go_imapgrab.Download.Whole.{Finished, download_missing_emails_to_folder-Finished}

abbrev counter : ThreadSafeCounter
counter = record { count = 0 }

abbrev moment : Moment
moment = record {
  unix = pos 17;
  nanosecond = 123456;
  pid = 77;
  os_hostname = some (codes "h");
  random = some (1 ∷ 255 ∷ []);
}

abbrev empty_maildir : Maildir
empty_maildir = record { tmp = λ _. none; new = λ _. none }

abbrev start : Store
start = (counter, empty_maildir)

abbrev pub message : ℕ → Message
message n = record {
  fields =
      raw_string (codes "UID")
      ∷ number n
      ∷ raw_string (codes "INTERNALDATE")
      ∷ time (pos 99)
      ∷ other (codes "RFC822")
      ∷ other (codes "Hi")
      ∷ [];
  moment = moment;
  deliver = no_faults;
  remember = written;
}

abbrev pub record_of : ℕ → Oldmail
record_of n = record { uid_folder = pos 7; uid = pos n; timestamp = pos 99 }

-- The server has the emails 1 and 2, the first of which is on disk.
abbrev pub world : World
world = record {
  init = record {
    mkdir_fails = false;
    mkdir_new_fails = false;
    mkdir_cur_fails = false;
    mkdir_tmp_fails = false;
    touch_fails = false;
    read_open_fails = false;
    read_close_fails = false;
  };
  select = some (record { uid_validity = 7; messages = 2 });
  interrupted_early = false;
  uid_replies = some 1 ∷ some 2 ∷ [];
  list_fails = false;
  polls = λ nums. received none ∷ received (some (message 2)) ∷ [];
  fetch_fails = false;
  open_fails = false;
  close_fails = false;
}

abbrev pub folder : FolderState
folder = record {
  has_dir = true;
  has_new = true;
  has_cur = true;
  has_tmp = true;
  oldmail = some (format_oldmails (record_of 1 ∷ []));
  store = start;
}

deliver_message-IsDelivered_example :
    ((deliver_message no_faults moment (codes "Hi") start).0.0
      ≡ (new_unique_name counter moment []).0)
    × ((((deliver_message no_faults moment (codes "Hi") start).1 ≡ none)
          × IsDelivered empty_maildir
              (deliver_message no_faults moment (codes "Hi") start).0.1
              (new_unique_name counter moment []).1
              (codes "Hi"))
        ⊎ (((deliver_message no_faults moment (codes "Hi") start).1 ≢ none)
            × ((n : Bytes)
                → (deliver_message no_faults moment (codes "Hi") start).0.1.new n
                  ≡ empty_maildir.new n)))
deliver_message-IsDelivered_example =
    deliver_message-IsDelivered no_faults moment (codes "Hi") counter empty_maildir

named : (new_unique_name counter moment []).2 ≡ none
unfolding new_unique_name inc hex format_name choose_hostname choose_random clean_hostname print_ℤ
named = refl

streaming_delivery-Kept_example :
    Kept
      (pos 7)
      (streaming_delivery (pos 7) (message 2 ∷ message 3 ∷ []) start).2.1
      (message 2 ∷ message 3 ∷ [])
      (streaming_delivery (pos 7) (message 2 ∷ message 3 ∷ []) start).0
streaming_delivery-Kept_example = streaming_delivery-Kept (pos 7) (message 2 ∷ message 3 ∷ []) start

record_of-Fits : (n : ℕ) → in_int64 (pos n) ≡ true → Fits (record_of n)
record_of-Fits n h = record { folder_fits = refl; uid_fits = h; timestamp_fits = refl }

email_taken : (n : ℕ) → rfc822_from_email (message n).fields (pos 7) ≡ inl (codes "Hi", record_of n)
unfolding rfc822_from_email set_all set finish validate
email_taken n = refl

message-Fits : (n : ℕ) → in_int64 (pos n) ≡ true → MessageFits (pos 7) (message n)
message-Fits n h t om e =
    let same : record_of n ≡ om = ground (arith, email_taken n) in
    subst Fits same (record_of-Fits n h)

handed_on : hand_on (world.polls (2 ∷ [])) ≡ (message 2 ∷ [], false)
unfolding hand_on
handed_on = refl

messages-Fit : (nums : List ℕ) → All (MessageFits (pos 7)) (hand_on (world.polls nums)).0
unfolding hand_on
messages-Fit nums = (message-Fits 2 refl, tt)

any_mailbox :
    (mbox : MailboxStatus) (nums : List ℕ)
    → world.select ≡ some mbox
    → All (MessageFits (pos mbox.uid_validity)) (hand_on (world.polls nums)).0
any_mailbox mbox nums e =
    let same : 7 ≡ mbox.uid_validity = ground arith in
    subst (λ v. All (MessageFits (pos v)) (hand_on (world.polls nums)).0) same (messages-Fit nums)

clean_run : (download_missing_emails_to_folder world folder).1 ≡ none
unfolding download_missing_emails_to_folder download_selected download_missing run_pipeline
    init_maildir init_existing_maildir is_maildir get_all_message_uuids uids_of start_retrieval
    seqset_of hand_on streaming_retrieval streaming_delivery deliver_one streaming_oldmail_writeout
    content_of write_all write format_oldmails deliver_message store_message error_if_exists
    written_to not_wrote rename rfc822_from_email set_all set finish validate determine_missing_uids
    parse_oldmails read_oldmail split_lines read_lines drop_cr parse_line scan_fields
    new_unique_name inc hex format_name choose_hostname choose_random clean_hostname print_ℤ scan_ℤ
    int_to_uint32
clean_run = refl

pipeline_run : (run_pipeline world (pos 7) (2 ∷ []) folder).1 ≡ none
unfolding run_pipeline hand_on streaming_retrieval streaming_delivery deliver_one
    streaming_oldmail_writeout content_of write_all write format_oldmails deliver_message
    store_message error_if_exists written_to not_wrote rename rfc822_from_email set_all set finish
    validate new_unique_name inc hex format_name choose_hostname choose_random clean_hostname
    print_ℤ
pipeline_run = refl

download_missing_emails_to_folder-Finished_example :
    Finished world (record_of 1 ∷ []) folder (download_missing_emails_to_folder world folder).0
download_missing_emails_to_folder-Finished_example =
    download_missing_emails_to_folder-Finished world folder (record_of 1 ∷ []) refl
      (record_of-Fits 1 refl, tt) any_mailbox clean_run

abbrev on_server : List UidExt
on_server = record { folder = pos 7; msg = pos 1 } ∷ record { folder = pos 7; msg = pos 2 } ∷ []

one_missing : determine_missing_uids (record_of 1 ∷ []) on_server ≡ inl (pos 2 ∷ [])
unfolding determine_missing_uids
one_missing = refl

request-Answered : Answered (pos 7) (pos 2 ∷ []) (hand_on (world.polls (2 ∷ []))).0
unfolding hand_on
request-Answered = answered (message 2) (codes "Hi") (record_of 2) [] [] (email_taken 2) no_more

nothing_missing_after_run_example :
    (content : Bytes) × ((run_pipeline world (pos 7) (2 ∷ []) folder).0.oldmail ≡ some content)
    × (determine_missing_uids (parse_oldmails content).0 on_server ≡ inl [])
nothing_missing_after_run_example =
    nothing_missing_after_run world (pos 7) (2 ∷ []) folder (record_of 1 ∷ []) on_server
      (pos 2 ∷ []) refl (record_of-Fits 1 refl, tt) (messages-Fit (2 ∷ []))
      (record { retrieved = (refl, (refl, tt)); stored = (refl, tt) }) one_missing request-Answered
      pipeline_run
