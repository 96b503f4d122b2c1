-- ===== src/Download/Pipeline.antt =====
-- The goroutines of `streamingDelivery` (core/deliver.go) and `streamingOldmailWriteout`
-- (core/oldmail.go) and the main thread of `downloadMissingEmailsToFolder` (core/download.go), which
-- waits for them, interleaved with a retrieval that hands some messages on.
--
-- A goroutine does its own part of the work between two channels in one step. `wg` counts the
-- goroutines that have not called `wg.Done`.
pub mod Invariant
pub mod Outcome
pub mod Progress
use go_imapgrab.Base.{
  ℕ, suc, ◌+◌, ◌-◌, ◌<◌, ◌≡◌, Bool, true, false, Option, none, some, List, [], ◌∷◌, ◌++◌, Bytes, ℤ,
  length, if◌then◌else◌,
}
use go_imapgrab.Oldmail.{Oldmail, stored_line}
use go_imapgrab.Oldmail.Writeout.{WriteAnswer, Writer, write, opened, content_of}
use go_imapgrab.Download.{Message, Store, FolderState, deliver_one}
use go_imapgrab.Download.Fetching.{message_retrieval_buffer}

abbrev pub message_delivery_buffer : ℕ
message_delivery_buffer = 10

-- The goroutine of the delivery: in the loop; with a record to send; behind `wg.Done`; and with its
-- channel closed.
pub data Delivery : Type 0 where
  receiving closing ended : Delivery
  sending : Oldmail × WriteAnswer → Delivery

-- The goroutine of the writing: in the loop; with the file closed; behind `wg.Done`.
pub data Writeout : Type 0 where
  writing closed done : Writeout

pub record State : Type 0 where
  pub started : Bool
  -- What the retrieval will hand on, whether it has closed its channel, and whether it has called
  -- `wg.Done`.
  pub incoming : List Message
  pub message_chan : List Message
  pub message_chan_closed : Bool
  pub fetched : Bool
  pub delivery : Delivery
  pub store : Store
  pub deliver_errs : ℕ
  pub delivered_chan : List (Oldmail × WriteAnswer)
  pub writeout : Writeout
  pub writer : Writer
  -- The part of the writer's `errCount` that is from closing the file.
  pub close_errs : ℕ
  pub wg : ℕ

abbrev pub first_state : List Message → FolderState → State
first_state messages f = record {
  started = false;
  incoming = messages;
  message_chan = [];
  message_chan_closed = false;
  fetched = false;
  delivery = receiving;
  store = f.store;
  deliver_errs = 0;
  delivered_chan = [];
  writeout = writing;
  writer = opened (content_of f.oldmail);
  close_errs = 0;
  wg = 3;
}

-- What one round of the delivery leaves behind.
unfoldable pub delivered : Message → Store × Option Oldmail → State → State
delivered m (store', none) s = record s {
  store = store';
  deliver_errs = suc s.deliver_errs;
  delivery = receiving;
}
delivered m (store', some om) s = record s { store = store'; delivery = sending (om, m.remember) }

-- One round of the loop over the records.
unfoldable pub write_record : Oldmail × WriteAnswer → Writer → Writer
write_record (om, answer) w = if w.failed then w else write w (stored_line om) answer

unfoldable pub close_file : Bool → State → State
close_file fails s = record s {
  writeout = closed;
  close_errs = if fails then suc s.close_errs else s.close_errs;
}

-- `v` is the mailbox version; `close_fails` is whether the file cannot be closed.
pub data Step (v : ℤ) (close_fails : Bool) (s : State) : State → Type 0 where
  starts : s.started ≡ false → Step v close_fails s (record s { started = true })
  hands_on :
      (m : Message) (ms : List Message)
      → s.started ≡ true
      → s.incoming ≡ m ∷ ms
      → length s.message_chan < message_retrieval_buffer
      → Step v close_fails s (record s { incoming = ms; message_chan = s.message_chan ++ m ∷ [] })
  closes_messages :
      s.started ≡ true
      → s.incoming ≡ []
      → s.message_chan_closed ≡ false
      → Step v close_fails s (record s { message_chan_closed = true })
  fetch_done :
      s.started ≡ true
      → s.fetched ≡ false
      → Step v close_fails s (record s { fetched = true; wg = s.wg - 1 })
  delivers :
      (m : Message) (ms : List Message)
      → s.started ≡ true
      → s.delivery ≡ receiving
      → s.message_chan ≡ m ∷ ms
      → Step v close_fails s
          (delivered m (deliver_one v m s.store) (record s { message_chan = ms }))
  sends :
      (r : Oldmail × WriteAnswer)
      → s.delivery ≡ sending r
      → length s.delivered_chan < message_delivery_buffer
      → Step v close_fails s
          (record s { delivery = receiving; delivered_chan = s.delivered_chan ++ r ∷ [] })
  delivery_done :
      s.started ≡ true
      → s.delivery ≡ receiving
      → s.message_chan ≡ []
      → s.message_chan_closed ≡ true
      → Step v close_fails s (record s { delivery = closing; wg = s.wg - 1 })
  closes_delivered : s.delivery ≡ closing → Step v close_fails s (record s { delivery = ended })
  writes :
      (r : Oldmail × WriteAnswer) (rs : List (Oldmail × WriteAnswer))
      → s.started ≡ true
      → s.writeout ≡ writing
      → s.delivered_chan ≡ r ∷ rs
      → Step v close_fails s (record s { delivered_chan = rs; writer = write_record r s.writer })
  closes_file :
      s.writeout ≡ writing
      → s.delivered_chan ≡ []
      → s.delivery ≡ ended
      → Step v close_fails s (close_file close_fails s)
  writeout_done :
      s.writeout ≡ closed → Step v close_fails s (record s { writeout = done; wg = s.wg - 1 })

pub data Steps (v : ℤ) (close_fails : Bool) : ℕ → State → State → Type 0 where
  here : (s : State) → Steps v close_fails 0 s s
  next :
      (n : ℕ) (s t u : State)
      → Step v close_fails s t
      → Steps v close_fails n t u
      → Steps v close_fails (suc n) s u
