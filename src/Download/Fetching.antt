-- ===== src/Download/Fetching.antt =====
-- The two goroutines of `streamingRetrieval` (core/imap_client.go) and their `once`, interleaved with
-- whoever reads from the channel.
--
-- The library is told by what it does: it sends the messages one by one, stops with or without an
-- error, closes its channel and returns. The channel from it has no buffer, so sending and
-- receiving are one step.
pub mod Invariant
pub mod Ordered
pub mod Refines
use go_imapgrab.Base.{
  ℕ, suc, Bool, true, false, Option, none, some, List, [], ◌∷◌, ◌++◌, ◌≡◌, ◌<◌, length,
  if◌then◌else◌,
}

abbrev pub message_retrieval_buffer : ℕ
message_retrieval_buffer = 20

-- `once`: whether it was called, and how often its hook, the `wg.Done`, ran.
pub record Once : Type 0 where
  pub called : Bool
  pub hook_runs : ℕ

abbrev pub new_once : Once
new_once = record { called = false; hook_runs = 0 }

unfoldable pub call : Once → Once
call o = if o.called then o else record { called = true; hook_runs = suc o.hook_runs }

-- The goroutine of the library: in `UidFetch`; behind it; at its end.
pub data Fetch : Type 0 where
  fetching fetched returned : Fetch

abbrev pub is_open : Fetch → Bool
is_open fetching = true
is_open fetched = false
is_open returned = false

-- The other goroutine: at the head of its loop; waiting for a message; with a message in hand; at
-- its end.
pub data Translate (A : Type 0) : Type 0 where
  checking receiving finished : Translate A
  handing : A → Translate A

pub record State (A : Type 0) : Type 0 where
  -- What the library has not sent.
  pub unsent : List A
  pub fetch : Fetch
  pub already : Once
  pub translate : Translate A
  pub translated_message_chan : List A
  pub err_count : ℕ
  -- What was read from the channel.
  pub consumed : List A

module _ {A : Type 0} where
  abbrev pub first_state : List A → State A
  first_state messages = record {
    unsent = messages;
    fetch = fetching;
    already = new_once;
    translate = checking;
    translated_message_chan = [];
    err_count = 0;
    consumed = [];
  }

  -- `UidFetch` ends, and has closed the channel.
  unfoldable pub end_fetch : Bool → State A → State A
  end_fetch fails s = record s {
    fetch = fetched;
    err_count = if fails then suc s.err_count else s.err_count;
  }

  unfoldable pub call_already : State A → State A
  call_already s = record s { fetch = returned; already = call s.already }

  -- The head of the loop and the test for an interrupt.
  unfoldable pub check_if : Bool → Bool → State A → State A
  check_if true interrupted s = record s { translate = finished }
  check_if false true s = record s { err_count = suc s.err_count; already = call s.already }
  check_if false false s = record s { translate = receiving }

  unfoldable pub check : Bool → State A → State A
  check interrupted s = check_if s.already.called interrupted s

-- A step. A message is sent when the other goroutine waits for it; from a closed channel comes nil.
pub data Step {A : Type 0} (s : State A) : State A → Type 0 where
  ends : s.fetch ≡ fetching → s.unsent ≡ [] → Step s (end_fetch false s)
  fails : s.fetch ≡ fetching → Step s (end_fetch true s)
  calls : s.fetch ≡ fetched → Step s (call_already s)
  checks : (interrupted : Bool) → s.translate ≡ checking → Step s (check interrupted s)
  takes :
      (m : A) (ms : List A)
      → s.fetch ≡ fetching
      → s.translate ≡ receiving
      → s.unsent ≡ m ∷ ms
      → Step s (record s { unsent = ms; translate = handing m })
  takes_nil :
      is_open s.fetch ≡ false → s.translate ≡ receiving → Step s (record s { translate = checking })
  hands :
      (m : A)
      → s.translate ≡ handing m
      → length s.translated_message_chan < message_retrieval_buffer
      → Step s (record s {
        translate = checking;
        translated_message_chan = s.translated_message_chan ++ m ∷ [];
      })
  reads :
      (m : A) (ms : List A)
      → s.translated_message_chan ≡ m ∷ ms
      → Step s (record s { translated_message_chan = ms; consumed = s.consumed ++ m ∷ [] })

pub data Steps {A : Type 0} : State A → State A → Type 0 where
  here : (s : State A) → Steps s s
  next : (s t u : State A) → Step s t → Steps t u → Steps s u
