-- ===== src/Download/Fetching/Invariant.antt =====
-- An invariant of the two goroutines of `streamingRetrieval` (core/imap_client.go).
pub mod Preserved
use mathlib.Core.Path.{subst}
use go_imapgrab.Base.{
  ℕ, suc, ◌≤◌, ◌<◌, ◌≡◌, refl, sym, ap, ◌∙◌, Bool, true, false, List, [], ◌∷◌, ◌++◌, append_assoc,
  length, length-append, ◌⊎◌, inl, inr, arith,
}
use go_imapgrab.Download.Fetching.{
  message_retrieval_buffer, Once, call, Fetch, fetching, fetched, returned, Translate, checking,
  receiving, finished, handing, State, first_state, end_fetch, call_already, check, check_if, Step,
  ends, fails, calls, checks, takes, takes_nil, hands, reads, Steps, here, next,
}

abbrev pub hooks : Bool → ℕ
hooks true = 1
hooks false = 0

call-hooks : (o : Once) → o.hook_runs ≡ hooks o.called → (call o).hook_runs ≡ hooks (call o).called
unfolding call
call-hooks o h = ground arith

call-called : (o : Once) → (call o).called ≡ true
unfolding call
call-called o = ground arith

pub hooks-le : (b : Bool) → hooks b ≤ 1
hooks-le true = omega arith
hooks-le false = omega arith

pub true_ne_false : true ≡ false → ⊥
true_ne_false e = cc

fetching_ne_returned : fetching ≡ returned → ⊥
fetching_ne_returned e = cc

module _ {A : Type 0} where
  abbrev pub in_hand : Translate A → List A
  in_hand (handing m) = m ∷ []
  in_hand checking = []
  in_hand receiving = []
  in_hand finished = []

  abbrev pub in_line : List A → List A → Translate A → List A → List A
  in_line read chan t unsent = read ++ (chan ++ (in_hand t ++ unsent))

  -- All messages, in the order in which they are sent.
  abbrev pub on_the_way : State A → List A
  on_the_way s = in_line s.consumed s.translated_message_chan s.translate s.unsent

  -- Why the once was called: the library has sent all, or something went wrong.
  abbrev pub Ended : Fetch → List A → ℕ → Type 0
  Ended fetching unsent errs = Unit
  Ended fetched unsent errs = (unsent ≡ []) ⊎ (0 < errs)
  Ended returned unsent errs = (unsent ≡ []) ⊎ (0 < errs)

  abbrev pub Through : Translate A → Bool → Type 0
  Through finished called = called ≡ true
  Through checking called = Unit
  Through receiving called = Unit
  Through (handing m) called = Unit

  pub record Good (all : List A) (s : State A) : Type 0 where
    pub ordered : on_the_way s ≡ all
    pub bounded : length s.translated_message_chan ≤ message_retrieval_buffer
    pub once : s.already.hook_runs ≡ hooks s.already.called
    pub ended : Ended s.fetch s.unsent s.err_count
    pub why : (s.already.called ≡ false) ⊎ ((0 < s.err_count) ⊎ (s.fetch ≡ returned))
    pub through : Through s.translate s.already.called

  Through-mono :
      (t : Translate A) (b b' : Bool) → (b ≡ true → b' ≡ true) → Through t b → Through t b'
  Through-mono finished b b' f h = f h
  Through-mono checking b b' f h = tt
  Through-mono receiving b b' f h = tt
  Through-mono (handing m) b b' f h = tt

  Ended-more :
      (f : Fetch) (unsent : List A) (errs : ℕ) → Ended f unsent errs → Ended f unsent (suc errs)
  Ended-more fetching unsent errs h = tt
  Ended-more fetched unsent errs h = inr (omega arith)
  Ended-more returned unsent errs h = inr (omega arith)
