-- ===== src/Server/Numbering.antt =====
-- The numbers that the local server gives to messages (core/srvbackend_mailbox.go): UIDs and
-- sequence numbers are the same.
use mathlib.Core.Path.{subst}
use go_imapgrab.Base.{
  ℕ, ◌+◌, ◌≡◌, refl, ap, Bool, some, Option-cases, List, [], ◌∷◌, ◌++◌, Bytes, pos, codes, keep,
  map, nat_eq, inl, inr, arith,
}
use go_imapgrab.Partition.{int_to_uint32}
use go_imapgrab.Server.{
  BackendMessage, PathAndInfo, DirEntry, ServerMailbox, files_of, number_messages, add_messages,
  list_from, list_messages, search_from, search_messages, update_flags_from,
}

-- The message at each position has the number of the position for its UID.
unfoldable pub IsNumbered : ℕ → List BackendMessage → Type 0
IsNumbered count [] = Unit
IsNumbered count (m ∷ ms) = (m.uid ≡ count + 1) × IsNumbered (count + 1) ms

module _ (contains : ℕ → Bool) where
  list_from-IsNumbered :
      (count : ℕ) (ms : List BackendMessage)
      → IsNumbered count ms
      → map (λ m. m.uid) (list_from contains (λ m n. some m) count ms)
        ≡ keep contains (map (λ m. m.uid) ms)
  unfolding IsNumbered list_from
  list_from-IsNumbered count [] h = refl
  list_from-IsNumbered count (m ∷ ms) h = ground (arith, list_from-IsNumbered (count + 1) ms h.1)

  -- When each message has its position for its UID, a request that names numbers gets the messages
  -- with these UIDs, in order, provided that no message fails to be fetched.
  pub list_messages-IsNumbered :
      (mb : ServerMailbox)
      → IsNumbered 0 mb.messages
      → map (λ m. m.uid) (list_messages contains (λ m n. some m) mb)
        ≡ keep contains (map (λ m. m.uid) mb.messages)
  list_messages-IsNumbered mb h = list_from-IsNumbered 0 mb.messages h

  update-IsNumbered :
      (update : List Bytes → List Bytes) (count : ℕ) (ms : List BackendMessage)
      → IsNumbered count ms
      → IsNumbered count (update_flags_from contains update count ms)
  unfolding IsNumbered update_flags_from
  update-IsNumbered update count [] h = tt
  update-IsNumbered update count (m ∷ ms) h =
      ground (arith, update-IsNumbered update (count + 1) ms h.1)

search_from-IsNumbered :
    (p : BackendMessage → Bool) (count : ℕ) (ms : List BackendMessage)
    → IsNumbered count ms
    → search_from (λ m n. some (p m)) count ms ≡ map (λ m. m.uid) (keep p ms)
unfolding IsNumbered search_from
search_from-IsNumbered p count [] h = refl
search_from-IsNumbered p count (m ∷ ms) h =
    ground (arith, search_from-IsNumbered p (count + 1) ms h.1)

same_number : (k n : ℕ) → int_to_uint32 (pos k) ≡ some n → n ≡ k
unfolding int_to_uint32
same_number k n h = ground arith

abbrev Numbered : ℕ → List PathAndInfo → List BackendMessage → Type 0
Numbered count fs ms = IsNumbered count ms × (map (λ m. m.path) ms ≡ map (λ f. f.path) fs)

number-Numbered :
    (count : ℕ) (fs : List PathAndInfo) (ms : List BackendMessage)
    → number_messages count fs ≡ some ms
    → Numbered count fs ms
unfolding IsNumbered number_messages
number-Numbered count [] ms h =
    let same : [] ≡ ms = ground arith in subst (Numbered count []) same (tt, refl)
number-Numbered count (f ∷ fs) ms h = elim (Option-cases (int_to_uint32 (pos (count + 1)))) [
  | inl i ↦ absurd (ground arith)
  | inr (n, i) ↦ elim (Option-cases (number_messages (count + 1) fs)) [
    | inl e ↦ absurd (ground arith)
    | inr (r, e) ↦
        let first : BackendMessage = record {
          path = f.path;
          date = f.mod_time;
          uid = n;
          flags = codes "\\Seen" ∷ [];
        } in
        let same : first ∷ r ≡ ms = ground arith in
        let (nums, paths) = number-Numbered (count + 1) fs r e in
        subst (Numbered count (f ∷ fs)) same
          ((same_number (count + 1) n i, nums), ap (◌∷◌ f.path) paths)
  ]
]

-- Reading the directories of a mailbox gives the files that are still there, of `new` and of `cur`,
-- in the order of `sort.Slice`, and numbers them from 1.
pub add_messages-IsNumbered :
    (sort_files : List PathAndInfo → List PathAndInfo) (new cur : List DirEntry)
    (mb mb' : ServerMailbox)
    → add_messages sort_files (some new) (some cur) mb ≡ some (inl mb')
    → IsNumbered 0 mb'.messages
      × (map (λ m. m.path) mb'.messages
          ≡ map (λ f. f.path) (sort_files (files_of new ++ files_of cur)))
unfolding add_messages
add_messages-IsNumbered sort_files new cur mb mb' h =
    elim (Option-cases (number_messages 0 (sort_files (files_of new ++ files_of cur)))) [
      | inl e ↦ absurd (ground arith)
      | inr (ms, e) ↦
          let same : ms ≡ mb'.messages = ground arith in
          subst (Numbered 0 (sort_files (files_of new ++ files_of cur))) same
            (number-Numbered 0 (sort_files (files_of new ++ files_of cur)) ms e)
    ]

-- When each message has its position for its UID, a search gives the UIDs of the messages that
-- match, in order, provided that no message fails to be matched.
pub search_messages-IsNumbered :
    (p : BackendMessage → Bool) (mb : ServerMailbox)
    → IsNumbered 0 mb.messages
    → search_messages (λ m n. some (p m)) mb ≡ map (λ m. m.uid) (keep p mb.messages)
search_messages-IsNumbered p mb h = search_from-IsNumbered p 0 mb.messages h
