-- ===== src/Imapgrab/FolderList/Race.antt =====
-- What `getFolderList` (core/imap_client.go) returns, however its two goroutines take turns.
use mathlib.Core.Path.{subst}
use mathlib.Core.Option.{some-injective}
use go_imapgrab.Base.{
  ℕ, ◌≡◌, refl, sym, ap, ◌∙◌, false, Option, none, some, List, [], ◌∷◌, ◌++◌, append_assoc,
  append-nil, Bytes, ◌⊎◌, inl, inr, arith,
}
use go_imapgrab.Imapgrab.FolderList.{
  State, first_state, Step, sends, closes, list_ends, receives, returns, Steps, here, next,
}

-- The folders are on their way, in order; an error is that of `List` or none yet.
record Good (sent : List Bytes) (answer : Option Bytes) (s : State) : Type 0 where
  whole : s.folders ++ (s.mailboxes ++ s.to_send) ≡ sent
  all_sent : (s.closed ≡ false) ⊎ (s.to_send ≡ [])
  from_list : (s.err ≡ none) ⊎ (s.err ≡ answer)
  replied :
      (s.reply ≡ none)
      ⊎ ((e : Option Bytes) × (s.reply ≡ some (sent, e)) × ((e ≡ none) ⊎ (e ≡ answer)))

module _ (sent : List Bytes) (answer : Option Bytes) where
  Step-Good : (s t : State) → Step answer s t → Good sent answer s → Good sent answer t
  Step-Good s _ (sends m ms e b) g = record {
    whole =
        ap (λ xs. s.folders ++ xs) (append_assoc s.mailboxes (m ∷ []) ms)
        ∙ ap (λ xs. s.folders ++ (s.mailboxes ++ xs)) (sym e)
        ∙ g.whole;
    all_sent = elim g.all_sent [ inl o ↦ inl o | inr c ↦ absurd (ground (arith, e, c)) ];
    from_list = g.from_list;
    replied = g.replied;
  }
  Step-Good s _ (closes e o) g = record {
    whole = g.whole;
    all_sent = inr e;
    from_list = g.from_list;
    replied = g.replied;
  }
  Step-Good s _ (list_ends c o) g = record {
    whole = g.whole;
    all_sent = g.all_sent;
    from_list = inr refl;
    replied = g.replied;
  }
  Step-Good s _ (receives m ms r e) g = record {
    whole =
        append_assoc s.folders (m ∷ []) (ms ++ s.to_send)
        ∙ ap (λ xs. s.folders ++ (xs ++ s.to_send)) (sym e)
        ∙ g.whole;
    all_sent = g.all_sent;
    from_list = g.from_list;
    replied = g.replied;
  }
  Step-Good s _ (returns r e c) g =
      let none_left : s.to_send ≡ [] = elim g.all_sent [
        | inl o ↦ absurd (ground (arith, c, o))
        | inr o ↦ o
      ] in
      let complete : s.folders ≡ sent =
        sym (append-nil s.folders)
        ∙ ap (λ xs. s.folders ++ xs) (sym none_left)
        ∙ ap (λ xs. s.folders ++ (xs ++ s.to_send)) (sym e)
        ∙ g.whole in
      record {
        whole = g.whole;
        all_sent = g.all_sent;
        from_list = g.from_list;
        replied = inr (s.err, ap (λ xs. some (xs, s.err)) complete, g.from_list);
      }

  Steps-Good : (n : ℕ) (s t : State) → Steps answer n s t → Good sent answer s → Good sent answer t
  Steps-Good _ _ _ (here s) g = g
  Steps-Good _ _ _ (next n s t u step steps) g = Steps-Good n t u steps (Step-Good s t step g)

  first-Good : Good sent answer (first_state sent)
  first-Good = record {
    whole = refl;
    all_sent = inl refl;
    from_list = inl refl;
    replied = inl refl;
  }

  -- The folders that are returned are all that `List` has sent, in order; the error is that of
  -- `List`, unless the loop was over before the error was set: then there is none.
  pub folder_list_sent :
      (n : ℕ) (s : State) (folders : List Bytes) (e : Option Bytes)
      → Steps answer n (first_state sent) s
      → s.reply ≡ some (folders, e)
      → (folders ≡ sent) × ((e ≡ none) ⊎ (e ≡ answer))
  folder_list_sent n s folders e steps h =
      let g = Steps-Good n (first_state sent) s steps first-Good in
      elim g.replied [
        | inl o ↦ absurd (ground (arith, h, o))
        | inr (e', i, from) ↦
            let same = some-injective _ _ (sym h ∙ i) in
            (
              ap (λ x. x.0) same,
              subst (λ x. (x ≡ none) ⊎ (x ≡ answer)) (sym (ap (λ x. x.1) same)) from,
            )
      ]
