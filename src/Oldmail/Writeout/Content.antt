-- ===== src/Oldmail/Writeout/Content.antt =====
-- What a run of `streamingOldmailWriteout` leaves in the oldmail file (core/oldmail.go).
use mathlib.Core.Path.{subst}
use go_imapgrab.Base.{
  ℕ, ◌+◌, ◌≡◌, ◌↔◌, refl, Bool, true, false, Option, none, some, List, [], ◌∷◌, ◌++◌, append_assoc,
  append-nil, Bytes, take, All, if◌then◌else◌, arith, ap, sym, ◌∙◌,
}
use go_imapgrab.Oldmail.{Oldmail, stored_line, format_oldmails, parse_oldmails, Fits}
use go_imapgrab.Oldmail.RoundTrip.{parse_format_append, parse_oldmails-format_oldmails}
use go_imapgrab.Oldmail.Writeout.{
  WriteAnswer, written, write_failed, write, write_all, opened, content_of,
  streaming_oldmail_writeout, records_of, AllWritten, Outcome, complete, broken,
}

write_all_failed :
    (c : Bytes) (n : ℕ) (oms : List (Oldmail × WriteAnswer))
    → write_all (record { content = c; failed = true; err_count = n }) oms
      ≡ record { content = c; failed = true; err_count = n }
unfolding write_all
write_all_failed c n [] = refl
write_all_failed c n (om ∷ oms) = write_all_failed c n oms

abbrev Ran : Bytes → List (Oldmail × WriteAnswer) → Bytes × ℕ → Type 0
Ran old oms (added, errs) =
    Outcome oms added errs
    × ((write_all (opened old) oms).content ≡ old ++ added)
    × ((write_all (opened old) oms).err_count ≡ errs)

Outcome-written :
    (om : Oldmail) (oms : List (Oldmail × WriteAnswer)) (added : Bytes) (errs : ℕ)
    → Outcome oms added errs
    → Outcome ((om, written) ∷ oms) (stored_line om ++ added) errs
unfolding format_oldmails
Outcome-written om oms added errs (complete all e n) =
    complete (refl, all) (ap (◌++◌ (stored_line om)) e) n
Outcome-written om oms added errs (broken before after om' k all s e n) =
    broken ((om, written) ∷ before) after om' k (refl, all) (ap (◌∷◌ (om, written)) s)
      (ap (◌++◌ (stored_line om)) e
        ∙ sym (
            append_assoc (stored_line om) (format_oldmails (records_of before))
              (take k (stored_line om'))))
      n

write_all-Ran : (old : Bytes) (oms : List (Oldmail × WriteAnswer)) → (r : Bytes × ℕ) × Ran old oms r
unfolding write_all format_oldmails write
write_all-Ran old [] = (([], 0), (complete tt refl refl, sym (append-nil old), refl))
write_all-Ran old ((om, written) ∷ oms) =
    let ((added, errs), (o, c, n)) = write_all-Ran (old ++ stored_line om) oms in
    (
      (stored_line om ++ added, errs),
      (Outcome-written om oms added errs o, c ∙ append_assoc old (stored_line om) added, n),
    )
write_all-Ran old ((om, write_failed k) ∷ oms) = (
  (take k (stored_line om), 1),
  (
    broken [] oms om k tt refl refl refl,
    ap (λ w. w.content) (write_all_failed (old ++ take k (stored_line om)) 1 oms),
    ap (λ w. w.err_count) (write_all_failed (old ++ take k (stored_line om)) 1 oms),
  ),
)

-- Whatever the writes answer, a run whose file can be opened leaves the old content and behind it
-- the lines of all records, and counts no error for them, or those before the first write that
-- failed and a part of the line that failed, and counts one; a failed close counts one more.
pub streaming_oldmail_writeout-Outcome :
    (file : Option Bytes) (oms : List (Oldmail × WriteAnswer)) (close_fails : Bool)
    → (added : Bytes) × (errs : ℕ) × Outcome oms added errs
      × (streaming_oldmail_writeout false file oms close_fails
          ≡ some (content_of file ++ added, if close_fails then errs + 1 else errs))
unfolding streaming_oldmail_writeout
streaming_oldmail_writeout-Outcome file oms close_fails =
    let ((added, errs), (o, c, n)) = write_all-Ran (content_of file) oms in
    (added, errs, o, rw (c, n) refl)

AllWritten-middle :
    (before after : List (Oldmail × WriteAnswer)) (p : Oldmail × WriteAnswer)
    → AllWritten (before ++ (p ∷ after))
    → p.1 ≡ written
AllWritten-middle [] after p h = h.0
AllWritten-middle (b ∷ before) after p h = AllWritten-middle before after p h.1

written_ne_failed : (n : ℕ) → ¬ (write_failed n ≡ written)
written_ne_failed n = cc

-- A run reports no error exactly if the file could be opened and closed and every write came
-- through; then the file holds the old content and the lines of all records, in their order.
pub streaming_oldmail_writeout_clean :
    (open_fails close_fails : Bool) (file : Option Bytes) (oms : List (Oldmail × WriteAnswer))
    (content : Bytes)
    → (streaming_oldmail_writeout open_fails file oms close_fails ≡ some (content, 0)) ↔ (
        (open_fails ≡ false)
        × (close_fails ≡ false)
        × AllWritten oms
        × (content ≡ content_of file ++ format_oldmails (records_of oms)))
unfolding streaming_oldmail_writeout
streaming_oldmail_writeout_clean open_fails close_fails file oms content =
    let ((added, errs), (o, c, n)) = write_all-Ran (content_of file) oms in
    elim o [
      | complete all e z ↦
          (λ h. (ground arith, ground arith, all, ground arith), λ (f, g, a, k). ground arith)
      | broken before after om m all e k z ↦ (
        λ h. absurd ground arith,
        λ (f, g, a, k). absurd (
            written_ne_failed m
              (AllWritten-middle before after (om, write_failed m) (subst AllWritten e a))),
      )
    ]

-- Reading the file after a run that reported no error gives the records that were there before
-- and behind them those of the run, with no error, when all their numbers fit 64 bits.
pub read_after_writeout :
    (open_fails close_fails : Bool) (olds : List Oldmail) (oms : List (Oldmail × WriteAnswer))
    (content : Bytes)
    → All Fits olds
    → All Fits (records_of oms)
    → streaming_oldmail_writeout open_fails (some (format_oldmails olds)) oms close_fails
      ≡ some (content, 0)
    → parse_oldmails content ≡ (olds ++ records_of oms, none)
unfolding content_of
read_after_writeout open_fails close_fails olds oms content f g h =
    let (_, _, _, e) =
      (streaming_oldmail_writeout_clean open_fails close_fails (some (format_oldmails olds)) oms
          content).0
        h in
    rw
      (
        e,
        parse_format_append olds (format_oldmails (records_of oms)) f,
        parse_oldmails-format_oldmails (records_of oms) g,
      )
      refl

Fits-before :
    (before after : List (Oldmail × WriteAnswer))
    → All Fits (records_of (before ++ after))
    → All Fits (records_of before)
Fits-before [] after h = tt
Fits-before (b ∷ before) after h = (h.0, Fits-before before after h.1)

-- The part of a run whose records are in the file for certain: all, or those before the first write that failed.
pub data Completed (oms before : List (Oldmail × WriteAnswer)) : Type 0 where
  all_of_them : oms ≡ before → Completed oms before
  up_to_failure :
      (om : Oldmail) (n : ℕ) (after : List (Oldmail × WriteAnswer))
      → oms ≡ before ++ ((om, write_failed n) ∷ after)
      → Completed oms before

-- A run over a file of records whose numbers, like those of the run, fit 64 bits: also when writes
-- or the close fail, reading gives the old records and behind them those of the run whose writes
-- came through before the first that failed, in order, and then some that come after these.
pub streaming_oldmail_writeout_keeps :
    (olds : List Oldmail) (oms : List (Oldmail × WriteAnswer)) (close_fails : Bool)
    → All Fits olds
    → All Fits (records_of oms)
    → (before : List (Oldmail × WriteAnswer)) × (rest : List Oldmail) × (content : Bytes)
      × (errs : ℕ) × AllWritten before
      × Completed oms before
      × (streaming_oldmail_writeout false (some (format_oldmails olds)) oms close_fails
          ≡ some (content, errs))
      × ((parse_oldmails content).0 ≡ olds ++ (records_of before ++ rest))
unfolding content_of
streaming_oldmail_writeout_keeps olds oms close_fails f g =
    let (added, errs, o, e) =
      streaming_oldmail_writeout-Outcome (some (format_oldmails olds)) oms close_fails in
    elim o [
      | complete all k z ↦ (
        oms,
        [],
        _,
        _,
        all,
        all_of_them refl,
        e,
        rw (parse_format_append olds added f, k, parse_oldmails-format_oldmails (records_of oms) g)
            (ap (◌++◌ olds) (sym (append-nil (records_of oms)))),
      )
      | broken before after om n all s k z ↦ (
        before,
        (parse_oldmails (take n (stored_line om))).0,
        _,
        _,
        all,
        up_to_failure om n after s,
        e,
        rw
            (
              parse_format_append olds added f,
              k,
              parse_format_append (records_of before) (take n (stored_line om))
                  (Fits-before before _ (subst (λ l. All Fits (records_of l)) s g)),
            )
            refl,
      )
    ]
