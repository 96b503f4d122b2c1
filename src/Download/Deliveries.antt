-- ===== src/Download/Deliveries.antt =====
-- What the deliveries of one run do to the maildir (core/deliver.go and core/maildir.go).
use go_imapgrab.Base.{
  ◌+◌, ◌≡◌, refl, ◌∙◌, Option, none, some, Option-cases, Bool-cases, List, [], ◌∷◌, inl, inr, Bytes,
  ℤ, length, arith, ◌==◌, list_eq, nat_eq, eq_list_iff, eq_refl,
}
use go_imapgrab.Email.{rfc822_from_email}
use go_imapgrab.Email.Exact.{Result-cases}
use go_imapgrab.Maildir.{Maildir, deliver_message}
use go_imapgrab.Maildir.Delivery.{IsDelivered, deliver_message-IsDelivered}
use go_imapgrab.Oldmail.{Oldmail}
use go_imapgrab.Oldmail.Writeout.{WriteAnswer}
use go_imapgrab.UniqueName.{ThreadSafeCounter}
use go_imapgrab.Download.Retrieval.{Message}
use go_imapgrab.Download.Delivery.{Store, deliver_one, streaming_delivery}

-- What one round of the loop can do.
pub data Round (v : ℤ) (msg : Message) (before after : Maildir) (r : Option Oldmail) : Type 0 where
  failed : r ≡ none → ((n : Bytes) → after.new n ≡ before.new n) → Round v msg before after r
  delivered :
      (om : Oldmail) (text name : Bytes)
      → r ≡ some om
      → rfc822_from_email msg.fields v ≡ inl (text, om)
      → IsDelivered before after name text
      → Round v msg before after r

deliver_one-Round :
    (v : ℤ) (msg : Message) (c : ThreadSafeCounter) (d : Maildir)
    → Round v msg d (deliver_one v msg (c, d)).0.1 (deliver_one v msg (c, d)).1
unfolding deliver_one
deliver_one-Round v msg c d = elim (Result-cases (rfc822_from_email msg.fields v)) [
  | inr (e, h) ↦ rw (deliver_one, h) (failed refl (λ n. refl))
  | inl ((text, om), h) ↦ elim (deliver_message-IsDelivered msg.deliver msg.moment text c d).1 [
    | inl (e, i) ↦ rw (deliver_one, h, e) (delivered om text _ refl h i)
    | inr (n, same) ↦ elim (Option-cases (deliver_message msg.deliver msg.moment text (c, d)).1) [
      | inl e ↦ absurd (n e)
      | inr (x, e) ↦ rw (deliver_one, h, e) (failed refl same)
    ]
  ]
]

-- The records belong to messages that were sent, in their order, and the email of each is in
-- `new`; a message without a record is one that failed.
pub data Kept (v : ℤ) (d : Maildir) : List Message → List (Oldmail × WriteAnswer) → Type 0 where
  nothing : Kept v d [] []
  lost :
      (m : Message) (ms : List Message) (oms : List (Oldmail × WriteAnswer))
      → Kept v d ms oms
      → Kept v d (m ∷ ms) oms
  kept :
      (m : Message) (ms : List Message) (om : Oldmail) (oms : List (Oldmail × WriteAnswer))
      (text name : Bytes)
      → rfc822_from_email m.fields v ≡ inl (text, om)
      → d.new name ≡ some text
      → Kept v d ms oms
      → Kept v d (m ∷ ms) ((om, m.remember) ∷ oms)

-- No email of `new` is lost or changed.
abbrev pub Grows : Maildir → Maildir → Type 0
Grows d d' = (n t : Bytes) → d.new n ≡ some t → d'.new n ≡ some t

Round-Grows :
    (v : ℤ) (m : Message) (d d' : Maildir) (r : Option Oldmail) → Round v m d d' r → Grows d d'
Round-Grows v m d d' r (failed e same) n t h = same n ∙ h
Round-Grows v m d d' r (delivered om text name e f i) n t h = elim (Bool-cases (n == name)) [
  | inl e ↦ absurd (ground (arith, eq_list_iff n name, i.free_new))
  | inr e ↦ i.new_files n ∙ rw e h
]

now_in_new :
    (d d' : Maildir) (name text : Bytes) → IsDelivered d d' name text → d'.new name ≡ some text
now_in_new d d' name text i = i.new_files name ∙ rw (eq_refl name) refl

module _ (v : ℤ) where
  -- No email that was in `new` before a run is lost or changed by it.
  pub streaming_delivery-Grows :
      (ms : List Message) (st : Store) → Grows st.1 (streaming_delivery v ms st).2.1
  unfolding streaming_delivery
  streaming_delivery-Grows [] st n t h = h
  streaming_delivery-Grows (m ∷ ms) st n t h =
      let rest =
        streaming_delivery-Grows ms (deliver_one v m st).0 n t
          (Round-Grows v m st.1 _ _ (deliver_one-Round v m st.0 st.1) n t h) in
      elim (Option-cases (deliver_one v m st).1) [
        | inl e ↦ rw (streaming_delivery, e) rest
        | inr (om, e) ↦ rw (streaming_delivery, e) rest
      ]

  -- Every record of a run belongs to a message, in the order of the messages, whose email is in
  -- `new` when the run ends.
  pub streaming_delivery-Kept :
      (ms : List Message) (st : Store)
      → Kept v (streaming_delivery v ms st).2.1 ms (streaming_delivery v ms st).0
  unfolding streaming_delivery
  streaming_delivery-Kept [] st = nothing
  streaming_delivery-Kept (m ∷ ms) st = elim (deliver_one-Round v m st.0 st.1) [
    | failed e _ ↦
        rw (streaming_delivery, e) (lost m ms _ (streaming_delivery-Kept ms (deliver_one v m st).0))
    | delivered om text name e r i ↦
        rw (streaming_delivery, e)
          (kept m ms om _ text name r
            (streaming_delivery-Grows ms (deliver_one v m st).0 name text
              (now_in_new st.1 _ name text i))
            (streaming_delivery-Kept ms (deliver_one v m st).0))
  ]

  -- Each message is either delivered or counted as an error.
  pub streaming_delivery_counts :
      (ms : List Message) (st : Store)
      → length (streaming_delivery v ms st).0 + (streaming_delivery v ms st).1 ≡ length ms
  unfolding streaming_delivery
  streaming_delivery_counts [] st = refl
  streaming_delivery_counts (m ∷ ms) st =
      let rest = streaming_delivery_counts ms (deliver_one v m st).0 in
      elim (Option-cases (deliver_one v m st).1) [
        | inl e ↦ rw (streaming_delivery, e) (omega arith)
        | inr (om, e) ↦ rw (streaming_delivery, e) (omega arith)
      ]
