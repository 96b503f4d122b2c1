-- ===== src/Email/Exact.antt =====
-- When an email is taken from a reply, and what is taken.
use go_imapgrab.Base.{
  ◌≡◌, ◌↔◌, refl, ap, ◌∙◌, true, false, List, [], ◌∷◌, ◌⊎◌, inl, inr, Bytes, ℤ, length, arith,
}
use go_imapgrab.Oldmail.{Oldmail}
use go_imapgrab.Email.{Field, is_header, validate, new_email, set_all, finish, rfc822_from_email}
use go_imapgrab.Email.Fields.{
  numbers_of, times_of, others_of, held_uid, held_time, held_body, bodies, headed,
  set_all-Collected, set_all_total,
}

-- Six fields: one number, one time, and of the others one header and the text behind it. (So the
-- two that are left are raw strings.)
pub record IsReply (fields : List Field) (uid_folder : ℤ) (text : Bytes) (om : Oldmail)
    : Type 0 where
  pub six : length fields ≡ 6
  pub numbers : numbers_of fields ≡ om.uid ∷ []
  pub times : times_of fields ≡ om.timestamp ∷ []
  pub others : (h : Bytes) × (is_header h ≡ true) × (others_of fields ≡ h ∷ text ∷ [])
  pub folder : om.uid_folder ≡ uid_folder

two_texts :
    (os : List Bytes) (text : Bytes)
    → bodies false os ≡ text ∷ []
    → headed false os ≡ true
    → (h : Bytes) × (is_header h ≡ true) × (os ≡ h ∷ text ∷ [])
two_texts [] text b h = cc
two_texts (o ∷ os) text b h = (o, h, ap (◌∷◌ o) b)

pub Result-cases {ℓ κ} :
    {A : Type ℓ} {B : Type κ} (r : A ⊎ B) → ((a : A) × (r ≡ inl a)) ⊎ ((b : B) × (r ≡ inr b))
Result-cases (inl a) = inl (a, refl)
Result-cases (inr b) = inr (b, refl)

module _ (fields : List Field) (uid_folder : ℤ) (text : Bytes) (om : Oldmail) where
  IsReply-sound :
      rfc822_from_email fields uid_folder ≡ inl (text, om) → IsReply fields uid_folder text om
  unfolding rfc822_from_email finish validate
  IsReply-sound h = elim (Result-cases (set_all new_email fields)) [
    | inr (err, e) ↦ absurd (ground arith)
    | inl (mail, e) ↦
        let c = set_all-Collected fields new_email mail (λ p. cc) e in
        record {
          six = ground arith;
          numbers = ground arith;
          times = ground arith;
          others = two_texts (others_of fields) text (ground arith) c.header;
          folder = ground arith;
        }
  ]

  reply_complete :
      IsReply fields uid_folder text om → rfc822_from_email fields uid_folder ≡ inl (text, om)
  unfolding rfc822_from_email finish validate
  reply_complete r =
      let (h, good, os) = r.others in
      let (mail, e) =
        set_all_total fields new_email (λ p. cc)
          (record {
            one_uid = rw r.numbers (omega arith);
            one_time = rw r.times (omega arith);
            one_text = rw os (omega arith);
            with_header = rw os good;
          }) in
      let c = set_all-Collected fields new_email mail (λ p. cc) e in
      let held : held_uid mail ≡ om.uid ∷ [] = c.uids ∙ r.numbers in
      let timed : held_time mail ≡ om.timestamp ∷ [] = c.times ∙ r.times in
      let body : held_body mail ≡ text ∷ [] = c.texts ∙ ap (bodies false) os in
      rw (r.six, e) (ground arith)

  -- An email and its record come out exactly for a reply of six fields with one number, one time
  -- and two other values, the first of which names the header; the UID, the time stamp and the text
  -- are those values, and the mailbox version is the given one.
  pub rfc822_from_email_exact :
      (rfc822_from_email fields uid_folder ≡ inl (text, om)) ↔ IsReply fields uid_folder text om
  rfc822_from_email_exact = (IsReply-sound, reply_complete)
