-- ===== src/Examples/Email.antt =====
-- `rfc822FromEmail` of core/email.go at concrete inputs.
use go_imapgrab.Base.{◌≡◌, ◌↔◌, refl, List, [], ◌∷◌, codes, pos, inl, inr}
use go_imapgrab.Oldmail.{Oldmail}
use go_imapgrab.Email.{
  Field, number, time, raw_string, other, rfc822_from_email, cannot_extract, uid_already_set,
  set_all, set, finish, validate,
}
use go_imapgrab.Email.Exact.{IsReply, rfc822_from_email_exact}

abbrev reply : List Field
reply =
    raw_string (codes "UID")
    ∷ number 12
    ∷ raw_string (codes "INTERNALDATE")
    ∷ time (pos 99)
    ∷ other (codes "RFC822")
    ∷ other (codes "Hi")
    ∷ []

abbrev record_of_reply : Oldmail
record_of_reply = record { uid_folder = pos 7; uid = pos 12; timestamp = pos 99 }

taken_from_reply : rfc822_from_email reply (pos 7) ≡ inl (codes "Hi", record_of_reply)
unfolding rfc822_from_email set_all set finish validate
taken_from_reply = refl

two_numbers :
    rfc822_from_email (number 1 ∷ number 2 ∷ number 3 ∷ number 4 ∷ number 5 ∷ number 6 ∷ []) (pos 7)
    ≡ inr (cannot_extract uid_already_set)
unfolding rfc822_from_email set_all set finish validate
two_numbers = refl

rfc822_from_email_exact_example :
    (rfc822_from_email reply (pos 7) ≡ inl (codes "Hi", record_of_reply))
    ↔ IsReply reply (pos 7) (codes "Hi") record_of_reply
rfc822_from_email_exact_example = rfc822_from_email_exact reply (pos 7) (codes "Hi") record_of_reply
