-- ===== src/Email.antt =====
-- core/email.go: the content of an email, taken from the fields of a FETCH reply.
pub mod Fields
pub mod Exact
use go_imapgrab.Base.{
  ℕ, Bool, true, false, not, ◌&&◌, List, [], ◌∷◌, ◌⊎◌, inl, inr, Bytes, codes, contains, to_lower,
  ℤ, pos, length, eqb, if◌then◌else◌,
}
use go_imapgrab.Oldmail.{Oldmail}

-- A value of `msg.Format()`, by the cases of the type switch in `set`: an uint32, a time (by its
-- Unix seconds), a raw string, and anything else, by the text that `fmt.Sprint` makes of it.
pub data Field : Type 0 where
  number : ℕ → Field
  time : ℤ → Field
  raw_string : Bytes → Field
  other : Bytes → Field

pub record Email : Type 0 where
  pub uid : ℤ
  pub timestamp : ℤ
  pub rfc822 : Bytes
  pub set_uid : Bool
  pub set_timestamp : Bool
  pub set_rfc822 : Bool
  pub seen_header : Bool

pub data SetError : Type 0 where
  uid_already_set timestamp_already_set rfc822_already_set : SetError
  header_not_found : Bytes → SetError

pub data EmailError : Type 0 where
  wrong_number_of_fields incomplete : EmailError
  cannot_extract : SetError → EmailError

-- The string representation contains "rfc822", in upper or lower case.
abbrev pub is_header : Bytes → Bool
is_header s = contains (to_lower s) (codes "rfc822")

unfoldable pub set : Email → Field → Email ⊎ SetError
set e (number n) =
    if e.set_uid then inr uid_already_set else inl (record e { uid = pos n; set_uid = true })
set e (time t) =
    if e.set_timestamp
    then inr timestamp_already_set
    else inl (record e { timestamp = t; set_timestamp = true })
set e (raw_string s) = inl e
set e (other s) =
    if not e.seen_header
    then (if is_header s then inl (record e { seen_header = true }) else inr (header_not_found s))
    else if e.set_rfc822
    then inr rfc822_already_set
    else inl (record e { rfc822 = s; set_rfc822 = true })

unfoldable pub validate : Email → Bool
validate e = e.set_uid && e.set_timestamp && e.set_rfc822

abbrev pub new_email : Email
new_email = record {
  uid = pos 0;
  timestamp = pos 0;
  rfc822 = [];
  set_uid = false;
  set_timestamp = false;
  set_rfc822 = false;
  seen_header = false;
}

-- The loop over the fields.
unfoldable pub set_all : Email → List Field → Email ⊎ SetError
set_all e [] = inl e
set_all e (f ∷ fs) = elim (set e f) [ inr err ↦ inr err | inl e' ↦ set_all e' fs ]

abbrev pub rfc822_expected_num_fields : ℕ
rfc822_expected_num_fields = 6

-- What is done with the email that the loop has filled.
unfoldable pub finish : ℤ → Email ⊎ SetError → (Bytes × Oldmail) ⊎ EmailError
finish uid_folder (inr err) = inr (cannot_extract err)
finish uid_folder (inl e) =
    if not (validate e)
    then inr incomplete
    else inl (e.rfc822, record { uid_folder = uid_folder; uid = e.uid; timestamp = e.timestamp })

unfoldable pub rfc822_from_email : List Field → ℤ → (Bytes × Oldmail) ⊎ EmailError
rfc822_from_email fields uid_folder =
    if not (eqb (length fields) rfc822_expected_num_fields)
    then inr wrong_number_of_fields
    else finish uid_folder (set_all new_email fields)
