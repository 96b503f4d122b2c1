-- ===== src/Email/Fields.antt =====
-- What the loop over the fields collects.
use go_imapgrab.Base.{
  ◌≤◌, ◌≡◌, refl, Bool, true, false, List, [], ◌∷◌, ◌++◌, inl, inr, Bytes, ℤ, pos, length,
  Bool-cases, arith, if◌then◌else◌,
}
use go_imapgrab.Email.{Field, number, time, raw_string, other, Email, is_header, set, set_all}

abbrev pub numbers_of : List Field → List ℤ
numbers_of [] = []
numbers_of (number n ∷ fs) = pos n ∷ numbers_of fs
numbers_of (time t ∷ fs) = numbers_of fs
numbers_of (raw_string s ∷ fs) = numbers_of fs
numbers_of (other s ∷ fs) = numbers_of fs

abbrev pub times_of : List Field → List ℤ
times_of [] = []
times_of (number n ∷ fs) = times_of fs
times_of (time t ∷ fs) = t ∷ times_of fs
times_of (raw_string s ∷ fs) = times_of fs
times_of (other s ∷ fs) = times_of fs

abbrev pub others_of : List Field → List Bytes
others_of [] = []
others_of (number n ∷ fs) = others_of fs
others_of (time t ∷ fs) = others_of fs
others_of (raw_string s ∷ fs) = others_of fs
others_of (other s ∷ fs) = s ∷ others_of fs

-- What an email holds, as lists of at most one element.
abbrev pub held_uid : Email → List ℤ
held_uid e = if e.set_uid then e.uid ∷ [] else []

abbrev pub held_time : Email → List ℤ
held_time e = if e.set_timestamp then e.timestamp ∷ [] else []

abbrev pub held_body : Email → List Bytes
held_body e = if e.set_rfc822 then e.rfc822 ∷ [] else []

-- Of the other fields the first is the header, unless it was seen before.
abbrev pub bodies : Bool → List Bytes → List Bytes
bodies true os = os
bodies false [] = []
bodies false (h ∷ os) = os

abbrev pub headed : Bool → List Bytes → Bool
headed true os = true
headed false [] = true
headed false (h ∷ os) = is_header h

pub record Collected (e e' : Email) (fs : List Field) : Type 0 where
  pub uids : held_uid e' ≡ held_uid e ++ numbers_of fs
  pub times : held_time e' ≡ held_time e ++ times_of fs
  pub texts : held_body e' ≡ held_body e ++ bodies e.seen_header (others_of fs)
  pub header : headed e.seen_header (others_of fs) ≡ true

-- The body is set only behind the header.
abbrev pub IsOrdered : Email → Type 0
IsOrdered e = e.set_rfc822 ≡ true → e.seen_header ≡ true

pub set_all-Collected :
    (fs : List Field) (e e' : Email) → IsOrdered e → set_all e fs ≡ inl e' → Collected e e' fs
unfolding set_all set
set_all-Collected [] e e' o h = ground arith
set_all-Collected (number n ∷ fs) e e' o h = elim (Bool-cases e.set_uid) [
  | inl again ↦ absurd (ground arith)
  | inr fresh ↦
      let c = set_all-Collected fs (record e { uid = pos n; set_uid = true }) e' o (ground arith) in
      record { uids = ground arith; times = c.times; texts = c.texts; header = c.header }
]
set_all-Collected (time t ∷ fs) e e' o h = elim (Bool-cases e.set_timestamp) [
  | inl again ↦ absurd (ground arith)
  | inr fresh ↦
      let c =
        set_all-Collected fs (record e { timestamp = t; set_timestamp = true }) e' o
          (ground arith) in
      record { uids = c.uids; times = ground arith; texts = c.texts; header = c.header }
]
set_all-Collected (raw_string s ∷ fs) e e' o h =
    let c = set_all-Collected fs e e' o h in
    record { uids = c.uids; times = c.times; texts = c.texts; header = c.header }
set_all-Collected (other s ∷ fs) e e' o h = elim (Bool-cases e.seen_header) [
  | inl seen ↦ elim (Bool-cases e.set_rfc822) [
    | inl again ↦ absurd (ground arith)
    | inr fresh ↦
        let c =
          set_all-Collected fs (record e { rfc822 = s; set_rfc822 = true }) e' (λ _. seen)
            (ground arith) in
        record { uids = c.uids; times = c.times; texts = ground arith; header = ground arith }
  ]
  | inr unseen ↦ elim (Bool-cases (is_header s)) [
    | inl good ↦
        let c =
          set_all-Collected fs (record e { seen_header = true }) e' (λ _. refl) (ground arith) in
        record { uids = c.uids; times = c.times; texts = ground arith; header = ground arith }
    | inr bad ↦ absurd (ground arith)
  ]
]

-- At most one value of each kind, and a header where there are other values.
pub record Fitting (e : Email) (fs : List Field) : Type 0 where
  pub one_uid : length (held_uid e ++ numbers_of fs) ≤ 1
  pub one_time : length (held_time e ++ times_of fs) ≤ 1
  pub one_text : length (held_body e ++ bodies e.seen_header (others_of fs)) ≤ 1
  pub with_header : headed e.seen_header (others_of fs) ≡ true

pub set_all_total :
    (fs : List Field) (e : Email)
    → IsOrdered e
    → Fitting e fs
    → (e' : Email) × (set_all e fs ≡ inl e')
unfolding set_all set
set_all_total [] e o h = (e, refl)
set_all_total (number n ∷ fs) e o h = elim (Bool-cases e.set_uid) [
  | inl again ↦ absurd (ground arith)
  | inr fresh ↦
      let (e', r) =
        set_all_total fs (record e { uid = pos n; set_uid = true }) o
          (record {
            one_uid = ground arith;
            one_time = h.one_time;
            one_text = h.one_text;
            with_header = h.with_header;
          }) in
      (e', ground arith)
]
set_all_total (time t ∷ fs) e o h = elim (Bool-cases e.set_timestamp) [
  | inl again ↦ absurd (ground arith)
  | inr fresh ↦
      let (e', r) =
        set_all_total fs (record e { timestamp = t; set_timestamp = true }) o
          (record {
            one_uid = h.one_uid;
            one_time = ground arith;
            one_text = h.one_text;
            with_header = h.with_header;
          }) in
      (e', ground arith)
]
set_all_total (raw_string s ∷ fs) e o h = set_all_total fs e o (record {
  one_uid = h.one_uid;
  one_time = h.one_time;
  one_text = h.one_text;
  with_header = h.with_header;
})
set_all_total (other s ∷ fs) e o h = elim (Bool-cases e.seen_header) [
  | inl seen ↦ elim (Bool-cases e.set_rfc822) [
    | inl again ↦ absurd (ground arith)
    | inr fresh ↦
        let (e', r) =
          set_all_total fs (record e { rfc822 = s; set_rfc822 = true }) (λ _. seen)
            (record {
              one_uid = h.one_uid;
              one_time = h.one_time;
              one_text = ground arith;
              with_header = ground arith;
            }) in
        (e', ground arith)
  ]
  | inr unseen ↦
      let (e', r) =
        set_all_total fs (record e { seen_header = true }) (λ _. refl)
          (record {
            one_uid = h.one_uid;
            one_time = h.one_time;
            one_text = ground arith;
            with_header = refl;
          }) in
      (e', ground arith)
]
