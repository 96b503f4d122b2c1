-- ===== src/Maildir/Delivery.antt =====
-- What a delivery does to the maildir (`deliverMessage` of core/maildir.go).
use go_imapgrab.Base.{
  ◌≡◌, ◌≢◌, ◌⊎◌, refl, false, Option, none, some, Bytes, arith, Bool-cases, Option-cases, inl, inr,
  ◌==◌, list_eq, nat_eq, eq_list_iff, eq_refl, [],
}
use go_imapgrab.UniqueName.{ThreadSafeCounter, Moment, new_unique_name}
use go_imapgrab.Maildir.{
  Dir, Maildir, Answers, put_file, exists_in, error_if_exists, written_to, not_wrote, rename,
  store_message, deliver_message, WriteFile, wrote, not_opened, wrote_part, no_faults, bad_name,
}

-- The email is in `new` under the name, which was free, and nothing else has changed.
pub record IsDelivered (before after : Maildir) (name text : Bytes) : Type 0 where
  pub free_new : before.new name ≡ none
  pub free_tmp : before.tmp name ≡ none
  pub new_files : (n : Bytes) → after.new n ≡ put_file before.new name text n
  pub tmp_files : (n : Bytes) → after.tmp n ≡ before.tmp n

absent : (d : Dir) (name : Bytes) → exists_in d name ≡ false → d name ≡ none
absent d name h = elim (Option-cases (d name)) [ inl e ↦ e | inr (c, e) ↦ absurd (ground arith) ]

no_file : (d : Dir) (name : Bytes) → d name ≡ none → exists_in d name ≡ false
no_file d name h = ground arith

renamed :
    (dir : Maildir) (name text : Bytes)
    → dir.tmp name ≡ none
    → dir.new name ≡ none
    → IsDelivered dir (rename (record dir { tmp = put_file dir.tmp name text }) name) name text
unfolding rename
renamed dir name text t n =
    rw (rename, eq_refl name)
      record {
        free_new = n;
        free_tmp = t;
        new_files = λ k. refl;
        tmp_files = λ k. elim (Bool-cases (k == name)) [
          | inl e ↦ rw e (ground (arith, eq_list_iff k name))
          | inr e ↦ rw e refl
        ];
      }

wrote_all : (w : WriteFile) → not_wrote w ≡ false → w ≡ wrote
unfolding not_wrote
wrote_all wrote h = refl
wrote_all not_opened h = cc
wrote_all (wrote_part n) h = cc

module _ (os : Answers) (name text : Bytes) (dir : Maildir) where
  no_error :
      (store_message os name text dir).1 ≡ none
      → (error_if_exists dir.tmp name os.stat_tmp_fails ≡ false)
        × (os.write_file ≡ wrote)
        × (error_if_exists dir.new name os.stat_new_fails ≡ false)
        × (os.rename_fails ≡ false)
  unfolding store_message
  no_error h = (ground arith, wrote_all os.write_file (ground arith), ground arith, ground arith)

  -- A delivery that reports no error has put the text under a name that was free in both
  -- directories, and changed nothing else.
  store_message-IsDelivered :
      (store_message os name text dir).1 ≡ none
      → IsDelivered dir (store_message os name text dir).0 name text
  unfolding store_message error_if_exists written_to not_wrote
  store_message-IsDelivered h =
      let (t, w, n, r) = no_error h in
      rw (t, w, n, r)
        (renamed dir name text (absent dir.tmp name (ground arith))
          (absent dir.new name (ground arith)))

  tmp_kept : (n : Bytes) → n ≢ name → (store_message os name text dir).0.tmp n ≡ dir.tmp n
  unfolding store_message written_to rename
  tmp_kept n d = ground (arith, eq_list_iff n name)

  -- A delivery that reports an error has not changed `new`, and no other file of `tmp`.
  store_message-error :
      (store_message os name text dir).1 ≢ none
      → ((n : Bytes) → (store_message os name text dir).0.new n ≡ dir.new n)
        × ((n : Bytes) → n ≢ name → (store_message os name text dir).0.tmp n ≡ dir.tmp n)
  unfolding store_message
  store_message-error h = (λ n. ground arith, λ n d. tmp_kept n d)

some_not_none {ℓ} : {A : Type ℓ} (a : A) {o : Option A} → o ≡ some a → o ≢ none
some_not_none a h n = ground arith

module _ (os : Answers) (m : Moment) (text : Bytes) (counter : ThreadSafeCounter)
    (dir : Maildir) where
  abbrev pub delivered_name : Bytes
  delivered_name = (new_unique_name counter m []).1

  -- A delivery takes the next delivery number. Either it reports no error and the email is in
  -- `new`, under the unique name of that delivery, which no file of `new` and `tmp` had, and nothing
  -- else has changed; or it reports an error and `new` has not changed.
  pub deliver_message-IsDelivered :
      ((deliver_message os m text (counter, dir)).0.0 ≡ (new_unique_name counter m []).0)
      × ((((deliver_message os m text (counter, dir)).1 ≡ none)
            × IsDelivered dir (deliver_message os m text (counter, dir)).0.1 delivered_name text)
          ⊎ (((deliver_message os m text (counter, dir)).1 ≢ none)
              × ((n : Bytes) → (deliver_message os m text (counter, dir)).0.1.new n ≡ dir.new n)))
  unfolding deliver_message
  deliver_message-IsDelivered = elim (Option-cases (new_unique_name counter m []).2) [
    | inl e ↦ elim (Option-cases (store_message os delivered_name text dir).1) [
      | inl s ↦
          rw (deliver_message, e)
            (refl, inl (s, store_message-IsDelivered os delivered_name text dir s))
      | inr (err, s) ↦
          let bad = some_not_none err s in
          rw (deliver_message, e)
            (refl, inr (bad, (store_message-error os delivered_name text dir bad).0))
    ]
    | inr (err, e) ↦
        rw (deliver_message, e) (refl, inr (some_not_none (bad_name err) refl, λ n. refl))
  ]

  -- When the name is made, no file has it, and the operating system fails no call, the delivery
  -- reports no error.
  pub deliver_message_succeeds :
      (new_unique_name counter m []).2 ≡ none
      → dir.tmp delivered_name ≡ none
      → dir.new delivered_name ≡ none
      → os ≡ no_faults
      → (deliver_message os m text (counter, dir)).1 ≡ none
  unfolding deliver_message store_message error_if_exists written_to not_wrote
  deliver_message_succeeds e t n o =
      rw (deliver_message, e, o, no_file dir.tmp delivered_name t, no_file dir.new delivered_name n)
        refl
