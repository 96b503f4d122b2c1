-- ===== src/Ids/Missing.antt =====
-- What `determineMissingUIDs` returns, and that a download leaves nothing missing.
use mathlib.Core.Path.{subst}
use go_imapgrab.Base.{
  ◌≡◌, ◌↔◌, refl, sym, ap, ◌∙◌, true, false, not, ◌&&◌, List, [], ◌∷◌, ◌++◌, inl, map, ℤ, ◌==◌,
  int_eq, eq_ℤ_iff, elem, elem-append, keep, all, All, All-append, arith,
}
use go_imapgrab.Oldmail.{Oldmail}
use go_imapgrab.Ids.{UidExt, oldmail_uids, determine_missing_uids}

-- Every message of the server and every record on disk belongs to the mailbox version `v`.
pub record IsConsistent (v : ℤ) (oldmails : List Oldmail) (uids : List UidExt) : Type 0 where
  pub retrieved : All (λ u. u.folder ≡ v) uids
  pub stored : All (λ om. om.uid_folder ≡ v) oldmails

module _ {ℓ} {A : Type ℓ} (f : A → ℤ) where
  all_same : (v : ℤ) (xs : List A) → All (λ x. f x ≡ v) xs → all (λ x. f x == v) xs ≡ true
  all_same v [] h = refl
  all_same v (x ∷ xs) h = ground (arith, eq_ℤ_iff (f x) v, all_same v xs h.1)

  same_all : (v : ℤ) (xs : List A) → all (λ x. f x == v) xs ≡ true → All (λ x. f x ≡ v) xs
  same_all v [] h = tt
  same_all v (x ∷ xs) h = ground (arith, eq_ℤ_iff (f x) v, same_all v xs (ground arith))

abbrev pub server_uids : List UidExt → List ℤ
server_uids = map (λ u. u.msg)

missing_of : List Oldmail → List UidExt → List ℤ
missing_of oldmails uids = keep (λ m. not (elem m (oldmail_uids oldmails))) (server_uids uids)

elem-missing_of :
    (oldmails : List Oldmail) (uids : List UidExt) (m : ℤ)
    → elem m (missing_of oldmails uids)
      ≡ (elem m (server_uids uids) && not (elem m (oldmail_uids oldmails)))
unfolding missing_of
elem-missing_of oldmails [] m = refl
elem-missing_of oldmails (u ∷ uids) m =
    ground (arith, elem-missing_of oldmails uids m, eq_ℤ_iff u.msg m)

determine_first :
    (oldmails : List Oldmail) (u : UidExt) (us : List UidExt)
    → IsConsistent u.folder oldmails (u ∷ us)
    → determine_missing_uids oldmails (u ∷ us) ≡ inl (missing_of oldmails (u ∷ us))
unfolding determine_missing_uids missing_of
determine_first oldmails u us c =
    rw
      (
        all_same (λ (x : UidExt). x.folder) u.folder us c.retrieved.1,
        all_same (λ (om : Oldmail). om.uid_folder) u.folder oldmails c.stored,
      )
      (ground (arith, eq_ℤ_iff u.folder u.folder))

determine-missing_of :
    (v : ℤ) (oldmails : List Oldmail) (uids : List UidExt)
    → IsConsistent v oldmails uids
    → determine_missing_uids oldmails uids ≡ inl (missing_of oldmails uids)
determine-missing_of v oldmails [] c = unfold determine_missing_uids missing_of in refl
determine-missing_of v oldmails (u ∷ us) c =
    determine_first oldmails u us
      (subst (λ w. IsConsistent w oldmails (u ∷ us)) (sym c.retrieved.0) c)

-- There is a result, and no error, exactly when all emails of the server and all records on disk
-- belong to the mailbox version of the first email of the server.
pub determine_missing_uids-IsConsistent :
    (oldmails : List Oldmail) (u : UidExt) (us : List UidExt)
    → IsConsistent u.folder oldmails (u ∷ us)
      ↔ ((ms : List ℤ) × (determine_missing_uids oldmails (u ∷ us) ≡ inl ms))
unfolding determine_missing_uids
determine_missing_uids-IsConsistent oldmails u us = (
  λ c. (missing_of oldmails (u ∷ us), determine_first oldmails u us c),
  λ (ms, h). record {
    retrieved = same_all (λ (x : UidExt). x.folder) u.folder (u ∷ us) (ground arith);
    stored = same_all (λ (om : Oldmail). om.uid_folder) u.folder oldmails (ground arith);
  },
)

determine_result :
    (oldmails : List Oldmail) (uids : List UidExt) (ms : List ℤ)
    → determine_missing_uids oldmails uids ≡ inl ms
    → ms ≡ missing_of oldmails uids
unfolding determine_missing_uids missing_of
determine_result oldmails [] ms h = ground arith
determine_result oldmails (u ∷ us) ms h = ground arith

-- The result holds exactly the UIDs that the server has and the disk has not.
pub determine_missing_uids_exact :
    (oldmails : List Oldmail) (uids : List UidExt) (ms : List ℤ)
    → determine_missing_uids oldmails uids ≡ inl ms
    → (m : ℤ) → elem m ms ≡ (elem m (server_uids uids) && not (elem m (oldmail_uids oldmails)))
determine_missing_uids_exact oldmails uids ms h m =
    rw (determine_result oldmails uids ms h) (elem-missing_of oldmails uids m)

oldmail_uids-append :
    (xs ys : List Oldmail) → oldmail_uids (xs ++ ys) ≡ oldmail_uids xs ++ oldmail_uids ys
oldmail_uids-append [] ys = refl
oldmail_uids-append (x ∷ xs) ys = ap (◌∷◌ x.uid) (oldmail_uids-append xs ys)

empty_of_no_elem : (ms : List ℤ) → ((m : ℤ) → elem m ms ≡ false) → ms ≡ []
empty_of_no_elem [] h = refl
empty_of_no_elem (m ∷ ms) h = ground (arith, h m, eq_ℤ_iff m m)

-- Once every missing email is recorded, for the same mailbox version, the next run finds nothing to
-- download.
pub determine_missing_uids_done :
    (v : ℤ) (oldmails new : List Oldmail) (uids : List UidExt) (ms : List ℤ)
    → IsConsistent v oldmails uids
    → determine_missing_uids oldmails uids ≡ inl ms
    → All (λ om. om.uid_folder ≡ v) new
    → oldmail_uids new ≡ ms
    → determine_missing_uids (oldmails ++ new) uids ≡ inl []
determine_missing_uids_done v oldmails new uids ms c h same recorded =
    determine-missing_of v (oldmails ++ new) uids (record {
      retrieved = c.retrieved;
      stored = All-append (λ (om : Oldmail). om.uid_folder ≡ v) oldmails new c.stored same;
    })
    ∙ ap inl (
        empty_of_no_elem _ λ m.
          elem-missing_of (oldmails ++ new) uids m
          ∙ rw
              (
                oldmail_uids-append oldmails new,
                recorded,
                elem-append m (oldmail_uids oldmails) ms,
                determine_missing_uids_exact oldmails uids ms h m,
              )
              (ground arith))
