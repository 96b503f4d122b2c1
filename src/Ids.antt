-- ===== src/Ids.antt =====
-- core/ids.go: which emails of the server are not on disk yet. `UidExt` is from
-- core/imap_client.go.
pub mod Missing
use go_imapgrab.Base.{
  Bool, not, List, [], ◌∷◌, ◌⊎◌, inl, inr, map, ℤ, ◌==◌, int_eq, elem, keep, all, if◌then◌else◌,
}
use go_imapgrab.Oldmail.{Oldmail}

pub record UidExt : Type 0 where
  pub folder : ℤ
  pub msg : ℤ

pub data IdsError : Type 0 where
  inconsistent_retrieved inconsistent_stored : IdsError

-- The keys of the map `oldmailUIDs`.
abbrev pub oldmail_uids : List Oldmail → List ℤ
oldmail_uids = map (λ om. om.uid)

unfoldable pub determine_missing_uids : List Oldmail → List UidExt → List ℤ ⊎ IdsError
determine_missing_uids oldmails [] = inl []
determine_missing_uids oldmails (u ∷ us) =
    if not (all (λ msg. msg.folder == u.folder) (u ∷ us))
    then inr inconsistent_retrieved
    else if not (all (λ om. om.uid_folder == u.folder) oldmails)
    then inr inconsistent_stored
    else inl (keep (λ m. not (elem m (oldmail_uids oldmails))) (map (λ msg. msg.msg) (u ∷ us)))
