-- ===== src/Download.antt =====
-- `downloadMissingEmailsToFolder` of core/download.go: one folder is brought up to date, and the
-- parts of it in the modules below.
--
-- The three goroutines of a download are a pipeline: each channel has one sender and one receiver,
-- so what comes through does not depend on the order in which the goroutines run, and the model
-- runs them one after the other.
mod Retrieval
mod Delivery
mod Folder
pub mod Fetching
pub mod Pipeline
pub mod Deliveries
pub mod Run
pub mod Sent
pub mod Setup
pub mod Again
pub mod Whole
use go_imapgrab.Base.{
  ℕ, ◌+◌, Bool, true, false, ◌||◌, not, Option, none, some, List, [], ◌∷◌, ◌⊎◌, inl, inr, Bytes, ℤ,
  pos, ltb, eqb, if◌then◌else◌,
}
use go_imapgrab.Oldmail.{Oldmail}
use go_imapgrab.Oldmail.Writeout.{WriteAnswer, streaming_oldmail_writeout}
use go_imapgrab.Ids.{IdsError, UidExt, determine_missing_uids}
unfoldable pub use Retrieval.*
unfoldable pub use Delivery.*
unfoldable pub use Folder.*

-- What the download of one folder reports. `panicked` is the panic of `intToUint32`.
pub data DownloadError : Type 0 where
  cannot_init : InitError → DownloadError
  cannot_select interrupted cannot_list bad_uid panicked cannot_open : DownloadError
  inconsistent : IdsError → DownloadError
  errors_in_pipeline : ℕ → ℕ → ℕ → DownloadError

-- What the server and the operating system answer during a run.
pub record World : Type 0 where
  pub init : InitAnswers
  pub select : Option MailboxStatus
  pub interrupted_early : Bool
  pub uid_replies : List (Option ℕ)
  pub list_fails : Bool
  pub polls : List ℕ → List Poll
  pub fetch_fails : Bool
  pub open_fails : Bool
  pub close_fails : Bool

-- The pipeline, and the check of its three error counts.
unfoldable pub run_pipeline : World → ℤ → List ℕ → FolderState → FolderState × Option DownloadError
run_pipeline w uid_folder nums f =
    let (messages, fetch_errs) = streaming_retrieval w.fetch_fails (w.polls nums) in
    let (delivered, deliver_errs, store) = streaming_delivery uid_folder messages f.store in
    elim (streaming_oldmail_writeout w.open_fails f.oldmail delivered w.close_fails) [
      | none ↦ (f, some cannot_open)
      | some (content, oldmail_errs) ↦ (
        record f { oldmail = some content; store = store },
        if ltb 0 fetch_errs || ltb 0 deliver_errs || ltb 0 oldmail_errs
            then some (errors_in_pipeline fetch_errs deliver_errs oldmail_errs)
            else none,
      )
    ]

-- What follows once the missing emails are known.
unfoldable pub download_missing :
    World → ℤ → List ℤ → FolderState → FolderState × Option DownloadError
download_missing w uid_folder [] f = (f, none)
download_missing w uid_folder (u ∷ us) f = elim (start_retrieval (u ∷ us)) [
  | not_positive ↦ (f, some bad_uid)
  | overflow ↦ (f, some panicked)
  | started nums ↦ run_pipeline w uid_folder nums f
]

-- The part behind the selection of the folder.
unfoldable pub download_selected :
    World → List Oldmail → MailboxStatus → FolderState → FolderState × Option DownloadError
download_selected w oldmails mbox f =
    if w.interrupted_early
    then (f, some interrupted)
    else let (uids, list_fails) = get_all_message_uuids mbox w.uid_replies w.list_fails in
      if list_fails then (f, some cannot_list) else elim (determine_missing_uids oldmails uids) [
        | inr e ↦ (f, some (inconsistent e))
        | inl missing ↦ download_missing w (pos mbox.uid_validity) missing f
      ]

unfoldable pub download_missing_emails_to_folder :
    World → FolderState → FolderState × Option DownloadError
download_missing_emails_to_folder w f =
    let (f', r) = init_maildir w.init f in
    elim r [
      | inr e ↦ (f', some (cannot_init e))
      | inl oldmails ↦ elim w.select [
        | none ↦ (f', some cannot_select)
        | some mbox ↦ download_selected w oldmails mbox f'
      ]
    ]
