-- ===== src/Examples/Paths.antt =====
-- The paths of maildirs at concrete inputs.
use go_imapgrab.Base.{◌≡◌, refl, ◌++◌, codes}
use go_imapgrab.Paths.{
  MaildirPath, split, is_rooted, print_path, clean_segments, clean_path, join_paths, base_path,
  folder_path,
}
use go_imapgrab.Paths.Below.{proper, folder_path_below}

abbrev sent_mail : MaildirPath
sent_mail = record { base = codes "./a/../mail//"; folder = codes "x/./Sent" }

sent_mail_path : folder_path sent_mail ≡ codes "mail/x/Sent"
unfolding folder_path join_paths clean_path
sent_mail_path = refl

folder_path_below_example :
    (base_path sent_mail ≡ print_path (is_rooted sent_mail.base) (clean_segments sent_mail.base))
    × (folder_path sent_mail
        ≡ print_path
            (is_rooted sent_mail.base)
            (clean_segments sent_mail.base ++ proper (split sent_mail.folder)))
folder_path_below_example = folder_path_below sent_mail refl

-- A folder of a server can be named so that its maildir is elsewhere.
abbrev elsewhere : MaildirPath
elsewhere = record { base = codes "/home/me/mail"; folder = codes "../../other" }

elsewhere_path : folder_path elsewhere ≡ codes "/home/other"
unfolding folder_path join_paths clean_path
elsewhere_path = refl
