-- ===== src/Folder.antt =====
-- core/folder.go: expanding folder specifications to the folders that will be downloaded.
pub mod Selection
pub mod Expansion
use go_imapgrab.Base.{
  Bool, not, ◌||◌, List, [], ◌∷◌, Bytes, codes, ◌==◌, list_eq, nat_eq, has_prefix, trim_prefix,
  keep, if◌then◌else◌,
}
use go_imapgrab.Sort.Strings.{sort_strings}
use go_imapgrab.OrderedSet.{
  OrderedSet, Iteration, new_ordered_set, has, add, remove, add_all, remove_all, set_from_slice,
  ordered_entries, union, exclusion,
}

abbrev pub all_selector : Bytes
all_selector = codes "_ALL_"

abbrev pub gmail_selector : Bytes
gmail_selector = codes "_Gmail_"

abbrev pub removal_selector : Bytes
removal_selector = codes "-"

abbrev pub gmail_prefix1 : Bytes
gmail_prefix1 = codes "[Gmail]"

abbrev pub gmail_prefix2 : Bytes
gmail_prefix2 = codes "[Google Mail]"

unfoldable pub is_gmail_dir : Bytes → Bool
is_gmail_dir dir_name = has_prefix dir_name gmail_prefix1 || has_prefix dir_name gmail_prefix2

-- `case` by `case` of the switch for a specification that begins with a minus, which is gone from
-- `spec` here. The default case trims a second minus.
unfoldable pub deselect : List Bytes → OrderedSet → Bytes → OrderedSet
deselect available s spec =
    if spec == all_selector
    then remove_all s available
    else if spec == gmail_selector
    then remove_all s (keep is_gmail_dir available)
    else remove s (trim_prefix spec removal_selector)

unfoldable pub select : List Bytes → OrderedSet → Bytes → OrderedSet
select available s spec =
    if spec == all_selector
    then add_all s available
    else if spec == gmail_selector
    then add_all s (keep is_gmail_dir available)
    else add s spec

unfoldable pub apply_spec : List Bytes → OrderedSet → Bytes → OrderedSet
apply_spec available s spec =
    if has_prefix spec removal_selector
    then deselect available s (trim_prefix spec removal_selector)
    else select available s spec

-- The loop over the specifications.
unfoldable pub apply_specs : List Bytes → OrderedSet → List Bytes → OrderedSet
apply_specs available s [] = s
apply_specs available s (spec ∷ specs) = apply_specs available (apply_spec available s spec) specs

module _ (it : Iteration) where
  unfoldable pub expand_folders : List Bytes → List Bytes → List Bytes
  expand_folders folder_specs available_folders =
      let available_set = set_from_slice available_folders in
      let folders_set = apply_specs available_folders new_ordered_set folder_specs in
      sort_strings (ordered_entries it (union it folders_set available_set))

  -- What the warning about nonexisting folders names.
  unfoldable pub unselected_folders : List Bytes → List Bytes → List Bytes
  unselected_folders folder_specs available_folders =
      let available_set = set_from_slice available_folders in
      let folders_set = apply_specs available_folders new_ordered_set folder_specs in
      ordered_entries it (exclusion it folders_set available_set)
