-- ===== src/Folder/Selection.antt =====
-- What a specification does to one folder, stated without sets.
use go_imapgrab.Base.{
  ◌≡◌, refl, Bool, not, ◌&&◌, ◌||◌, List, [], ◌∷◌, Bytes, ◌==◌, list_eq, nat_eq, eq_list_iff, elem,
  keep, has_prefix, trim_prefix, if_both, arith, if◌then◌else◌,
}
use go_imapgrab.OrderedSet.{OrderedSet, has, IsValid}
use go_imapgrab.OrderedSet.Content.{
  has-add, has-remove, has-add_all, has-remove_all, elem-keep, add-IsValid, remove-IsValid,
  add_all-IsValid, remove_all-IsValid,
}
use go_imapgrab.Folder.{
  all_selector, gmail_selector, removal_selector, is_gmail_dir, deselect, select, apply_spec,
  apply_specs,
}

-- A name, or one of the two selectors, applies to the folder `j`.
unfoldable pub names : List Bytes → Bytes → Bytes → Bytes → Bool
names available spec name j =
    if spec == all_selector
    then elem j available
    else if spec == gmail_selector
    then elem j available && is_gmail_dir j
    else name == j

-- Whether `j` is selected after one more specification, if `before` says whether it was before.
unfoldable pub selected_by : List Bytes → Bool → Bytes → Bytes → Bool
selected_by available before spec j =
    if has_prefix spec removal_selector
    then (let rest = trim_prefix spec removal_selector in
        before && not (names available rest (trim_prefix rest removal_selector) j))
    else before || names available spec spec j

-- Whether `j` is selected after the specifications, from left to right.
unfoldable pub selected : List Bytes → Bool → List Bytes → Bytes → Bool
selected available before [] j = before
selected available before (spec ∷ specs) j =
    selected available (selected_by available before spec j) specs j

module _ (available : List Bytes) where
  has-select :
      (s : OrderedSet) (spec j : Bytes)
      → has (select available s spec) j ≡ (has s j || names available spec spec j)
  unfolding select names
  has-select s spec j = ground (
    arith,
    has-add_all available s j,
    has-add_all (keep is_gmail_dir available) s j,
    elem-keep is_gmail_dir available j,
    has-add s spec j,
  )

  has-deselect :
      (s : OrderedSet) (spec j : Bytes)
      → has (deselect available s spec) j
        ≡ (has s j && not (names available spec (trim_prefix spec removal_selector) j))
  unfolding deselect names
  has-deselect s spec j = ground (
    arith,
    has-remove_all available s j,
    has-remove_all (keep is_gmail_dir available) s j,
    elem-keep is_gmail_dir available j,
    has-remove s (trim_prefix spec removal_selector) j,
    eq_list_iff j (trim_prefix spec removal_selector),
    eq_list_iff (trim_prefix spec removal_selector) j,
  )

  has-apply_spec :
      (s : OrderedSet) (spec j : Bytes)
      → has (apply_spec available s spec) j ≡ selected_by available (has s j) spec j
  unfolding apply_spec selected_by
  has-apply_spec s spec j =
      ground (arith, has-select s spec j, has-deselect s (trim_prefix spec removal_selector) j)

  pub has-apply_specs :
      (specs : List Bytes) (s : OrderedSet) (j : Bytes)
      → has (apply_specs available s specs) j ≡ selected available (has s j) specs j
  unfolding apply_specs selected
  has-apply_specs [] s j = refl
  has-apply_specs (spec ∷ specs) s j =
      rw (has-apply_specs specs (apply_spec available s spec) j, has-apply_spec s spec j)

  apply_spec-IsValid :
      (s : OrderedSet) (spec : Bytes) → IsValid s → IsValid (apply_spec available s spec)
  unfolding apply_spec select deselect
  apply_spec-IsValid s spec v =
      let rest = trim_prefix spec removal_selector in
      if_both (has_prefix spec removal_selector) IsValid
        (if_both (rest == all_selector) IsValid (remove_all-IsValid available s v) (
          if_both (rest == gmail_selector) IsValid
            (remove_all-IsValid (keep is_gmail_dir available) s v)
            (remove-IsValid s (trim_prefix rest removal_selector) v)))
        (if_both (spec == all_selector) IsValid (add_all-IsValid available s v) (
          if_both (spec == gmail_selector) IsValid
            (add_all-IsValid (keep is_gmail_dir available) s v) (add-IsValid s spec v)))

  pub apply_specs-IsValid :
      (specs : List Bytes) (s : OrderedSet) → IsValid s → IsValid (apply_specs available s specs)
  unfolding apply_specs
  apply_specs-IsValid [] s v = v
  apply_specs-IsValid (spec ∷ specs) s v =
      apply_specs-IsValid specs (apply_spec available s spec) (apply_spec-IsValid s spec v)
