-- ===== src/Folder/Expansion.antt =====
-- The expanded folder list: which folders, how often, in which order.
use mathlib.Core.List.Permᴰ
use go_imapgrab.Base.{
  ◌≡◌, refl, sym, ap, ◌∙◌, false, not, ◌&&◌, List, [], ◌∷◌, ◌++◌, Bytes, codes, list_eq, nat_eq,
  eq_list_iff, eq_ne, elem, length, keep, arith, le_bytes,
}
use go_imapgrab.Sort.{IsSorted}
use go_imapgrab.Sort.Laws.{elem-Permᴰ, sort-permᴰ}
use go_imapgrab.Sort.Strings.{sort_strings, sort_strings-Permᴰ, sort_strings-IsSorted}
use go_imapgrab.OrderedSet.{
  OrderedSet, Iteration, keys, new_ordered_set, has, set_from_slice, union, exclusion, IsUnique,
  IsValid,
}
use go_imapgrab.OrderedSet.Content.{has-add_all, has-new, elem-keep, new-IsValid, IsUnique-keep}
use go_imapgrab.OrderedSet.Order.{ordered_entries-keys}
use go_imapgrab.OrderedSet.Algebra.{
  has-exclusion, union-IsValid, exclusion-IsValid, keys-union, IsUnique-Permᴰ,
}
use go_imapgrab.Folder.{all_selector, apply_specs, expand_folders, unselected_folders}
use go_imapgrab.Folder.Selection.{
  selected, selected_by, names, has-apply_specs, apply_specs-IsValid,
}

has-keys : (s : OrderedSet) (j : Bytes) → elem j (keys s.entries) ≡ has s j
unfolding has
has-keys s j = refl

has-set_from_slice : (sli : List Bytes) (j : Bytes) → has (set_from_slice sli) j ≡ elem j sli
unfolding set_from_slice
has-set_from_slice sli j = rw (has-add_all sli new_ordered_set j, has-new j)

module _ (specs available : List Bytes) where
  abbrev folders_set : OrderedSet
  folders_set = apply_specs available new_ordered_set specs

  folders_set-IsValid : IsValid folders_set
  folders_set-IsValid = apply_specs-IsValid available specs new_ordered_set new-IsValid

  has-folders_set : (j : Bytes) → has folders_set j ≡ selected available false specs j
  has-folders_set j = rw (has-apply_specs available specs new_ordered_set j, has-new j)

  -- The folders to sort, with the sets gone.
  abbrev chosen : List Bytes
  chosen = keep (has (set_from_slice available)) (keys folders_set.entries)

  expand_folders-chosen : (it : Iteration) → expand_folders it specs available ≡ sort_strings chosen
  unfolding expand_folders
  expand_folders-chosen it =
      ap sort_strings (
        ordered_entries-keys it (union it folders_set (set_from_slice available))
          (union-IsValid it folders_set (set_from_slice available)))
      ∙ sort_strings-Permᴰ
          (keys-union it folders_set (set_from_slice available) folders_set-IsValid)

  -- The result does not depend on the order in which the runtime visits the maps.
  pub expand_folders_deterministic :
      (it it' : Iteration) → expand_folders it specs available ≡ expand_folders it' specs available
  expand_folders_deterministic it it' = expand_folders-chosen it ∙ sym (expand_folders-chosen it')

  -- A folder is in the result exactly when the last specification that applies to it selects it
  -- and it is available; the result is in the order of `sort.Strings` and has no folder twice.
  pub expand_folders_exact :
      (it : Iteration)
      → ((j : Bytes)
          → elem j (expand_folders it specs available)
            ≡ (selected available false specs j && elem j available))
        × IsSorted le_bytes (expand_folders it specs available)
        × IsUnique (expand_folders it specs available)
  expand_folders_exact it = rw (expand_folders-chosen it) (
    λ j.
        elem-Permᴰ j (sort-permᴰ le_bytes chosen)
        ∙ (elem-keep (has (set_from_slice available)) (keys folders_set.entries) j
            ∙ cc (has-folders_set j, has-keys folders_set j, has-set_from_slice available j)),
    sort_strings-IsSorted chosen,
    IsUnique-Permᴰ (Permᴰ.symm (sort-permᴰ le_bytes chosen)) (
        IsUnique-keep (has (set_from_slice available)) (keys folders_set.entries)
          folders_set-IsValid.unique),
  )

  -- The warning names exactly the folders that are selected and not available.
  pub unselected_folders_exact :
      (it : Iteration) (j : Bytes)
      → elem j (unselected_folders it specs available)
        ≡ (selected available false specs j && not (elem j available))
  unfolding unselected_folders
  unselected_folders_exact it j =
      let out = exclusion it folders_set (set_from_slice available) in
      rw (ordered_entries-keys it out (exclusion-IsValid it folders_set (set_from_slice available)))
        (cc (
          has-keys out j,
          has-exclusion it folders_set (set_from_slice available) j,
          has-folders_set j,
          has-set_from_slice available j,
        ))

-- A specification with two minuses before a text deselects the folder of that text, and not the
-- folder whose name is the text behind one minus: that folder stays selected where it is available.
pub double_minus :
    (it : Iteration) (x : Bytes) (available : List Bytes)
    → let folders = expand_folders it (all_selector ∷ (codes "--" ++ x) ∷ []) available in
      (elem x folders ≡ false) × (elem (codes "-" ++ x) folders ≡ elem (codes "-" ++ x) available)
unfolding selected selected_by names
double_minus it x available =
    let exact = (expand_folders_exact (all_selector ∷ (codes "--" ++ x) ∷ []) available it).0 in
    (
      exact x ∙ ground (arith, eq_list_iff x x),
      exact (codes "-" ++ x)
          ∙ rw (eq_ne x (codes "-" ++ x) (λ e. absurd (omega (arith, ap length e)))) (ground arith),
    )
