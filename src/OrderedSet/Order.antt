-- ===== src/OrderedSet/Order.antt =====
-- The order of the entries: whatever order the runtime visits the map in, `ordered_entries` gives
-- the order of insertion.
use mathlib.Core.List.Permᴰ
use go_imapgrab.Base.{
  ℕ, suc, ◌≤◌, ◌≡◌, ◌≢◌, refl, sym, ap, ◌∙◌, true, not, List, [], ◌∷◌, ◌++◌, append_assoc,
  append-nil, Bytes, ◌==◌, list_eq, nat_eq, elem, keep, All, Bool-cases, inl, inr, arith,
  if◌then◌else◌,
}
use go_imapgrab.Sort.{insert, IsSorted}
use go_imapgrab.Sort.Laws.{Commute, Apart, sort-Permᴰ, sort-IsSorted_id}
use go_imapgrab.OrderedSet.{
  Entries, OrderedSet, Iteration, keys, new_ordered_set, has, add, remove, add_all, set_from_slice,
  le_order, ordered_entries, IsRising, IsValid,
}
use go_imapgrab.OrderedSet.Content.{
  keys-add, keys-remove, new-IsValid, add-IsValid, remove-IsValid, add_all-IsValid,
}

order-Commute : (p q : Bytes × ℕ) → p.1 ≢ q.1 → Commute le_order p q
unfolding insert
order-Commute p q h [] = ground arith
order-Commute p q h (r ∷ l) = ground (arith, order-Commute p q h l)

module _ {ℓ} {P : Bytes × ℕ → Type ℓ} where
  rising-All :
      (d : Entries) (low high : ℕ)
      → ((e : Bytes × ℕ) → low ≤ e.1 → P e)
      → IsRising low d high
      → All P d
  rising-All [] low high f h = tt
  rising-All (e ∷ d) low high f (h, hs) =
      (f e h, rising-All d (suc e.1) high (λ e' le. f e' (omega arith)) hs)

rising-Apart : (d : Entries) (low high : ℕ) → IsRising low d high → Apart (Commute le_order) d
rising-Apart [] low high h = tt
rising-Apart (e ∷ d) low high (h, hs) = (
  rising-All {P = Commute le_order e} d (suc e.1) high (λ e' le. order-Commute e e' (omega arith))
      hs,
  rising-Apart d (suc e.1) high hs,
)

rising-IsSorted : (d : Entries) (low high : ℕ) → IsRising low d high → IsSorted le_order d
rising-IsSorted [] low high h = tt
rising-IsSorted (e ∷ d) low high (h, hs) = (
  rising-All {P = λ e'. le_order e e' ≡ true} d (suc e.1) high (λ e' le. ground arith) hs,
  rising-IsSorted d (suc e.1) high hs,
)

-- The runtime's order of visits does not show: the entries come in the order of insertion.
pub ordered_entries-keys :
    (it : Iteration) (s : OrderedSet) → IsValid s → ordered_entries it s ≡ keys s.entries
unfolding ordered_entries
ordered_entries-keys it s v = ap keys (
    sym (
      sort-Permᴰ le_order (Permᴰ.symm (it.visit_perm s.entries))
        (rising-Apart s.entries 0 s.order_count v.rising))
    ∙ sort-IsSorted_id le_order s.entries (rising-IsSorted s.entries 0 s.order_count v.rising))

-- What a client does to a set.
pub data Call : Type 0 where
  insert_key : Bytes → Call
  delete_key : Bytes → Call

unfoldable pub run : OrderedSet → List Call → OrderedSet
run s [] = s
run s (insert_key k ∷ calls) = run (add s k) calls
run s (delete_key k ∷ calls) = run (remove s k) calls

-- The specification: a list without repetitions.
unfoldable pub run_spec : List Bytes → List Call → List Bytes
run_spec ks [] = ks
run_spec ks (insert_key k ∷ calls) = run_spec (if elem k ks then ks else ks ++ k ∷ []) calls
run_spec ks (delete_key k ∷ calls) = run_spec (keep (λ j. not (j == k)) ks) calls

run-run_spec :
    (it : Iteration) (calls : List Call) (s : OrderedSet)
    → IsValid s
    → ordered_entries it (run s calls) ≡ run_spec (keys s.entries) calls
unfolding run run_spec
run-run_spec it [] s v = ordered_entries-keys it s v
run-run_spec it (insert_key k ∷ calls) s v =
    rw (run-run_spec it calls (add s k) (add-IsValid s k v), keys-add s k) (unfold has in refl)
run-run_spec it (delete_key k ∷ calls) s v =
    run-run_spec it calls (remove s k) (remove-IsValid s k v)
    ∙ ap (λ ks. run_spec ks calls) (unfold remove in keys-remove s.entries k)

-- After any sequence of insertions and deletions, from an empty set, the ordered entries are those
-- of a list that appends a text that it does not hold yet and drops a text that is deleted,
-- whatever order the runtime visits the map in.
pub ordered_entries-run :
    (it : Iteration) (calls : List Call)
    → ordered_entries it (run new_ordered_set calls) ≡ run_spec [] calls
ordered_entries-run it calls =
    run-run_spec it calls new_ordered_set new-IsValid ∙ unfold new_ordered_set in refl

-- The texts of a list that are not among `seen`, each at its first occurrence.
unfoldable pub first_occurrences : List Bytes → List Bytes → List Bytes
first_occurrences seen [] = []
first_occurrences seen (x ∷ xs) =
    if elem x seen then first_occurrences seen xs else x ∷ first_occurrences (seen ++ x ∷ []) xs

pub keys-add_all :
    (xs : List Bytes) (s : OrderedSet)
    → keys (add_all s xs).entries ≡ keys s.entries ++ first_occurrences (keys s.entries) xs
unfolding add_all first_occurrences
keys-add_all [] s = sym (append-nil _)
keys-add_all (x ∷ xs) s = elim (Bool-cases (elem x (keys s.entries))) [
  | inl old ↦ rw (keys-add_all xs (add s x), keys-add s x) (unfold has in rw old)
  | inr new ↦ rw (keys-add_all xs (add s x), keys-add s x) (unfold has in rw (new, append_assoc))
]

-- A set made of a slice lists the slice in its order, without repetitions.
pub ordered_entries-set_from_slice :
    (it : Iteration) (sli : List Bytes)
    → ordered_entries it (set_from_slice sli) ≡ first_occurrences [] sli
unfolding set_from_slice
ordered_entries-set_from_slice it sli =
    ordered_entries-keys it (add_all new_ordered_set sli)
      (add_all-IsValid sli new_ordered_set new-IsValid)
    ∙ (keys-add_all sli new_ordered_set ∙ unfold new_ordered_set in refl)
