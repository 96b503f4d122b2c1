-- ===== src/OrderedSet.antt =====
-- core/ordered_set.go: a set of texts that remembers the order of insertion.
--
-- The Go map from texts to insertion numbers is an association list with one entry for each key.
-- Go visits a map in an order that changes from run to run: `iterate` stands for the order that
-- the runtime chooses, and the functions that range over a map take it as an argument.
pub mod Content
pub mod Order
pub mod Algebra
use mathlib.Core.List.{Permᴰ}
use go_imapgrab.Base.{
  ℕ, suc, ◌+◌, ◌≤◌, ◌≡◌, Bool, false, not, List, [], ◌∷◌, ◌++◌, map, Bytes, ◌==◌, list_eq, nat_eq,
  elem, keep, all, length, eqb, leb, if◌then◌else◌,
}
use go_imapgrab.Sort.{sort}

-- `map[string]int`
abbrev pub Entries : Type 0
Entries = List (Bytes × ℕ)

pub record OrderedSet : Type 0 where
  pub entries : Entries
  pub order_count : ℕ

abbrev pub keys : Entries → List Bytes
keys = map (λ e. e.0)

-- An order in which the runtime visits a map: the same entries.
pub record Iteration : Type 0 where
  pub visit : Entries → Entries
  pub visit_perm : (d : Entries) → Permᴰ (visit d) d

unfoldable pub new_ordered_set : OrderedSet
new_ordered_set = record { entries = []; order_count = 0 }

unfoldable pub has : OrderedSet → Bytes → Bool
has s key = elem key (keys s.entries)

unfoldable pub add : OrderedSet → Bytes → OrderedSet
add s key = if has s key then s else record {
  entries = s.entries ++ (key, s.order_count) ∷ [];
  order_count = s.order_count + 1;
}

-- delete(s.data, key)
unfoldable pub remove : OrderedSet → Bytes → OrderedSet
remove s key = record s { entries = keep (λ e. not (e.0 == key)) s.entries }

unfoldable pub len : OrderedSet → ℕ
len s = length s.entries

-- The loops `for … { s.add(value) }` and `for … { s.remove(value) }`.
unfoldable pub add_all : OrderedSet → List Bytes → OrderedSet
add_all s [] = s
add_all s (x ∷ xs) = add_all (add s x) xs

unfoldable pub remove_all : OrderedSet → List Bytes → OrderedSet
remove_all s [] = s
remove_all s (x ∷ xs) = remove_all (remove s x) xs

unfoldable pub set_from_slice : List Bytes → OrderedSet
set_from_slice sli = add_all new_ordered_set sli

-- `order[i].order < order[j].order`, for insertion sort: not behind the other.
abbrev pub le_order : Bytes × ℕ → Bytes × ℕ → Bool
le_order p q = leb p.1 q.1

module _ (it : Iteration) where
  -- The keys that `for entry := range s.iterator()` visits.
  abbrev pub iterator : OrderedSet → List Bytes
  iterator s = keys (it.visit s.entries)

  unfoldable pub ordered_entries : OrderedSet → List Bytes
  ordered_entries s = keys (sort le_order (it.visit s.entries))

  unfoldable pub union : OrderedSet → OrderedSet → OrderedSet
  union s other = add_all new_ordered_set (keep (has other) (iterator s))

  unfoldable pub exclusion : OrderedSet → OrderedSet → OrderedSet
  exclusion s other = add_all new_ordered_set (keep (λ k. not (has other k)) (iterator s))

  unfoldable pub equal : OrderedSet → OrderedSet → Bool
  equal s other = if eqb (len s) (len other) then all (has other) (iterator s) else false

-- No key twice, and the insertion numbers rise to less than the counter.
abbrev pub IsRising : ℕ → Entries → ℕ → Type 0
IsRising low [] high = low ≤ high
IsRising low ((_, n) ∷ d) high = (low ≤ n) × IsRising (suc n) d high

abbrev pub IsUnique : List Bytes → Type 0
IsUnique [] = Unit
IsUnique (k ∷ ks) = (elem k ks ≡ false) × IsUnique ks

pub record IsValid (s : OrderedSet) : Type 0 where
  pub unique : IsUnique (keys s.entries)
  pub rising : IsRising 0 s.entries s.order_count
