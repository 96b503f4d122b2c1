-- ===== src/Paths.antt =====
-- core/maildir_path.go, with filepath.Clean and filepath.Join of Go on systems whose separator is a
-- slash.
pub mod Below
use go_imapgrab.Base.{
  ℕ, Bool, true, false, ◌||◌, List, [], ◌∷◌, ◌++◌, Bytes, eqb, ◌==◌, list_eq, nat_eq, onto_first,
  if◌then◌else◌,
}

abbrev pub dot : Bytes
dot = 46 ∷ []

abbrev pub dot_dot : Bytes
dot_dot = 46 ∷ 46 ∷ []

-- What stands between the slashes.
abbrev pub split : Bytes → List Bytes
split [] = [] ∷ []
split (c ∷ s) = let rest = split s in if eqb c 47 then [] ∷ rest else onto_first c rest

abbrev pub print_segments : List Bytes → Bytes
print_segments [] = []
print_segments (x ∷ []) = x
print_segments (x ∷ y ∷ xs) = x ++ 47 ∷ print_segments (y ∷ xs)

abbrev pub is_rooted : Bytes → Bool
is_rooted [] = false
is_rooted (c ∷ s) = eqb c 47

abbrev pub print_path : Bool → List Bytes → Bytes
print_path true xs = 47 ∷ print_segments xs
print_path false [] = dot
print_path false (x ∷ xs) = print_segments (x ∷ xs)

-- `..` behind the segments kept so far, the last one first.
abbrev pub parent : Bool → List Bytes → List Bytes
parent rooted [] = if rooted then [] else dot_dot ∷ []
parent rooted (k ∷ ks) = if k == dot_dot then dot_dot ∷ k ∷ ks else ks

abbrev pub push : Bool → Bytes → List Bytes → List Bytes
push rooted x kept =
    if x == [] || x == dot then kept else if x == dot_dot then parent rooted kept else x ∷ kept

abbrev pub clean_from : Bool → List Bytes → List Bytes → List Bytes
clean_from rooted kept [] = kept
clean_from rooted kept (x ∷ xs) = clean_from rooted (push rooted x kept) xs

abbrev pub rev : List Bytes → List Bytes
rev [] = []
rev (x ∷ xs) = rev xs ++ x ∷ []

-- The segments of filepath.Clean of a path.
abbrev pub clean_segments : Bytes → List Bytes
clean_segments s = rev (clean_from (is_rooted s) [] (split s))

-- filepath.Clean
unfoldable pub clean_path : Bytes → Bytes
clean_path s = print_path (is_rooted s) (clean_segments s)

-- filepath.Join
unfoldable pub join_paths : Bytes → Bytes → Bytes
join_paths a b =
    if a == []
    then if b == [] then [] else clean_path b
    else if b == []
    then clean_path a
    else clean_path (a ++ 47 ∷ b)

pub record MaildirPath : Type 0 where
  pub base : Bytes
  pub folder : Bytes

unfoldable pub base_path : MaildirPath → Bytes
base_path p = clean_path p.base

unfoldable pub folder_path : MaildirPath → Bytes
folder_path p = join_paths (clean_path p.base) p.folder

unfoldable pub folder_name : MaildirPath → Bytes
folder_name p = p.folder
