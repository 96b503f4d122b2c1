-- ===== src/Base/Text.antt =====
-- Go strings and byte slices as lists of bytes, with the functions of `strings`, `bytes` and `sort`
-- that the program calls.
use Prim.Native.Nat.{ℕ, ◌+◌}
use Prim.Native.Char.{code}
use Prim.Native.String.{String}
use mathlib.Core.Bool.{Bool, true, false, ◌&&◌, ◌||◌}
use mathlib.Core.List.{List, [], ◌∷◌, ◌++◌}
use go_imapgrab.Base.Tests.{ltb, leb, eqb, if◌then◌else◌}
use go_imapgrab.Base.Lists.{length, drop}

abbrev pub Bytes : Type 0
Bytes = List ℕ

-- The bytes of an ASCII literal.
abbrev pub codes : String → Bytes
codes String.[] = []
codes (String.◌∷◌ c s) = code c ∷ codes s

-- strings.HasPrefix(s, prefix)
abbrev pub has_prefix : Bytes → Bytes → Bool
has_prefix s [] = true
has_prefix [] (p ∷ prefix) = false
has_prefix (c ∷ s) (p ∷ prefix) = eqb c p && has_prefix s prefix

-- strings.TrimPrefix(s, prefix)
abbrev pub trim_prefix : Bytes → Bytes → Bytes
trim_prefix s prefix = if has_prefix s prefix then drop (length prefix) s else s

-- strings.Contains(s, part)
abbrev pub contains : Bytes → Bytes → Bool
contains [] part = has_prefix [] part
contains (c ∷ s) part = has_prefix (c ∷ s) part || contains s part

-- strings.ToLower, on ASCII letters.
abbrev pub to_lower : Bytes → Bytes
to_lower [] = []
to_lower (c ∷ s) = (if leb b'A' c && leb c b'Z' then c + 32 else c) ∷ to_lower s

-- strings.ReplaceAll(s, old, new) for an `old` of one byte.
abbrev pub replace_all : ℕ → Bytes → Bytes → Bytes
replace_all old new [] = []
replace_all old new (c ∷ s) =
    if eqb c old then new ++ replace_all old new s else c ∷ replace_all old new s

-- strings.Join(parts, sep)
abbrev pub join : Bytes → List Bytes → Bytes
join sep [] = []
join sep (s ∷ []) = s
join sep (s ∷ t ∷ parts) = s ++ sep ++ join sep (t ∷ parts)

-- s <= t, in the order of `sort.Strings`: by bytes.
abbrev pub le_bytes : Bytes → Bytes → Bool
le_bytes [] t = true
le_bytes (c ∷ s) [] = false
le_bytes (c ∷ s) (d ∷ t) = ltb c d || (eqb c d && le_bytes s t)

-- A byte before the first of some texts.
abbrev pub onto_first : ℕ → List Bytes → List Bytes
onto_first c [] = (c ∷ []) ∷ []
onto_first c (x ∷ xs) = (c ∷ x) ∷ xs
