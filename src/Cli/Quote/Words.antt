-- ===== src/Cli/Quote/Words.antt =====
-- Reading a quoted command line gives its words back (`quote` of cli/login.go).
--
-- The reading is that of a shell that knows spaces and double quotes only.
use go_imapgrab.Base.{
  ℕ, ◌≡◌, ◌≢◌, refl, sym, ap, ◌∙◌, Bool, true, false, Bool-cases, inl, inr, List, [], ◌∷◌, ◌++◌,
  append_assoc, append-nil, Bytes, codes, join, eqb, All, arith, if◌then◌else◌,
}
use go_imapgrab.Cli.Quote.{any_space, quote_arg, quote}

pub data Kind : Type 0 where
  blank quote_mark plain : Kind

abbrev pub kind : ℕ → Kind
kind c = if eqb c 32 then blank else if eqb c b'"' then quote_mark else plain

-- Between two words, in a word, or in a word between quotes.
pub data Mode : Type 0 where
  between bare quoted : Mode

abbrev onto_first : Bytes → List Bytes → List Bytes
onto_first s [] = s ∷ []
onto_first s (w ∷ ws) = (s ++ w) ∷ ws

-- In a word the first of the result is the rest of that word.
pub words_from : Mode → Bytes → List Bytes
words_from between [] = []
words_from between (c ∷ s) = elim (kind c) [
  | blank ↦ words_from between s
  | quote_mark ↦ words_from quoted s
  | plain ↦ onto_first (c ∷ []) (words_from bare s)
]
words_from bare [] = [] ∷ []
words_from bare (c ∷ s) = elim (kind c) [
  | blank ↦ [] ∷ words_from between s
  | quote_mark ↦ words_from quoted s
  | plain ↦ onto_first (c ∷ []) (words_from bare s)
]
words_from quoted [] = [] ∷ []
words_from quoted (c ∷ s) = elim (kind c) [
  | blank ↦ onto_first (c ∷ []) (words_from quoted s)
  | quote_mark ↦ words_from bare s
  | plain ↦ onto_first (c ∷ []) (words_from quoted s)
]

abbrev pub shell_words : Bytes → List Bytes
shell_words s = words_from between s

-- No double quote is in the word.
abbrev pub IsQuotable : Bytes → Type 0
IsQuotable = All (λ c. c ≢ b'"')

onto_onto :
    (s t : Bytes) (ws : List Bytes) → onto_first s (onto_first t ws) ≡ onto_first (s ++ t) ws
onto_onto s t [] = refl
onto_onto s t (w ∷ ws) = rw append_assoc

abbrev in_word : Bool → Mode
in_word true = quoted
in_word false = bare

-- In a word there is always a first word.
onto_nil :
    (q : Bool) (s : Bytes) → onto_first [] (words_from (in_word q) s) ≡ words_from (in_word q) s
unfolding words_from
onto_nil true [] = refl
onto_nil false [] = refl
onto_nil true (c ∷ s) =
    ground (arith, onto_nil false s, onto_onto [] (c ∷ []) (words_from quoted s))
onto_nil false (c ∷ s) = ground (arith, onto_nil true s, onto_onto [] (c ∷ []) (words_from bare s))

plain_step :
    (c : ℕ) (s : Bytes)
    → kind c ≡ plain
    → (words_from bare (c ∷ s) ≡ onto_first (c ∷ []) (words_from bare s))
      × (words_from between (c ∷ s) ≡ words_from bare (c ∷ s))
unfolding words_from
plain_step c s k = rw (words_from, k) (refl, refl)

bare_run :
    (s rest : Bytes)
    → IsQuotable s
    → any_space s ≡ false
    → words_from bare (s ++ rest) ≡ onto_first s (words_from bare rest)
bare_run [] rest q n = sym (onto_nil false rest)
bare_run (c ∷ s) rest q n =
    let k : kind c ≡ plain = ground arith in
    (plain_step c (s ++ rest) k).0
    ∙ ap (onto_first (c ∷ [])) (bare_run s rest q.1 (ground arith))
    ∙ onto_onto (c ∷ []) s (words_from bare rest)

quoted_run :
    (s rest : Bytes)
    → IsQuotable s
    → words_from quoted (s ++ (b'"' ∷ rest)) ≡ onto_first s (words_from bare rest)
unfolding words_from
quoted_run [] rest q = sym (onto_nil false rest)
quoted_run (c ∷ s) rest q =
    ground (arith, quoted_run s rest q.1, onto_onto (c ∷ []) s (words_from bare rest))

quote_arg-words :
    (arg rest : Bytes) (ws : List Bytes)
    → IsQuotable arg
    → words_from bare rest ≡ [] ∷ ws
    → words_from between (quote_arg arg ++ rest) ≡ arg ∷ ws
unfolding words_from quote_arg
quote_arg-words [] rest ws q e = e
quote_arg-words (c ∷ s) rest ws q e = elim (Bool-cases (any_space (c ∷ s))) [
  | inl t ↦
      rw (t, append_assoc)
        (quoted_run (c ∷ s) rest q
          ∙ ap (onto_first (c ∷ s)) e
          ∙ ap (λ w. w ∷ ws) (append-nil (c ∷ s)))
  | inr t ↦
      let k : kind c ≡ plain = ground arith in
      rw t (
        (plain_step c (s ++ rest) k).1
        ∙ bare_run (c ∷ s) rest q t
        ∙ ap (onto_first (c ∷ s)) e
        ∙ ap (λ w. w ∷ ws) (append-nil (c ∷ s)))
]

-- The words of a quoted command line, as a shell reads them that knows spaces and double quotes
-- only, are the arguments, provided that none of these holds a double quote.
pub shell_words-quote :
    (args : List Bytes) → All IsQuotable args → shell_words (join (codes " ") (quote args)) ≡ args
unfolding quote words_from
shell_words-quote [] h = refl
shell_words-quote (a ∷ []) h =
    ap shell_words (sym (append-nil (quote_arg a))) ∙ quote_arg-words a [] [] h.0 refl
shell_words-quote (a ∷ b ∷ args) h =
    ap shell_words (append_assoc (quote_arg a) (codes " ") (join (codes " ") (quote (b ∷ args))))
    ∙ quote_arg-words a (b' ' ∷ join (codes " ") (quote (b ∷ args))) (b ∷ args) h.0
        (ap (◌∷◌ []) (shell_words-quote (b ∷ args) h.1))
