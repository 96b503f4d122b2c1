-- ===== src/Server/Requests/Transparent.antt =====
-- The texts in the memory of core/srvbackend_message.go, and those of the files.
pub mod Plain
use mathlib.Core.Path.{subst}
use mathlib.Core.Option.{some-injective}
use go_imapgrab.Base.{
  ℕ, ◌+◌, ◌≡◌, refl, sym, ap, ◌∙◌, Bool, true, false, Bool-cases, Option, none, some, List, [], ◌∷◌,
  Bytes, length, eqb, eqb_iff, ltb, elem, nat_eq, map, if◌then◌else◌, ◌⊎◌, inl, inr, ◌>>=◌, arith,
  pos,
}
use go_imapgrab.Partition.{int_to_uint32}
use go_imapgrab.Cache.{
  ServerMessage, Memory, ReadAnswer, no_text, put_message, clear_all,
  clear_backend_message_memory_if_needed, fill,
}
use go_imapgrab.Cache.Accounting.{clear_all-elem}
use go_imapgrab.Cache.Locks.{size_stored}
use go_imapgrab.Cache.Locks.Progress.Moves.{Fit}

-- A message with the text of its file.
abbrev pub text : (ℕ → ReadAnswer) → (ℕ → ℕ) → ℕ → ServerMessage
text files sizes k = record { filled = true; size = sizes k; body = (files k).content }

-- The texts in memory are those of the files.
unfoldable pub IsFaithful : (ℕ → ReadAnswer) → (ℕ → ℕ) → Memory → Type 0
IsFaithful files sizes mem =
    (k : ℕ)
    → (mem.heap k).filled ≡ true
    → ((files k).failed ≡ false) × (mem.heap k ≡ text files sizes k)

cleared-heap :
    (m size : ℕ) (mem : Memory) (k : ℕ)
    → ((clear_backend_message_memory_if_needed m size mem).heap k ≡ mem.heap k)
      ⊎ ((clear_backend_message_memory_if_needed m size mem).heap k ≡ no_text)
unfolding clear_backend_message_memory_if_needed
cleared-heap m size mem k = elim (Bool-cases (elem m mem.messages)) [
  | inl e ↦ inl (rw e refl)
  | inr e ↦ elim (Bool-cases (ltb mem.max_bytes (size + mem.known_bytes))) [
    | inl f ↦ elim (Bool-cases (elem k mem.messages)) [
      | inl g ↦ inr (rw (e, f, clear_all-elem mem.messages mem.heap k, g) refl)
      | inr g ↦ inl (rw (e, f, clear_all-elem mem.messages mem.heap k, g) refl)
    ]
    | inr f ↦ inl (rw (e, f) refl)
  ]
]

cleared-own :
    (m size : ℕ) (mem : Memory)
    → (clear_backend_message_memory_if_needed m size mem).heap m ≡ mem.heap m
unfolding clear_backend_message_memory_if_needed
cleared-own m size mem = elim (Bool-cases (elem m mem.messages)) [
  | inl e ↦ rw e refl
  | inr e ↦ elim (Bool-cases (ltb mem.max_bytes (size + mem.known_bytes))) [
    | inl f ↦ rw (e, f, clear_all-elem mem.messages mem.heap m, e) refl
    | inr f ↦ rw (e, f) refl
  ]
]

size_of :
    (answer : ReadAnswer)
    → answer.failed ≡ false
    → size_stored answer ≡ int_to_uint32 (pos (length answer.content))
unfolding size_stored
size_of answer f = rw f refl

module _ (files : ℕ → ReadAnswer) (sizes : ℕ → ℕ) (fit : Fit files sizes) where
  cleared-IsFaithful :
      (m size : ℕ) (mem : Memory)
      → IsFaithful files sizes mem
      → IsFaithful files sizes (clear_backend_message_memory_if_needed m size mem)
  unfolding IsFaithful
  cleared-IsFaithful m size mem faithful k h = elim (cleared-heap m size mem k) [
    | inl e ↦ let (f, t) = faithful k (ap (λ x. x.filled) (sym e) ∙ h) in (f, e ∙ t)
    | inr e ↦ ground (arith, sym h ∙ ap (λ x. x.filled) e)
  ]

  put-IsFaithful :
      (m : ℕ) (mem : Memory)
      → (files m).failed ≡ false
      → IsFaithful files sizes mem
      → IsFaithful files sizes (record mem { heap = put_message mem.heap m (text files sizes m) })
  unfolding IsFaithful
  put-IsFaithful m mem f faithful k h = elim (Bool-cases (eqb k m)) [
    | inl e ↦
        let same : m ≡ k = sym ((eqb_iff k m).0 e) in
        (subst (λ j. (files j).failed ≡ false) same f, rw e (ap (text files sizes) same))
    | inr e ↦ let (f', t) = faithful k (rw e at h) in (f', rw e t)
  ]

  put-own :
      (m : ℕ) (mem : Memory) → put_message mem.heap m (text files sizes m) m ≡ text files sizes m
  put-own m mem = let e : eqb m m ≡ true = ground arith in rw e refl

  -- What `fill` comes to.
  pub record Filled (m : ℕ) (mem : Memory) : Type 0 where
    pub after : Memory
    pub result : fill m (files m) mem ≡ some (after, (files m).failed)
    pub faithful' : IsFaithful files sizes after
    pub has_text : (files m).failed ≡ false → after.heap m ≡ text files sizes m

  pub fill-Filled : (m : ℕ) (mem : Memory) → IsFaithful files sizes mem → Filled m mem
  unfolding fill size_stored IsFaithful
  fill-Filled m mem faithful = elim (Bool-cases (mem.heap m).filled) [
    | inl e ↦
        let (f, t) = faithful m e in
        record { after = mem; result = rw (e, f) refl; faithful' = faithful; has_text = λ _. t }
    | inr e ↦ elim (Bool-cases (files m).failed) [
      | inl f ↦ record {
        after = clear_backend_message_memory_if_needed m (length (files m).content) mem;
        result = rw (e, f) refl;
        faithful' = cleared-IsFaithful m (length (files m).content) mem faithful;
        has_text = λ g. ground (arith, f, g);
      }
      | inr f ↦
          let fits : int_to_uint32 (pos (length (files m).content)) ≡ some (sizes m) =
            sym (size_of (files m) f) ∙ fit m in
          let put : Memory = record mem { heap = put_message mem.heap m (text files sizes m) } in
          record {
            after = clear_backend_message_memory_if_needed m (length (files m).content) put;
            result = rw (e, f, fits) refl;
            faithful' =
                cleared-IsFaithful m (length (files m).content) put
                  (put-IsFaithful m mem f faithful);
            has_text = λ _. cleared-own m (length (files m).content) put ∙ put-own m mem;
          }
    ]
  ]
