-- ===== src/Cache/Accounting.antt =====
-- The bytes that are counted are those that are held (core/srvbackend_message.go).
use mathlib.Core.Path.{subst}
use go_imapgrab.Base.{
  ℕ, ◌+◌, ◌≡◌, ◌≤◌, refl, sym, ◌∙◌, ap, Bool, true, false, some, Option-cases, Bool-cases, List, [],
  ◌∷◌, ◌⊎◌, inl, inr, Bytes, pos, length, eqb, ltb, elem, nat_eq, if◌then◌else◌, arith,
}
use go_imapgrab.Partition.{int_to_uint32}
use go_imapgrab.Cache.{
  ServerMessage, Memory, no_text, put_message, clear, clear_all,
  clear_backend_message_memory_if_needed, fill,
}

-- The bytes that some messages hold.
unfoldable pub held : (ℕ → ServerMessage) → List ℕ → ℕ
held heap [] = 0
held heap (m ∷ ms) = length (heap m).body + held heap ms

-- What the memory is like between two calls: the registered messages are those that are filled,
-- each once, the others hold nothing; the counted bytes are those that are held; and they exceed
-- the limit only if one message alone does.
pub record IsSound (mem : Memory) : Type 0 where
  pub counted : mem.known_bytes ≡ held mem.heap mem.messages
  pub registered : (m : ℕ) → elem m mem.messages ≡ true → (mem.heap m).filled ≡ true
  pub others_empty : (m : ℕ) → elem m mem.messages ≡ false → mem.heap m ≡ no_text
  pub bounded : (mem.known_bytes ≤ mem.max_bytes) ⊎ (length mem.messages ≡ 1)

held-put :
    (heap : ℕ → ServerMessage) (m : ℕ) (msg : ServerMessage) (ms : List ℕ)
    → elem m ms ≡ false
    → held (put_message heap m msg) ms ≡ held heap ms
unfolding held
held-put heap m msg [] h = refl
held-put heap m msg (k ∷ ms) h = ground (arith, held-put heap m msg ms)

pub clear_all-elem :
    (ms : List ℕ) (heap : ℕ → ServerMessage) (k : ℕ)
    → clear_all ms heap k ≡ (if elem k ms then no_text else heap k)
unfolding clear_all clear
clear_all-elem [] heap k = refl
clear_all-elem (m ∷ ms) heap k = ground (arith, clear_all-elem ms (clear m heap) k)

module _ (m : ℕ) (msg : ServerMessage) (mem : Memory) where
  left :
      (k : ℕ)
      → elem m mem.messages ≡ false
      → clear_all mem.messages (put_message mem.heap m msg) k
        ≡ (if eqb k m then msg else if elem k mem.messages then no_text else mem.heap k)
  left k h = ground (arith, clear_all-elem mem.messages (put_message mem.heap m msg) k)

  register-IsSound :
      IsSound mem
      → elem m mem.messages ≡ false
      → msg.filled ≡ true
      → IsSound (
          clear_backend_message_memory_if_needed m
            (length msg.body)
            (record mem { heap = put_message mem.heap m msg }))
  unfolding clear_backend_message_memory_if_needed held
  register-IsSound s new full =
      elim (Bool-cases (ltb mem.max_bytes (length msg.body + mem.known_bytes))) [
        | inl e ↦
            rw (new, e)
              record {
                counted = ground (arith, left m new);
                registered = λ k h. ground (arith, left k new);
                others_empty = λ k h. ground (arith, left k new, s.others_empty k);
                bounded = inr refl;
              }
        | inr e ↦
            rw (new, e)
              record {
                counted = ground (arith, held-put mem.heap m msg mem.messages new, s.counted);
                registered = λ k h. ground (arith, s.registered k);
                others_empty = λ k h. ground (arith, s.others_empty k);
                bounded = inl (ground arith);
              }
      ]

-- The message that was filled is in memory, also when others were dropped for it.
in_memory :
    (m n : ℕ) (msg : ServerMessage) (mem : Memory)
    → elem m mem.messages ≡ false
    → (clear_backend_message_memory_if_needed m n
          (record mem { heap = put_message mem.heap m msg })).heap
        m
      ≡ msg
unfolding clear_backend_message_memory_if_needed
in_memory m n msg mem new = ground (arith, left m msg mem m new)

not_registered :
    (m : ℕ) (mem : Memory) → IsSound mem → (mem.heap m).filled ≡ false → elem m mem.messages ≡ false
not_registered m mem s h = ground (arith, s.registered m)

-- Reading the text of a message keeps the accounting sound, also when other texts are dropped for
-- it, provided that reading the file does not fail; then the message is in memory, with the text of
-- the file unless it already had one.
pub fill-IsSound :
    (m : ℕ) (content : Bytes) (mem mem' : Memory) (e : Bool)
    → IsSound mem
    → fill m (record { content = content; failed = false }) mem ≡ some (mem', e)
    → IsSound mem'
      × (e ≡ false)
      × ((mem'.heap m).filled ≡ true)
      × (((mem.heap m).filled ≡ true) ⊎ ((mem'.heap m).body ≡ content))
unfolding fill
fill-IsSound m content mem mem' e s h = elim (Bool-cases (mem.heap m).filled) [
  | inl f ↦
      let same : mem ≡ mem' = ground arith in
      (subst IsSound same s, ground arith, subst (λ w. (w.heap m).filled ≡ true) same f, inl f)
  | inr f ↦ elim (Option-cases (int_to_uint32 (pos (length content)))) [
    | inl i ↦ absurd (ground arith)
    | inr (n, i) ↦
        let msg : ServerMessage = record { filled = true; size = n; body = content } in
        let new = not_registered m mem s f in
        let done : clear_backend_message_memory_if_needed m (length content)
              (record mem { heap = put_message mem.heap m msg })
            ≡ mem' =
          ground arith in
        let there = ap (λ w. w.heap m) (sym done) ∙ in_memory m (length content) msg mem new in
        (
          subst IsSound done (register-IsSound m msg mem s new refl),
          ground arith,
          ap (λ k. k.filled) there,
          inr (ap (λ k. k.body) there),
        )
  ]
]
