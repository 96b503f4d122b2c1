-- ===== src/Server/Serving/Returned.antt =====
-- How `ServeMaildir` (core/core.go) comes to an end.
use mathlib.Core.Path.{subst}
use go_imapgrab.Base.{
  ltb, ℕ, ◌+◌, ◌≤◌, ◌≡◌, refl, sym, ap, ◌∙◌, Bool, true, false, not, ◌&&◌, ◌||◌, Bool-cases, ◌⊎◌,
  inl, inr, Option, none, some, List, [], ◌∷◌, if◌then◌else◌, arith,
}
use go_imapgrab.Server.Requests.{ServerBackend}
use go_imapgrab.Server.Serving.{
  ListenError, closed_network, other_error, ServingError, not_serving, cannot_close, Main, waiting,
  closing, receiving, returned, Listener, listening, stopped, sent, State, first_state, Step, stops,
  sends, wakes, closes, receives, begin_serving, Steps, here, next, interrupted, serving_result,
}

abbrev awake : Main → Bool
awake waiting = false
awake closing = true
awake receiving = true
awake returned = true

abbrev shut : Main → Bool
shut waiting = false
shut closing = false
shut receiving = true
shut returned = true

abbrev is_returned : Main → Bool
is_returned waiting = false
is_returned closing = false
is_returned receiving = false
is_returned returned = true

abbrev over : Listener → Bool
over listening = false
over stopped = true
over sent = true

abbrev is_sent : Listener → Bool
is_sent listening = false
is_sent stopped = false
is_sent sent = true

abbrev missing : Option ListenError → Bool
missing none = true
missing (some e) = false

-- What is left to do.
abbrev main_rest : Main → ℕ
main_rest waiting = 3
main_rest closing = 2
main_rest receiving = 1
main_rest returned = 0

abbrev listener_rest : Listener → ℕ
listener_rest listening = 2
listener_rest stopped = 1
listener_rest sent = 0

record Good (s : State) : Type 0 where
  hit_first : (awake s.main && not s.hit) ≡ false
  closed_first : (shut s.main && not s.closed) ≡ false
  has_error : (over s.listener && missing s.server_err) ≡ false
  in_channel : is_sent s.listener ≡ (s.sync || is_returned s.main)
  received : (s.sync && is_returned s.main) ≡ false

first-Good : Good first_state
first-Good = record {
  hit_first = refl;
  closed_first = refl;
  has_error = refl;
  in_channel = refl;
  received = refl;
}

Step-Good : (s t : State) → Step s t → Good s → Good t
Step-Good s _ (stops e i c) g = record {
  hit_first = g.hit_first;
  closed_first = g.closed_first;
  has_error = refl;
  in_channel = sym (ap is_sent i) ∙ g.in_channel;
  received = g.received;
}
Step-Good s _ (sends i n) g = record {
  hit_first = g.hit_first;
  closed_first = g.closed_first;
  has_error = ground (arith, g.has_error, ap over i);
  in_channel = refl;
  received = ground (arith, g.in_channel, ap is_sent i);
}
Step-Good s _ (wakes i h) g = record {
  hit_first = ground (arith, h);
  closed_first = refl;
  has_error = g.has_error;
  in_channel = ground (arith, g.in_channel, ap is_returned i);
  received = ground (arith, g.received);
}
Step-Good s _ (closes fails i) g = record {
  hit_first = ground (arith, g.hit_first, ap awake i);
  closed_first = refl;
  has_error = g.has_error;
  in_channel = ground (arith, g.in_channel, ap is_returned i);
  received = ground (arith, g.received);
}
Step-Good s _ (receives i y) g = record {
  hit_first = ground (arith, g.hit_first, ap awake i);
  closed_first = ground (arith, g.closed_first, ap shut i);
  has_error = g.has_error;
  in_channel = ground (arith, g.in_channel, y);
  received = refl;
}

Step-rest :
    (s t : State)
    → Step s t
    → 1 + (main_rest t.main + listener_rest t.listener)
      ≡ main_rest s.main + listener_rest s.listener
Step-rest s _ (stops e i c) = omega (arith, ap listener_rest i)
Step-rest s _ (sends i n) = omega (arith, ap listener_rest i)
Step-rest s _ (wakes i h) = omega (arith, ap main_rest i)
Step-rest s _ (closes fails i) = omega (arith, ap main_rest i)
Step-rest s _ (receives i y) = omega (arith, ap main_rest i)

Steps-Good :
    (n : ℕ) (s t : State)
    → Steps n s t
    → Good s
    → Good t
      × (n + (main_rest t.main + listener_rest t.listener)
          ≡ main_rest s.main + listener_rest s.listener)
Steps-Good _ _ _ (here s) g = (g, omega arith)
Steps-Good _ _ _ (next n s t u step steps) g =
    let (good, e) = Steps-Good n t u steps (Step-Good s t step g) in
    (good, omega (arith, e, Step-rest s t step))
Steps-Good _ _ _ (interrupted n s u steps) g =
    Steps-Good n (record s { hit = true }) u steps
      (record {
        hit_first = ground arith;
        closed_first = g.closed_first;
        has_error = g.has_error;
        in_channel = g.in_channel;
        received = g.received;
      })

sent_if : (l : Listener) → is_sent l ≡ true → l ≡ sent
sent_if listening e = ground (arith, e)
sent_if stopped e = ground (arith, e)
sent_if sent e = refl

error_if : (o : Option ListenError) → missing o ≡ false → (e : ListenError) × (o ≡ some e)
error_if none h = ground (arith, h)
error_if (some e) h = (e, refl)

result-some :
    (s : State) (e : ListenError)
    → s.server_err ≡ some e
    → (r : List ServingError) × (serving_result s ≡ some r)
unfolding serving_result
result-some s closed_network j = (if s.close_failed then cannot_close ∷ [] else [], rw j refl)
result-some s other_error j =
    (not_serving ∷ (if s.close_failed then cannot_close ∷ [] else []), rw j refl)

-- A step of a goroutine that is possible.
abbrev pub CanStep : State → Type 0
CanStep s = (t : State) × Step s t

receiving-CanStep :
    (s : State) (l : Listener)
    → s.main ≡ receiving
    → s.closed ≡ true
    → s.sync ≡ false
    → s.listener ≡ l
    → is_sent l ≡ false
    → CanStep s
receiving-CanStep s listening i c y j e = (
  record s { listener = stopped; server_err = some closed_network },
  stops closed_network j (inl c),
)
receiving-CanStep s stopped i c y j e = (record s { listener = sent; sync = true }, sends j y)
receiving-CanStep s sent i c y j e = ground (arith, e)

main-CanStep :
    (s : State) (m : Main) → Good s → s.main ≡ m → s.hit ≡ true → (s.main ≡ returned) ⊎ CanStep s
main-CanStep s waiting g i h = inr (record s { main = closing }, wakes i h)
main-CanStep s closing g i h =
    inr (record s { main = receiving; closed = true; close_failed = false }, closes false i)
main-CanStep s receiving g i h = elim (Bool-cases s.sync) [
  | inl y ↦ inr (record s { main = returned; sync = false }, receives i y)
  | inr y ↦
      let c : s.closed ≡ true = ground (arith, g.closed_first, ap shut i) in
      let e : is_sent s.listener ≡ false = ground (arith, g.in_channel, y, ap is_returned i) in
      inr (receiving-CanStep s s.listener i c y refl e)
]
main-CanStep s returned g i h = inl i

-- `ServeMaildir` makes five steps at most, signals not counted; and once a signal has come it is
-- never stuck: it has returned, or one of its goroutines can make a step (the library returns from
-- listening once the server was closed).
pub serving_ends :
    (n : ℕ) (s : State)
    → Steps n first_state s
    → (n ≤ 5) × ((s.hit ≡ false) ⊎ (s.main ≡ returned) ⊎ CanStep s)
serving_ends n s steps =
    let (g, e) = Steps-Good n first_state s steps first-Good in
    (
      omega (arith, e),
      elim (Bool-cases s.hit) [ inl h ↦ inr (main-CanStep s s.main g refl h) | inr h ↦ inl h ],
    )

begin_serving-first :
    (backend : Option (ServerBackend × ℕ)) (s : State)
    → begin_serving backend ≡ some (inl s)
    → (s ≡ first_state) × ((b : ServerBackend) × (backend ≡ some (b, 0)))
unfolding begin_serving
begin_serving-first none s h = ground (arith, h)
begin_serving-first (some (b, errs)) s h = elim (Bool-cases (ltb 0 errs)) [
  | inl t ↦ absurd (ground (arith, h, t))
  | inr f ↦
      let none_counted : errs ≡ 0 = ground (arith, f) in
      (ground (arith, h, f), (b, ap (λ k. some (b, k)) none_counted))
]

-- Once `ServeMaildir` has begun to serve, and only a backend that was made without an error leads
-- there (with an error it returns at once): however the goroutines take turns, and whenever signals
-- come, when it has returned, there was a signal, the server was closed, the goroutine that listens
-- has ended, and the result is a list of errors: listening has ended with an error by then, so
-- asking for it does not panic.
pub serving_returned :
    (backend : Option (ServerBackend × ℕ)) (start : State) (n : ℕ) (s : State)
    → begin_serving backend ≡ some (inl start)
    → Steps n start s
    → s.main ≡ returned
    → ((b : ServerBackend) × (backend ≡ some (b, 0)))
      × (s.hit ≡ true)
      × (s.closed ≡ true)
      × (s.listener ≡ sent)
      × ((r : List ServingError) × (serving_result s ≡ some r))
serving_returned backend start n s begins steps i =
    let (at_first, whole) = begin_serving-first backend start begins in
    let (g, _) = Steps-Good n first_state s (subst (λ x. Steps n x s) at_first steps) first-Good in
    let l = sent_if s.listener (g.in_channel ∙ ground (arith, ap is_returned i)) in
    let (e, j) = error_if s.server_err (ground (arith, g.has_error, ap over l)) in
    (
      whole,
      ground (arith, g.hit_first, ap awake i),
      ground (arith, g.closed_first, ap shut i),
      l,
      result-some s e j,
    )
