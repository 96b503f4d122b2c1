-- ===== src/Server/Serving.antt =====
-- `ServeMaildir` of core/core.go: the goroutine that listens, and the main one that waits for an
-- interrupt and closes the server.
--
-- Parameters: how listening ends (`ListenAndServe` of the library returns with an error, that of a
-- closed connection only once `Close` was called), and whether closing fails.
pub mod Returned
use go_imapgrab.Base.{
  ℕ, ◌≡◌, Bool, true, false, ◌⊎◌, inl, inr, Option, none, some, List, [], ◌∷◌, suc, ltb,
  if◌then◌else◌,
}
use go_imapgrab.Server.Requests.{ServerBackend}

pub data ListenError : Type 0 where
  closed_network other_error : ListenError

pub data ServingError : Type 0 where
  no_backend not_serving cannot_close : ServingError

-- In `wait`; before `Close`; before the channel is read; and behind it.
pub data Main : Type 0 where
  waiting closing receiving returned : Main

-- In `ListenAndServe`; behind it; and behind the sending to the channel.
pub data Listener : Type 0 where
  listening stopped sent : Listener

pub record State : Type 0 where
  pub hit : Bool
  pub main : Main
  pub listener : Listener
  pub closed : Bool
  pub server_err : Option ListenError
  pub close_failed : Bool
  -- Whether there is a value in the channel.
  pub sync : Bool

abbrev pub first_state : State
first_state = record {
  hit = false;
  main = waiting;
  listener = listening;
  closed = false;
  server_err = none;
  close_failed = false;
  sync = false;
}

-- Serving begins unless there was an error with the backend (`none` is the panic of `newBackend`).
unfoldable pub begin_serving : Option (ServerBackend × ℕ) → Option (State ⊎ ServingError)
begin_serving none = none
begin_serving (some (backend, errs)) =
    if ltb 0 errs then some (inr no_backend) else some (inl first_state)

pub data Step (s : State) : State → Type 0 where
  stops :
      (e : ListenError)
      → s.listener ≡ listening
      → (s.closed ≡ true) ⊎ (e ≡ other_error)
      → Step s (record s { listener = stopped; server_err = some e })
  sends : s.listener ≡ stopped → s.sync ≡ false → Step s (record s { listener = sent; sync = true })
  wakes : s.main ≡ waiting → s.hit ≡ true → Step s (record s { main = closing })
  closes :
      (fails : Bool)
      → s.main ≡ closing
      → Step s (record s { main = receiving; closed = true; close_failed = fails })
  receives :
      s.main ≡ receiving → s.sync ≡ true → Step s (record s { main = returned; sync = false })

-- Steps of the two goroutines, counted, and signals, which come at any time.
pub data Steps : ℕ → State → State → Type 0 where
  here : (s : State) → Steps 0 s s
  next : (n : ℕ) (s t u : State) → Step s t → Steps n t u → Steps (suc n) s u
  interrupted : (n : ℕ) (s u : State) → Steps n (record s { hit = true }) u → Steps n s u

-- What is returned; `none` is the panic of a missing error.
unfoldable pub serving_result : State → Option (List ServingError)
serving_result s =
    let close_err : List ServingError = if s.close_failed then cannot_close ∷ [] else [] in
    elim s.server_err [
      | none ↦ none
      | some closed_network ↦ some close_err
      | some other_error ↦ some (not_serving ∷ close_err)
    ]
