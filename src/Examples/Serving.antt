-- ===== src/Examples/Serving.antt =====
-- A run of `ServeMaildir` that listens in vain, and its result.
use go_imapgrab.Base.{ℕ, Option, inl, ◌≤◌, ◌≡◌, refl, true, false, ◌⊎◌, inr, some, List, [], ◌∷◌}
use go_imapgrab.Server.Requests.{ServerBackend}
use go_imapgrab.Server.Serving.{
  begin_serving, other_error, ServingError, not_serving, closing, receiving, returned, stopped,
  sent, State, first_state, stops, sends, wakes, closes, receives, Steps, here, next, interrupted,
  serving_result,
}
use go_imapgrab.Server.Serving.Returned.{CanStep, serving_returned, serving_ends}

-- The port is in use, which does not show until the user interrupts.
abbrev failed : State
failed = record first_state {
  listener = sent;
  server_err = some other_error;
  sync = true;
  hit = true;
}

abbrev done : State
done = record failed { main = returned; closed = true; sync = false }

abbrev stopped_at_once : State
stopped_at_once = record first_state { listener = stopped; server_err = some other_error }

run : Steps 5 first_state done
run = next 4 first_state stopped_at_once done (stops other_error refl (inr refl)) (
    next 3 stopped_at_once (record failed { hit = false }) done (sends refl refl)
      (interrupted 3 (record failed { hit = false }) done
        (next 2 failed (record failed { main = closing }) done (wakes refl refl)
          (next 1 (record failed { main = closing })
            (record failed { main = receiving; closed = true }) done (closes false refl)
            (next 0 (record failed { main = receiving; closed = true }) done done
              (receives refl refl) (here done))))))

abbrev backend : ServerBackend
backend = record {
  path = [];
  username = [];
  password = [];
  user = record { name = []; mailboxes = [] };
}

abbrev made : Option (ServerBackend × ℕ)
made = some (backend, 0)

begins : begin_serving made ≡ some (inl first_state)
unfolding begin_serving
begins = refl

serving_returned_example :
    ((b : ServerBackend) × (made ≡ some (b, 0)))
    × (done.hit ≡ true)
    × (done.closed ≡ true)
    × (done.listener ≡ sent)
    × ((r : List ServingError) × (serving_result done ≡ some r))
serving_returned_example = serving_returned made first_state 5 done begins run refl

serving_ends_example : (5 ≤ 5) × ((done.hit ≡ false) ⊎ (done.main ≡ returned) ⊎ CanStep done)
serving_ends_example = serving_ends 5 done run

done_result : serving_result done ≡ some (not_serving ∷ [])
unfolding serving_result
done_result = refl
