-- ===== src/Lifecycle/Tests.antt =====
-- Tests of Watch and Close, and the theorems on their interleavings at a concrete run.
use koanf_etcd.Base.{ℕ, ◌≤◌, true, false, none, some, [], ◌∷◌, length, ◌≡◌, inl, inr, refl, arith}
use koanf_etcd.Base.Int.{pos}
use koanf_etcd.Errors.{ok, err, sentinel, closed, watch_active}
use koanf_etcd.Settings.{new_settings}
use koanf_etcd.Provider.{new_state, State, Env, done_closed, context_cancelled, client_closed}
use koanf_etcd.Watch.Loop.{Loop, Round, signal_watch_done, clear_watch_state, run_loop}
use koanf_etcd.Lifecycle.{start, watch, close_once, cancel_watch, close_client}
use koanf_etcd.Lifecycle.Steps.{
  waiting_for, System, Step, calls_watch, signals, clears, calls_close, cancels, stops_waiting,
  closes_client, Reaches, made, then_steps,
}
use koanf_etcd.Lifecycle.Runs.{After, run_loop-Reaches}
use koanf_etcd.Lifecycle.Safety.{IsSafe}
use koanf_etcd.Lifecycle.Safety.Waits.{Comes, Reaches-Comes}
use koanf_etcd.Lifecycle.Safety.Reached.{Reaches-IsSafe, Step-closed}

abbrev world : Env ℕ
world = record {
  get = λ n k o. ok (record { revision = 1; kvs = []; more = false });
  unflatten = λ m d. m;
  order = λ m. m;
  now = λ n. pos n;
  panics = λ n. none;
  fuel = 1;
}

abbrev watched : State
unfolding watch start
watched = (watch 7 0 new_state).0

watch_tests :
    ((watch 8 1 watched).1 ≡ err (sentinel watch_active))
    × ((watch 8 1 (close_once watched).0).1 ≡ err (sentinel closed))
unfolding watch start watched close_once
watch_tests = (refl, refl)

-- Watch, Close, and the end of the loop while Close waits for it.
abbrev shut : System
shut = record {
  state = record new_state {
    closed = true;
    trace = client_closed 9 ∷ done_closed 0 ∷ context_cancelled 0 ∷ [];
  };
  loops = [];
  closers = [];
  next_id = 1;
}

shut-Reaches : Reaches world new_settings true 9 new_state shut
unfolding watch start close_once cancel_watch close_client signal_watch_done clear_watch_state
shut-Reaches =
    then_steps
      (then_steps
        (then_steps
          (then_steps
            (then_steps (then_steps (then_steps made (calls_watch 7)) calls_close)
              (cancels [] [] refl))
            (signals [] [] 0 refl))
          (clears [] [] 0 refl))
        (stops_waiting [] [] (some 0) refl (inr (inl (0, refl, omega arith)))))
      (closes_client [] [] refl)

Reaches-IsSafe_example : IsSafe true shut
Reaches-IsSafe_example =
    Reaches-IsSafe world new_settings true 9 new_state shut
      (record {
        no_cancel = refl;
        no_cb = refl;
        no_typed_cb = refl;
        no_done = refl;
        not_closed = refl;
        no_effects = refl;
      })
      shut-Reaches

abbrev refused : System
refused = record shut { next_id = 2 }

shut-Step : Step world new_settings true 9 shut refused
unfolding watch start
shut-Step = calls_watch 7

Step-closed_example : (refused.state.closed ≡ true) × (length refused.loops ≤ length shut.loops)
Step-closed_example = Step-closed world new_settings true 9 shut refused shut-Step refl

-- A Close that waits for the loop of a Watch.
abbrev waiting : System
waiting = record {
  state = record watched { closed = true; watch_cancel = none; trace = context_cancelled 0 ∷ [] };
  loops = record { id = 0; signalled = false } ∷ [];
  closers = waiting_for (some 0) ∷ [];
  next_id = 1;
}

waiting-Reaches : Reaches world new_settings true 9 new_state waiting
unfolding watch start watched close_once cancel_watch
waiting-Reaches =
    then_steps (then_steps (then_steps made (calls_watch 7)) calls_close) (cancels [] [] refl)

Reaches-Comes_example : Comes 0 waiting.loops waiting.state
Reaches-Comes_example =
    Reaches-Comes world new_settings true 9 new_state waiting [] [] 0
      (record {
        no_cancel = refl;
        no_cb = refl;
        no_typed_cb = refl;
        no_done = refl;
        not_closed = refl;
        no_effects = refl;
      })
      waiting-Reaches refl

-- A Watch whose context is done before the loop opens a session.
abbrev one_watch : System
one_watch = record {
  state = watched;
  loops = record { id = 0; signalled = false } ∷ [];
  closers = [];
  next_id = 1;
}

one_watch-Reaches : Reaches world new_settings true 9 new_state one_watch
unfolding watch start watched
one_watch-Reaches = then_steps made (calls_watch 7)

abbrev cancelled : Round
cancelled = record {
  done_at_start = true;
  inputs = [];
  done_after = true;
  int_n = λ n. n;
  interrupted = true;
}

abbrev first : Loop
first = record {
  start_rev = 0;
  attempt = 0;
  pending = false;
  failed_attempts = 0;
  last_fail_err = none;
}

run_loop-Reaches_example : Reaches world new_settings true 9 new_state (
    After world new_settings true 9 one_watch [] []
      (run_loop world new_settings (cancelled ∷ []) first watched))
run_loop-Reaches_example =
    run_loop-Reaches world new_settings true 9 new_state one_watch [] [] 0 (cancelled ∷ []) first
      refl one_watch-Reaches
