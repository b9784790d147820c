-- ===== src/Lifecycle/Safety/Reached.antt =====
-- Every provider that can be reached from a new one keeps the invariant.
use koanf_etcd.Base.{
  suc, ◌≤◌, Bool, true, false, Option, none, some, List, [], ◌∷◌, ◌++◌, length, ◌≡◌, inl, refl, ap,
  ◌∙◌, arith,
}
use koanf_etcd.Settings.{Settings, Handle}
use koanf_etcd.Provider.{State, Env}
use koanf_etcd.Watch.Loop.{signal_watch_done, clear_watch_state}
use koanf_etcd.Lifecycle.{start, watch, watch_typed, close_once, cancel_watch, close_client}
use koanf_etcd.Lifecycle.Steps.{
  System, closings, client_closings, Step, calls_watch, calls_watch_typed, works, signals, clears,
  calls_close, cancels, stops_waiting, closes_client, Reaches, made, then_steps,
}
use koanf_etcd.Lifecycle.Safety.{IsNew, IsSafe}
use koanf_etcd.Lifecycle.Safety.Calls.{start-IsSafe, typed-IsSafe}
use koanf_etcd.Lifecycle.Safety.Loops.{Works-IsSafe, signals-IsSafe, clears-IsSafe}
use koanf_etcd.Lifecycle.Safety.Closers.{
  begun-IsSafe, cancels-IsSafe, stops_waiting-IsSafe, closes_client-IsSafe,
}

module _ {V : Type 0} (env : Env V) (s : Settings V) (owns : Bool) (client : Handle) where
  Step-IsSafe : {y z : System} → IsSafe owns y → Step env s owns client y z → IsSafe owns z
  unfolding watch watch_typed close_once cancel_watch close_client signal_watch_done
      clear_watch_state
  Step-IsSafe {y} k (calls_watch cb) =
      start-IsSafe owns y (λ st. record st { watch_cb = some cb }) (λ st. (refl, refl)) k
  Step-IsSafe k (calls_watch_typed e cb) = typed-IsSafe owns _ e cb k
  Step-IsSafe k (works st w) = Works-IsSafe owns _ st w k
  Step-IsSafe k (signals rs ts id here) = signals-IsSafe env s owns _ rs ts id here k
  Step-IsSafe k (clears rs ts id here) = clears-IsSafe env s owns _ rs ts id here k
  Step-IsSafe {y} k calls_close = begun-IsSafe owns y k
  Step-IsSafe k (cancels cs ds here) = cancels-IsSafe owns _ cs ds here k
  Step-IsSafe k (stops_waiting cs ds awaited here because) =
      stops_waiting-IsSafe owns _ cs ds awaited here k
  Step-IsSafe k (closes_client cs ds here) = closes_client-IsSafe owns client _ cs ds here k

  -- However the calls of Watch, WatchTyped and Close and the loops interleave, starting from a
  -- provider that `New` has made: at most one loop is running, and the slot is that loop's or
  -- empty; its context is cancelled by a Close only; no done channel is closed twice; at most one
  -- Close does any work; and the client is closed by it, once, if it is owned, and never else.
  pub Reaches-IsSafe :
      (st : State) (y : System) → IsNew st → Reaches env s owns client st y → IsSafe owns y
  Reaches-IsSafe st _ new_one made =
      let none_yet : (h : Handle) → closings h st.trace ≡ 0 =
        λ h. ap (λ t. closings h t) new_one.no_effects in
      record {
        one_loop = (new_one.no_cancel, new_one.no_cb, new_one.no_typed_cb, new_one.no_done);
        one_close = inl (new_one.not_closed, ap client_closings new_one.no_effects);
        closed_once = λ h. ground (arith, none_yet h);
        not_yet = λ h later. none_yet h;
      }
  Reaches-IsSafe st _ new_one (then_steps {y} path step) =
      Step-IsSafe (Reaches-IsSafe st y new_one path) step

  length-around :
      {A : Type 0} (xs ys : List A) (x : A) → length (xs ++ x ∷ ys) ≡ suc (length (xs ++ ys))
  length-around [] ys x = refl
  length-around (z ∷ xs) ys x = ap suc (length-around xs ys x)

  signal-closed :
      (d : Option Handle) (st : State) → (signal_watch_done env s d st).closed ≡ st.closed
  unfolding signal_watch_done
  signal-closed none st = refl
  signal-closed (some h) st = refl

  -- A provider that is closed stays closed, and no step starts another loop.
  pub Step-closed :
      (y z : System)
      → Step env s owns client y z
      → y.state.closed ≡ true
      → (z.state.closed ≡ true) × (length z.loops ≤ length y.loops)
  unfolding watch watch_typed start close_once cancel_watch close_client clear_watch_state
  Step-closed y _ (calls_watch cb) h = ground arith
  Step-closed y _ (calls_watch_typed e cb) h = ground arith
  Step-closed y _ (works st w) h = ground arith
  Step-closed y _ (signals rs ts id here) h = (
    signal-closed y.state.watch_done y.state ∙ h,
    omega (
      arith,
      ap length here,
      length-around rs ts (record { id = id; signalled = false }),
      length-around rs ts (record { id = id; signalled = true }),
    ),
  )
  Step-closed y _ (clears rs ts id here) h =
      (h, omega (arith, ap length here, length-around rs ts (record { id = id; signalled = true })))
  Step-closed y _ calls_close h = ground arith
  Step-closed y _ (cancels cs ds here) h = ground arith
  Step-closed y _ (stops_waiting cs ds awaited here because) h = ground arith
  Step-closed y _ (closes_client cs ds here) h = ground arith
