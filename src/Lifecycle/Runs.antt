-- ===== src/Lifecycle/Runs.antt =====
-- watch.go's loop and read.go's reads, among the goroutines of a provider: what they do is a sequence
-- of the steps that Lifecycle/Steps allows.
use koanf_etcd.Base.{
  suc, ◌+◌, ◌==◌, Bool, false, List, [], ◌∷◌, ◌++◌, ◌≡◌, refl, sym, ap, ◌∙◌, if◌then◌else◌,
}
use koanf_etcd.Settings.{Settings, Handle}
use koanf_etcd.Provider.{
  State, Env, Effect, get_sent, watch_sent, on_empty_called, on_reconnect_called, on_resync_called,
  on_watch_error_called, typed_called, cb_called, slept, done_closed, context_cancelled,
  client_closed,
}
use koanf_etcd.Read.{read_ctx, read_bytes_ctx}
use koanf_etcd.Read.Effects.{read_ctx-Quiet, read_bytes_ctx-Quiet}
use koanf_etcd.Watch.Loop.{
  Loop, Round, Next, again, returns, blocked, iterate, leave, after_iteration, run_loop,
}
use koanf_etcd.Watch.Loop.Exit.{endings, Slot, Quiet-Slot, iterate-Slot}
use koanf_etcd.Lifecycle.Steps.{
  Running, System, closings, client_closings, Works, works, signals, clears, Reaches, then_steps,
}

closings-endings : (h : Handle) (t : List Effect) → closings h (endings t) ≡ closings h t
closings-endings h [] = refl
closings-endings h (done_closed k ∷ t) =
    ap (λ n. (if k == h then 1 else 0) + n) (closings-endings h t)
closings-endings h (context_cancelled k ∷ t) = closings-endings h t
closings-endings h (client_closed k ∷ t) = closings-endings h t
closings-endings h (get_sent k o ∷ t) = closings-endings h t
closings-endings h (watch_sent k o ∷ t) = closings-endings h t
closings-endings h (on_empty_called k p ∷ t) = closings-endings h t
closings-endings h (on_reconnect_called k a l r ∷ t) = closings-endings h t
closings-endings h (on_resync_called k r ∷ t) = closings-endings h t
closings-endings h (on_watch_error_called k e c ∷ t) = closings-endings h t
closings-endings h (typed_called k b ∷ t) = closings-endings h t
closings-endings h (cb_called k ∷ t) = closings-endings h t
closings-endings h (slept d ∷ t) = closings-endings h t

client_closings-endings : (t : List Effect) → client_closings (endings t) ≡ client_closings t
client_closings-endings [] = refl
client_closings-endings (client_closed k ∷ t) = ap (λ n. suc n) (client_closings-endings t)
client_closings-endings (done_closed k ∷ t) = client_closings-endings t
client_closings-endings (context_cancelled k ∷ t) = client_closings-endings t
client_closings-endings (get_sent k o ∷ t) = client_closings-endings t
client_closings-endings (watch_sent k o ∷ t) = client_closings-endings t
client_closings-endings (on_empty_called k p ∷ t) = client_closings-endings t
client_closings-endings (on_reconnect_called k a l r ∷ t) = client_closings-endings t
client_closings-endings (on_resync_called k r ∷ t) = client_closings-endings t
client_closings-endings (on_watch_error_called k e c ∷ t) = client_closings-endings t
client_closings-endings (typed_called k b ∷ t) = client_closings-endings t
client_closings-endings (cb_called k ∷ t) = client_closings-endings t
client_closings-endings (slept d ∷ t) = client_closings-endings t

module _ {V : Type 0} (env : Env V) (s : Settings V) where
  Slot-Works : (a b : State) → Slot env s a b → Works a b
  Slot-Works a b (done, cancel, cb, typed_cb, shut, ends) = record {
    same_done = done;
    same_cancel = cancel;
    same_cb = cb;
    same_typed_cb = typed_cb;
    same_closed = shut;
    same_closings =
        λ h. sym (closings-endings h b.trace) ∙ (ap (closings h) ends ∙ closings-endings h a.trace);
    same_client =
        sym (client_closings-endings b.trace)
        ∙ (ap client_closings ends ∙ client_closings-endings a.trace);
  }

  iterate-Works : (r : Round) (l : Loop) (st : State) → Works st (iterate env s r l st).0
  iterate-Works r l st = Slot-Works st (iterate env s r l st).0 (iterate-Slot env s r l st)

  module _ (owns : Bool) (client : Handle) where
    -- The system when a loop has run: it is gone if it has returned.
    abbrev pub After : System → List Running → List Running → State × Next → System
    After y rs ts (st, again l) = record y { state = st }
    After y rs ts (st, blocked l) = record y { state = st }
    After y rs ts (st, returns) = record y { state = st; loops = rs ++ ts }

    after_iteration-Reaches :
        (new : State) (y : System) (rs ts : List Running) (id : Handle)
        (continue_from : Loop → State → State × Next) (x : State × Next)
        → y.loops ≡ rs ++ record { id = id; signalled = false } ∷ ts
        → ((l : Loop) (st : State)
            → Reaches env s owns client new (record y { state = st })
            → Reaches env s owns client new (After y rs ts (continue_from l st)))
        → Reaches env s owns client new (record y { state = x.0 })
        → Reaches env s owns client new (After y rs ts (after_iteration env s continue_from x))
    unfolding after_iteration leave
    after_iteration-Reaches new y rs ts id continue_from (st, again l) here more h = more l st h
    after_iteration-Reaches new y rs ts id continue_from (st, blocked l) here more h = h
    after_iteration-Reaches new y rs ts id continue_from (st, returns) here more h =
        then_steps (then_steps h (signals rs ts id here)) (clears rs ts id refl)

    -- A loop that runs in a system that can be reached leaves it in one that can be reached,
    -- however many iterations it does, and whatever its sessions bring: with its goroutine still
    -- there, or gone if the loop returned.
    pub run_loop-Reaches :
        (new : State) (y : System) (rs ts : List Running) (id : Handle) (rounds : List Round)
        (l : Loop)
        → y.loops ≡ rs ++ record { id = id; signalled = false } ∷ ts
        → Reaches env s owns client new y
        → Reaches env s owns client new (After y rs ts (run_loop env s rounds l y.state))
    unfolding run_loop
    run_loop-Reaches new y rs ts id [] l here h = h
    run_loop-Reaches new y rs ts id (r ∷ rounds) l here h =
        after_iteration-Reaches new y rs ts id (run_loop env s rounds) (iterate env s r l y.state)
          here (λ m st h'. run_loop-Reaches new (record y { state = st }) rs ts id rounds m here h')
          (then_steps h (works (iterate env s r l y.state).0 (iterate-Works r l y.state)))

    -- So does a read.
    pub reads-Reaches :
        (new : State) (y : System)
        → Reaches env s owns client new y
        → Reaches env s owns client new (record y { state = (read_ctx env s y.state).0 })
          × Reaches env s owns client new (record y { state = (read_bytes_ctx env s y.state).0 })
    reads-Reaches new y h = (
      then_steps h
          (works _ (Slot-Works y.state _ (Quiet-Slot env s (read_ctx-Quiet env s y.state)))),
      then_steps h
          (works _ (Slot-Works y.state _ (Quiet-Slot env s (read_bytes_ctx-Quiet env s y.state)))),
    )
