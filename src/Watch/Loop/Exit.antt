-- ===== src/Watch/Loop/Exit.antt =====
-- How the loop ends: the errors that end it, and what it leaves behind.
use koanf_etcd.Base.{
  ℕ, Bool, true, false, ◌||◌, Option, none, some, List, [], ◌∷◌, ◌≡◌, refl, sym, ap, ◌∙◌, arith,
  if◌then◌else◌,
}
use koanf_etcd.Errors.{
  Error, Result, ok, err, wrap, auth, is_compacted, is_fatal_rpc_error, classify_watch_error,
  fatal_watch,
}
use koanf_etcd.Settings.{Settings, Handle}
use koanf_etcd.Provider.{
  State, Env, Effect, get_sent, watch_sent, on_empty_called, on_reconnect_called, on_resync_called,
  on_watch_error_called, typed_called, cb_called, slept, done_closed, context_cancelled,
  client_closed, emit, add64,
}
use koanf_etcd.Read.Effects.{schedule, Quiet}
use koanf_etcd.Watch.{record_watch_error, notify, notify_handle, watch_key, watch_opts}
use koanf_etcd.Watch.Session.{fresh, Outcome, waiting, ended, consume_watch}
use koanf_etcd.Watch.Session.Effects.{consume_watch-Quiet}
use koanf_etcd.Watch.Loop.{
  Loop, Round, Next, again, returns, blocked, do_resync, try_handle_compaction, record_reconnect,
  record_failure, fire_reconnect, fire_if_failed, sleep, after_pending, after_failure,
  after_handling, after_session, fatal_exit, compacted, settled, iterate, signal_watch_done, leave,
  clear_watch_state, after_iteration, run_loop,
}
use koanf_etcd.Watch.Loop.Schedule.{do_resync-Quiet, try_handle_compaction-Quiet}

-- The ends of done channels, contexts and clients, newest first.
abbrev pub endings : List Effect → List Effect
endings [] = []
endings (done_closed h ∷ t) = done_closed h ∷ endings t
endings (context_cancelled h ∷ t) = context_cancelled h ∷ endings t
endings (client_closed h ∷ t) = client_closed h ∷ endings t
endings (get_sent k o ∷ t) = endings t
endings (watch_sent k o ∷ t) = endings t
endings (on_empty_called h p ∷ t) = endings t
endings (on_reconnect_called h a l r ∷ t) = endings t
endings (on_resync_called h r ∷ t) = endings t
endings (on_watch_error_called h e c ∷ t) = endings t
endings (typed_called h b ∷ t) = endings t
endings (cb_called h ∷ t) = endings t
endings (slept d ∷ t) = endings t

endings-schedule : (t : List Effect) → endings (schedule t) ≡ endings t
endings-schedule [] = refl
endings-schedule (done_closed h ∷ t) = ap (λ w. done_closed h ∷ w) (endings-schedule t)
endings-schedule (context_cancelled h ∷ t) = ap (λ w. context_cancelled h ∷ w) (endings-schedule t)
endings-schedule (client_closed h ∷ t) = ap (λ w. client_closed h ∷ w) (endings-schedule t)
endings-schedule (get_sent k o ∷ t) = endings-schedule t
endings-schedule (watch_sent k o ∷ t) = endings-schedule t
endings-schedule (on_empty_called h p ∷ t) = endings-schedule t
endings-schedule (on_reconnect_called h a l r ∷ t) = endings-schedule t
endings-schedule (on_resync_called h r ∷ t) = endings-schedule t
endings-schedule (on_watch_error_called h e c ∷ t) = endings-schedule t
endings-schedule (typed_called h b ∷ t) = endings-schedule t
endings-schedule (cb_called h ∷ t) = endings-schedule t
endings-schedule (slept d ∷ t) = endings-schedule t

module _ {V : Type 0} (env : Env V) (s : Settings V) where
  -- A session that a fatal error ends returns from the loop, whatever the context is, with the
  -- error counted twice, and with two calls of OnWatchError where it is set: the error itself, and
  -- the error wrapped.
  pub after_session_fatal :
      (h : Handle) (r : Round) (l : Loop) (st : State) (d p : Bool) (rev : ℕ) (e : Error)
      → s.on_watch_error ≡ some h
      → is_fatal_rpc_error (some e) ≡ true
      → is_compacted e ≡ false
      → let st' = if p then fire_if_failed env s l st else st in
        let (last, next) = after_session env s r l (st, ended d rev p (some e)) in
        (next ≡ returns)
        × (last.stats.total_watch_errors ≡ add64 (add64 st.stats.total_watch_errors 1) 1)
        × (last.trace
            ≡ on_watch_error_called h (wrap fatal_watch e) auth
              ∷ on_watch_error_called h e auth
              ∷ st'.trace)
  unfolding after_session after_handling after_failure try_handle_compaction record_failure
      fatal_exit record_watch_error notify notify_handle fire_if_failed fire_reconnect
      classify_watch_error compacted
  after_session_fatal h r l st d p rev e on fatal calm = ground arith

  -- The slot of the watch and the flag `closed` are as they were, and nothing has ended.
  abbrev pub Slot : State → State → Type 0
  Slot a b =
      (b.watch_done ≡ a.watch_done)
      × (b.watch_cancel ≡ a.watch_cancel)
      × (b.watch_cb ≡ a.watch_cb)
      × (b.watch_typed_cb ≡ a.watch_typed_cb)
      × (b.closed ≡ a.closed)
      × (endings b.trace ≡ endings a.trace)

  pub Quiet-Slot : {a b : State} → Quiet a b → Slot a b
  Quiet-Slot {a} {b} q = (
    q.same_done,
    q.same_cancel,
    q.same_cb,
    q.same_typed_cb,
    q.same_closed,
    sym (endings-schedule b.trace) ∙ (ap endings q.same_schedule ∙ endings-schedule a.trace),
  )

  fire_reconnect-Slot :
      (n : ℕ) (last : Option Error) (st : State) → Slot st (fire_reconnect env s n last st)
  unfolding fire_reconnect
  fire_reconnect-Slot n last st = ground arith

  fire_if_failed-Slot : (l : Loop) (st : State) → Slot st (fire_if_failed env s l st)
  unfolding fire_if_failed
  fire_if_failed-Slot l st = ground arith

  after_pending-Slot :
      (r : Round) (l : Loop) (x : State × Result ℕ) → Slot x.0 (after_pending env s r l x).0
  unfolding after_pending sleep notify record_reconnect
  after_pending-Slot r l (st, ok rev) = fire_if_failed-Slot l st
  after_pending-Slot r l (st, err e) = ground arith

  after_failure-Slot :
      (r : Round) (drained : Bool) (rev : ℕ) (e : Option Error) (l : Loop) (st : State)
      → Slot st (after_failure env s r drained rev e l st).0
  unfolding after_failure sleep notify record_reconnect fatal_exit record_watch_error
  after_failure-Slot r drained rev e l st = ground arith

  after_handling-Slot :
      (r : Round) (drained : Bool) (rev : ℕ) (e : Option Error) (l : Loop) (x : State × Option ℕ)
      → Slot x.0 (after_handling env s r drained rev e l x).0
  unfolding after_handling
  after_handling-Slot r drained rev e l (st, some k) = fire_reconnect-Slot _ e st
  after_handling-Slot r drained rev e l (st, none) =
      after_failure-Slot r drained rev e (record l { pending = compacted e || l.pending }) st

  after_session-Slot :
      (r : Round) (l : Loop) (x : State × Outcome) → Slot x.0 (after_session env s r l x).0
  unfolding after_session
  after_session-Slot r l (st, waiting y) = ground arith
  after_session-Slot r l (st, ended drained rev progress e) =
      let st' = if progress then fire_if_failed env s l st else st in
      ground (
        arith,
        after_handling-Slot r drained rev e (if progress then settled l else l)
            (try_handle_compaction env s e st'),
        Quiet-Slot (try_handle_compaction-Quiet env s e st'),
        fire_if_failed-Slot l st,
      )

  pub iterate-Slot : (r : Round) (l : Loop) (st : State) → Slot st (iterate env s r l st).0
  unfolding iterate
  iterate-Slot r l st =
      let st' = emit (watch_sent (watch_key env s) (watch_opts env s l.start_rev)) st in
      ground (
        arith,
        after_pending-Slot r l (do_resync env s st),
        Quiet-Slot (do_resync-Quiet env s st),
        after_session-Slot r l (consume_watch env s r.inputs fresh st'),
        Quiet-Slot (consume_watch-Quiet env s r.inputs fresh st'),
      )

  -- What the loop has left behind when it is through with a done channel.
  abbrev pub Left : Handle → State × Next → Type 0
  Left h (st, again l) = st.watch_done ≡ some h
  Left h (st, blocked l) = st.watch_done ≡ some h
  Left h (st, returns) =
      (st.watch_done ≡ none)
      × (st.watch_cancel ≡ none)
      × (st.watch_cb ≡ none)
      × (st.watch_typed_cb ≡ none)
      × ((t : List Effect) × (st.trace ≡ done_closed h ∷ t))

  after_iteration-Left :
      (h : Handle) (continue_from : Loop → State → State × Next) (x : State × Next)
      → ((l : Loop) (st : State) → st.watch_done ≡ some h → Left h (continue_from l st))
      → x.0.watch_done ≡ some h
      → Left h (after_iteration env s continue_from x)
  unfolding after_iteration leave signal_watch_done clear_watch_state
  after_iteration-Left h continue_from (st, again l) more k = more l st k
  after_iteration-Left h continue_from (st, blocked l) more k = k
  after_iteration-Left h continue_from (st, returns) more k =
      (refl, refl, refl, refl, (st.trace, rw k refl))

  -- The loop keeps the done channel of its Watch until it returns. Then the channel is closed, as
  -- the last thing that it does, and the slot is empty for another Watch.
  pub run_loop-Left :
      (h : Handle) (rs : List Round) (l : Loop) (st : State)
      → st.watch_done ≡ some h
      → Left h (run_loop env s rs l st)
  unfolding run_loop
  run_loop-Left h [] l st k = k
  run_loop-Left h (r ∷ rs) l st k =
      after_iteration-Left h (run_loop env s rs) (iterate env s r l st) (run_loop-Left h rs)
        ((iterate-Slot r l st).0 ∙ k)
