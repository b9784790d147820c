-- ===== src/Watch/Loop/Rounds.antt =====
-- One iteration of the loop: the Watch that it opens, and how the next one resumes.
use koanf_etcd.Base.{
  ℕ, suc, ◌+◌, Bool, true, false, ◌||◌, Option, none, some, List, [], ◌∷◌, Bytes, ltb, ◌≡◌, inl,
  refl, sym, ap, ◌∙◌, arith, if◌then◌else◌,
}
use koanf_etcd.Errors.{Error, Result, ok, err, is_fatal_rpc_error}
use koanf_etcd.Client.{OpOption}
use koanf_etcd.Settings.{Settings}
use koanf_etcd.Provider.{
  State, Env, Effect, get_sent, watch_sent, on_empty_called, on_reconnect_called, on_resync_called,
  on_watch_error_called, typed_called, cb_called, slept, done_closed, context_cancelled,
  client_closed, emit,
}
use koanf_etcd.Read.Effects.{schedule, Quiet}
use koanf_etcd.Client.Changes.{start_of}
use koanf_etcd.Watch.Served.{start_of-watch_opts}
use koanf_etcd.Watch.{record_watch_error, notify, watch_key, watch_opts}
use koanf_etcd.Watch.Session.{fresh, Outcome, waiting, ended, consume_watch}
use koanf_etcd.Watch.Session.Effects.{consume_watch-Quiet}
use koanf_etcd.Watch.Session.Progress.{ending, largest, any_response, consume_watch-Reports}
use koanf_etcd.Watch.Loop.{
  Loop, Round, again, do_resync, try_handle_compaction, record_reconnect, failed, fire_reconnect,
  fire_if_failed, sleep, after_pending, after_failure, after_handling, after_session, fatal_exit,
  compacted, settled, iterate,
}
use koanf_etcd.Watch.Loop.Schedule.{do_resync-Quiet, try_handle_compaction-Quiet}

-- The Watch requests, newest first.
abbrev pub watches : List Effect → List (Bytes × List OpOption)
watches [] = []
watches (watch_sent k o ∷ t) = (k, o) ∷ watches t
watches (on_reconnect_called h a l r ∷ t) = watches t
watches (slept d ∷ t) = watches t
watches (get_sent k o ∷ t) = watches t
watches (on_empty_called h p ∷ t) = watches t
watches (on_resync_called h r ∷ t) = watches t
watches (on_watch_error_called h e c ∷ t) = watches t
watches (typed_called h b ∷ t) = watches t
watches (cb_called h ∷ t) = watches t
watches (done_closed h ∷ t) = watches t
watches (context_cancelled h ∷ t) = watches t
watches (client_closed h ∷ t) = watches t

watches-schedule : (t : List Effect) → watches (schedule t) ≡ watches t
watches-schedule [] = refl
watches-schedule (watch_sent k o ∷ t) = ap (λ w. (k, o) ∷ w) (watches-schedule t)
watches-schedule (on_reconnect_called h a l r ∷ t) = watches-schedule t
watches-schedule (slept d ∷ t) = watches-schedule t
watches-schedule (get_sent k o ∷ t) = watches-schedule t
watches-schedule (on_empty_called h p ∷ t) = watches-schedule t
watches-schedule (on_resync_called h r ∷ t) = watches-schedule t
watches-schedule (on_watch_error_called h e c ∷ t) = watches-schedule t
watches-schedule (typed_called h b ∷ t) = watches-schedule t
watches-schedule (cb_called h ∷ t) = watches-schedule t
watches-schedule (done_closed h ∷ t) = watches-schedule t
watches-schedule (context_cancelled h ∷ t) = watches-schedule t
watches-schedule (client_closed h ∷ t) = watches-schedule t

Quiet-watches : {a b : State} → Quiet a b → watches b.trace ≡ watches a.trace
Quiet-watches {a} {b} q =
    sym (watches-schedule b.trace) ∙ (ap watches q.same_schedule ∙ watches-schedule a.trace)

module _ {V : Type 0} (env : Env V) (s : Settings V) where
  fire_reconnect-watches :
      (n : ℕ) (last : Option Error) (st : State)
      → watches (fire_reconnect env s n last st).trace ≡ watches st.trace
  unfolding fire_reconnect
  fire_reconnect-watches n last st = ground arith

  fire_if_failed-watches :
      (l : Loop) (st : State) → watches (fire_if_failed env s l st).trace ≡ watches st.trace
  unfolding fire_if_failed
  fire_if_failed-watches l st = ground arith

  after_pending-watches :
      (r : Round) (l : Loop) (x : State × Result ℕ)
      → watches (after_pending env s r l x).0.trace ≡ watches x.0.trace
  unfolding after_pending sleep notify record_reconnect
  after_pending-watches r l (st, ok rev) = fire_if_failed-watches l st
  after_pending-watches r l (st, err e) = ground arith

  after_failure-watches :
      (r : Round) (drained : Bool) (rev : ℕ) (e : Option Error) (l : Loop) (st : State)
      → watches (after_failure env s r drained rev e l st).0.trace ≡ watches st.trace
  unfolding after_failure sleep notify record_reconnect fatal_exit record_watch_error
  after_failure-watches r drained rev e l st = ground arith

  after_handling-watches :
      (r : Round) (drained : Bool) (rev : ℕ) (e : Option Error) (l : Loop) (x : State × Option ℕ)
      → watches (after_handling env s r drained rev e l x).0.trace ≡ watches x.0.trace
  unfolding after_handling
  after_handling-watches r drained rev e l (st, some k) = fire_reconnect-watches _ e st
  after_handling-watches r drained rev e l (st, none) =
      after_failure-watches r drained rev e (record l { pending = compacted e || l.pending }) st

  after_session-watches :
      (r : Round) (l : Loop) (x : State × Outcome)
      → watches (after_session env s r l x).0.trace ≡ watches x.0.trace
  unfolding after_session
  after_session-watches r l (st, waiting x) = refl
  after_session-watches r l (st, ended drained rev progress e) =
      let st' = if progress then fire_if_failed env s l st else st in
      after_handling-watches r drained rev e (if progress then settled l else l)
        (try_handle_compaction env s e st')
      ∙ (Quiet-watches (try_handle_compaction-Quiet env s e st')
          ∙ ground (arith, fire_if_failed-watches l st))

  -- The state in which the session of an iteration begins.
  abbrev pub opened : Loop → State → State
  opened l st = emit (watch_sent (watch_key env s) (watch_opts env s l.start_rev)) st

  -- An iteration opens one Watch, of the configured key, with options that ask for the changes from
  -- the loop's start revision on; but none once the context is done, and none while a resync is
  -- pending.
  pub watches-iterate :
      (r : Round) (l : Loop) (st : State)
      → (watches (iterate env s r l st).0.trace ≡ (
          if r.done_at_start || l.pending
          then watches st.trace
          else (watch_key env s, watch_opts env s l.start_rev) ∷ watches st.trace))
        × (start_of (watch_opts env s l.start_rev) ≡ l.start_rev)
  unfolding iterate
  watches-iterate r l st = (
    ground (
      arith,
      after_pending-watches r l (do_resync env s st),
      Quiet-watches (do_resync-Quiet env s st),
      after_session-watches r l (consume_watch env s r.inputs fresh (opened l st)),
      Quiet-watches (consume_watch-Quiet env s r.inputs fresh (opened l st)),
    ),
    start_of-watch_opts env s l.start_rev,
  )

  pub not_compacted :
      (e : Option Error) (st : State)
      → compacted e ≡ false
      → (try_handle_compaction env s e st).1 ≡ none
  unfolding try_handle_compaction compacted
  not_compacted none st h = refl
  not_compacted (some e) st h = ground arith

  -- The loop state after a failure that is to be retried.
  abbrev pub Resumes : Loop → ℕ → Bool → Option Error → Loop → Type 0
  Resumes l rev progress e last =
      (last.start_rev ≡ (if ltb 0 rev then rev + 1 else l.start_rev))
      × (last.attempt ≡ (if progress then 1 else suc l.attempt))
      × (last.failed_attempts ≡ last.attempt)
      × (last.last_fail_err ≡ e)
      × (last.pending ≡ false)

  after_failure_retries :
      (r : Round) (rev : ℕ) (e : Option Error) (l : Loop) (st : State)
      → is_fatal_rpc_error e ≡ false
      → r.done_after ≡ false
      → r.interrupted ≡ false
      → (after_failure env s r false rev e l st).1
        ≡ again (failed e (record l { start_rev = if ltb 0 rev then rev + 1 else l.start_rev }))
  unfolding after_failure sleep
  after_failure_retries r rev e l st mild live awake = rw (mild, live, awake) refl

  after_handling_retries :
      (r : Round) (rev : ℕ) (e : Option Error) (l : Loop) (x : State × Option ℕ)
      → x.1 ≡ none
      → compacted e ≡ false
      → l.pending ≡ false
      → is_fatal_rpc_error e ≡ false
      → r.done_after ≡ false
      → r.interrupted ≡ false
      → (last : Loop) × ((after_handling env s r false rev e l x).1 ≡ again last)
        × Resumes l rev false e last
  unfolding after_handling
  after_handling_retries r rev e l (st, none) h calm idle mild live awake =
      let kept = record l { pending = compacted e || l.pending } in
      (
        failed e (record kept { start_rev = if ltb 0 rev then rev + 1 else l.start_rev }),
        after_failure_retries r rev e kept st mild live awake,
        (refl, refl, refl, refl, rw (calm, idle) refl),
      )
  after_handling_retries r rev e l (st, some k) h calm idle mild live awake = ground arith

  after_session_retries :
      (r : Round) (rev : ℕ) (progress : Bool) (e : Option Error) (l : Loop) (x : State × Outcome)
      → x.1 ≡ ended false rev progress e
      → compacted e ≡ false
      → l.pending ≡ false
      → is_fatal_rpc_error e ≡ false
      → r.done_after ≡ false
      → r.interrupted ≡ false
      → (last : Loop) × ((after_session env s r l x).1 ≡ again last) × Resumes l rev progress e last
  unfolding after_session
  after_session_retries r rev true e l (st, o) h calm idle mild live awake =
      let st' = fire_if_failed env s l st in
      rw h (
        after_handling_retries r rev e (settled l) (try_handle_compaction env s e st')
          (not_compacted e st' calm) calm idle mild live awake)
  after_session_retries r rev false e l (st, o) h calm idle mild live awake = rw h (
      after_handling_retries r rev e l (try_handle_compaction env s e st) (not_compacted e st calm)
        calm idle mild live awake)

  -- How the loop goes on after a session that ended with no error, or with one that is neither
  -- compaction nor fatal, when no context is done: one past the largest revision that the session
  -- saw, if it saw one; with the attempts counted from 1 again if there was a response, and else
  -- with one more; and with no resync pending.
  pub iterate-Resumes :
      (r : Round) (l : Loop) (st : State) (e : Option Error)
      → r.done_at_start ≡ false
      → l.pending ≡ false
      → ending r.inputs ≡ some (false, e)
      → compacted e ≡ false
      → is_fatal_rpc_error e ≡ false
      → r.done_after ≡ false
      → r.interrupted ≡ false
      → (last : Loop) × ((iterate env s r l st).1 ≡ again last)
        × Resumes l (largest 0 r.inputs) (any_response r.inputs) e last
  unfolding iterate
  iterate-Resumes r l st e start idle ends calm mild live awake =
      simp (start, idle)
        (after_session_retries r (largest 0 r.inputs) (any_response r.inputs) e l
          (consume_watch env s r.inputs fresh (opened l st))
          (consume_watch-Reports env s st.stats.revision r.inputs fresh (opened l st) false e
            (inl (refl, refl)) ends).0
          calm idle mild live awake)
