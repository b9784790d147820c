-- ===== src/Watch/Loop.antt =====
-- watch.go, `watchLoop`: sessions, resync after compaction, and reconnection with backoff.
pub mod Schedule
pub mod Rounds
pub mod Resume
pub mod Exit
pub mod Silent
pub mod Replay
pub mod Handed
pub mod Cover
pub mod Recovery
pub mod Pending
pub mod Rereads
pub mod Keeps
pub mod Pace
pub mod Tally
mod Tests
use koanf_etcd.Base.{
  ℕ, suc, ◌+◌, Bool, true, false, not, ◌&&◌, ◌||◌, Option, none, some, List, [], ◌∷◌, ltb,
  if◌then◌else◌,
}
use koanf_etcd.Base.Int.{ℤ, pos}
use koanf_etcd.Errors.{
  Error, Result, ok, err, wrap, transient, auth, is_compacted, is_fatal_rpc_error,
  classify_watch_error, pending_resync, fatal_watch, resync_failed,
}
use koanf_etcd.Settings.{Settings, Handle}
use koanf_etcd.Provider.{
  State, AtomicStats, Env, Effect, watch_sent, on_resync_called, on_reconnect_called, slept,
  done_closed, emit, add64,
}
use koanf_etcd.Read.{pass, read_ctx, read_bytes_ctx}
use koanf_etcd.Watch.{
  stamp_error, record_watch_error, notify, deliver_resync, watch_key, watch_opts,
}
use koanf_etcd.Watch.Backoff.{backoff}
use koanf_etcd.Watch.Session.{Input, Session, fresh, Outcome, waiting, ended, consume_watch}

-- The local variables of the loop.
pub record Loop : Type 0 where
  pub start_rev : ℕ
  pub attempt : ℕ
  pub pending : Bool
  pub failed_attempts : ℕ
  pub last_fail_err : Option Error

-- What the world does in one iteration: whether the context is done at its start and after the
-- session, the inputs of the session, the random numbers of the backoff, and whether the context
-- cuts the sleep short.
pub record Round : Type 0 where
  pub done_at_start : Bool
  pub inputs : List Input
  pub done_after : Bool
  pub int_n : ℤ → ℤ
  pub interrupted : Bool

-- After an iteration: one more, the return, or a session that still waits for an input.
pub data Next : Type 0 where
  again : Loop → Next
  returns : Next
  blocked : Loop → Next

-- After a recovery: the failures that are reported are forgotten.
abbrev pub settled : Loop → Loop
settled l = record l {
  attempt = 0;
  failed_attempts = 0;
  last_fail_err = if ltb 0 l.failed_attempts then none else l.last_fail_err;
}

-- After one more failure.
abbrev pub failed : Option Error → Loop → Loop
failed e l = record l {
  attempt = suc l.attempt;
  failed_attempts = suc l.attempt;
  last_fail_err = e;
}

-- `errors.Is(fatalErr, rpctypes.ErrCompacted)`
unfoldable pub compacted : Option Error → Bool
compacted none = false
compacted (some e) = is_compacted e

module _ {V : Type 0} (env : Env V) (s : Settings V) where
  unfoldable pub initial_watch_revision : State → ℕ
  initial_watch_revision st =
      if not s.resume_from_revision
      then 0
      else if ltb 0 st.stats.revision
      then st.stats.revision + 1
      else st.stats.revision

  -- `resync`: the read, and the revision that it stored.
  unfoldable pub resync : State → State × Result ℕ
  resync st =
      if s.blob
      then pass (read_bytes_ctx env s st) (λ raw st'. (st', ok st'.stats.revision))
      else pass (read_ctx env s st) (λ m st'. (st', ok st'.stats.revision))

  call_on_resync : Option Handle → ℕ → State → State
  call_on_resync none rev st = st
  call_on_resync (some h) rev st = emit (on_resync_called h rev) st

  count_resync : State → State
  count_resync st = record st {
    stats = record (st.stats) {
      total_resyncs = add64 st.stats.total_resyncs 1;
      last_resync_unix = env.now st.ticks;
    };
    ticks = suc st.ticks;
  }

  -- What `doResync` does once the state is read.
  pub announce : ℕ → State → State
  unfolding call_on_resync count_resync
  announce rev st = deliver_resync env s rev (call_on_resync s.on_resync rev (count_resync st))

  unfoldable pub do_resync : State → State × Result ℕ
  unfolding announce
  do_resync st = pass (resync st) (λ rev st'. (announce rev st', ok rev))

  resync_outcome : State × Result ℕ → State × Option ℕ
  resync_outcome (st, ok rev) = (st, some rev)
  resync_outcome (st, err e) =
      (notify env s (wrap resync_failed e) transient (record_watch_error env s st), none)

  -- The bookkeeping of a failure before any resync.
  pub record_failure : Error → State → State
  record_failure e st =
      notify env s e (classify_watch_error (some e))
        (if is_compacted e then stamp_error env s st else record_watch_error env s st)

  unfoldable pub try_handle_compaction : Option Error → State → State × Option ℕ
  unfolding resync_outcome record_failure
  try_handle_compaction none st = (st, none)
  try_handle_compaction (some e) st =
      if is_compacted e
      then resync_outcome (do_resync (record_failure e st))
      else (record_failure e st, none)

  unfoldable pub record_reconnect : State → State
  record_reconnect st = record st {
    stats = record (st.stats) {
      total_reconnects = add64 st.stats.total_reconnects 1;
      last_reconn_unix = env.now st.ticks;
    };
    ticks = suc st.ticks;
  }

  reconnect_handle : Option Handle → ℕ → Option Error → State → State
  reconnect_handle none attempts last st = st
  reconnect_handle (some h) attempts last st =
      emit (on_reconnect_called h attempts last st.stats.revision) st

  -- `p.fireReconnect(attempts, last, p.stats.revision.Load())`
  unfoldable pub fire_reconnect : ℕ → Option Error → State → State
  unfolding reconnect_handle
  fire_reconnect = reconnect_handle s.on_reconnect

  -- `if failedAttempts > 0 { … }` after a recovery.
  unfoldable pub fire_if_failed : Loop → State → State
  unfolding fire_reconnect
  fire_if_failed l st =
      if ltb 0 l.failed_attempts then fire_reconnect l.failed_attempts l.last_fail_err st else st

  -- `sleepBackoff`, and the next iteration if it was not interrupted.
  sleep : Round → Loop → State → State × Next
  sleep r l st =
      let d = backoff r.int_n (pos l.attempt) s.reconnect_min s.reconnect_max in
      (emit (slept d) st, if r.interrupted then returns else again l)

  -- The branch of a pending resync.
  pub after_pending : Round → Loop → State × Result ℕ → State × Next
  unfolding fire_if_failed sleep
  after_pending r l (st, ok rev) =
      (fire_if_failed l st, again (record (settled l) { start_rev = rev + 1; pending = false }))
  after_pending r l (st, err e) =
      let wrapped = wrap pending_resync e in
      sleep r (failed (some wrapped) l) (notify env s wrapped transient (record_reconnect st))

  fatal_exit : Option Error → State → State
  fatal_exit none st = st
  fatal_exit (some e) st = notify env s (wrap fatal_watch e) auth (record_watch_error env s st)

  -- What follows a session that did not end in a resync.
  after_failure : Round → Bool → ℕ → Option Error → Loop → State → State × Next
  unfolding fatal_exit sleep
  after_failure r drained new_rev fatal l st =
      if is_fatal_rpc_error fatal
      then (fatal_exit fatal st, returns)
      else if drained || r.done_after
      then (st, returns)
      else sleep r
          (failed fatal
            (record l { start_rev = if ltb 0 new_rev then new_rev + 1 else l.start_rev }))
          (record_reconnect st)

  pub after_handling : Round → Bool → ℕ → Option Error → Loop → State × Option ℕ → State × Next
  unfolding fire_reconnect after_failure compacted
  after_handling r drained new_rev fatal l (st, some rev) = (
    fire_reconnect (l.failed_attempts + 1) fatal st,
    again
        (record l { start_rev = rev + 1; attempt = 0; failed_attempts = 0; last_fail_err = none }),
  )
  after_handling r drained new_rev fatal l (st, none) =
      after_failure r drained new_rev fatal (record l { pending = compacted fatal || l.pending }) st

  unfoldable pub after_session : Round → Loop → State × Outcome → State × Next
  unfolding fire_if_failed after_handling try_handle_compaction
  after_session r l (st, waiting x) = (st, blocked l)
  after_session r l (st, ended drained new_rev progress fatal) =
      after_handling r drained new_rev fatal (if progress then settled l else l)
        (try_handle_compaction fatal (if progress then fire_if_failed l st else st))

  unfoldable pub iterate : Round → Loop → State → State × Next
  unfolding after_pending after_session
  iterate r l st =
      if r.done_at_start
      then (st, returns)
      else if l.pending
      then after_pending r l (do_resync st)
      else after_session r l (
          consume_watch env s r.inputs fresh
            (emit (watch_sent (watch_key env s) (watch_opts env s l.start_rev)) st))

  -- The deferred calls: `signalWatchDone` closes the channel, `clearWatchState` empties the slot.
  unfoldable pub signal_watch_done : Option Handle → State → State
  signal_watch_done none st = st
  signal_watch_done (some h) st = emit (done_closed h) st

  unfoldable pub clear_watch_state : State → State
  clear_watch_state st = record st {
    watch_cancel = none;
    watch_cb = none;
    watch_typed_cb = none;
    watch_done = none;
  }

  unfoldable pub leave : State → State
  unfolding signal_watch_done clear_watch_state
  leave st = clear_watch_state (signal_watch_done st.watch_done st)

  unfoldable pub after_iteration : (Loop → State → State × Next) → State × Next → State × Next
  after_iteration continue_from (st, again l) = continue_from l st
  after_iteration continue_from (st, returns) = (leave st, returns)
  after_iteration continue_from (st, blocked l) = (st, blocked l)

  unfoldable pub run_loop : List Round → Loop → State → State × Next
  unfolding after_iteration leave iterate
  run_loop [] l st = (st, again l)
  run_loop (r ∷ rs) l st = after_iteration (run_loop rs) (iterate r l st)

  abbrev initial_loop : State → Loop
  initial_loop st = record {
    start_rev = initial_watch_revision st;
    attempt = 0;
    pending = false;
    failed_attempts = 0;
    last_fail_err = none;
  }

  unfoldable pub watch_loop : List Round → State → State × Next
  unfolding run_loop initial_watch_revision
  watch_loop rs st = run_loop rs (initial_loop st) st
