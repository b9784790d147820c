-- ===== src/Watch/Loop/Keeps.antt =====
-- What a run of the watch loop keeps: whatever its kinds of change keep.
use koanf_etcd.Base.{
  ℕ, ◌+◌, ◌≤◌, ltb, Bool, true, false, ◌||◌, Option, none, some, List, [], ◌∷◌, All, Bool-cases,
  inl, inr, arith, if◌then◌else◌,
}
use koanf_etcd.Base.Int.{pos}
use koanf_etcd.Errors.{
  Error, Result, ok, err, is_compacted, is_fatal_rpc_error, wrap, transient, pending_resync,
  WatchErrorClass,
}
use koanf_etcd.Settings.{Settings, Handle}
use koanf_etcd.Provider.{
  State, Env, Effect, get_sent, watch_sent, on_empty_called, on_reconnect_called, on_resync_called,
  on_watch_error_called, typed_called, cb_called, slept, done_closed, context_cancelled,
  client_closed, emit,
}
use koanf_etcd.Read.{get, store_revision, count_read}
use koanf_etcd.Read.Keeps.{IsKept}
use koanf_etcd.Watch.{stamp_error, record_watch_error, notify, notify_handle, deliver_resync}
use koanf_etcd.Watch.Backoff.{backoff}
use koanf_etcd.Watch.Session.{fresh, Outcome, waiting, ended, consume_watch}
use koanf_etcd.Watch.Session.Keeps.{Same, IsSessionKept, consume_watch-kept}
use koanf_etcd.Watch.Loop.Rounds.{opened}
use koanf_etcd.Watch.Loop.{
  Loop, Round, Next, again, returns, blocked, resync, announce, call_on_resync, count_resync,
  do_resync, resync_outcome, record_failure, try_handle_compaction, record_reconnect,
  reconnect_handle, fire_reconnect, fire_if_failed, failed, sleep, after_pending, fatal_exit,
  after_failure, after_handling, after_session, compacted, settled, iterate, leave, after_iteration,
  run_loop,
}
use koanf_etcd.Watch.Loop.Rereads.{pass-kept, pair-kept, resync-kept}

-- Neither a batch, nor a sleep, nor OnReconnect, nor the end of anything.
abbrev pub IsPlain : Effect → Type 0
IsPlain (get_sent k o) = Unit
IsPlain (watch_sent k o) = Unit
IsPlain (on_empty_called h p) = Unit
IsPlain (on_resync_called h r) = Unit
IsPlain (on_watch_error_called h e c) = Unit
IsPlain (on_reconnect_called h a l r) = ⊥
IsPlain (typed_called h b) = ⊥
IsPlain (cb_called h) = ⊥
IsPlain (slept d) = ⊥
IsPlain (done_closed h) = ⊥
IsPlain (context_cancelled h) = ⊥
IsPlain (client_closed h) = ⊥

-- Kept by each kind of change; `Q` is what is known of the rounds.
pub record IsLoopKept {V : Type 0} (env : Env V) (s : Settings V) (Q : Round → Type 0)
    (P : State → Type 0) : Type 0 where
  pub by_session : IsSessionKept env s P
  pub by_effect : (e : Effect) (st : State) → IsPlain e → P st → P (emit e st)
  pub by_reconnect :
      (h : Handle) (n : ℕ) (e : Option Error) (st : State)
      → 1 ≤ n
      → P st
      → P (emit (on_reconnect_called h n e st.stats.revision) st)
  pub by_sleep :
      (r : Round) (n : ℕ) (st : State)
      → Q r
      → 1 ≤ n
      → P st
      → P (emit (slept (backoff r.int_n (pos n) s.reconnect_min s.reconnect_max)) st)

module _ {V : Type 0} (env : Env V) (s : Settings V) (Q : Round → Type 0) (P : State → Type 0)
    (k : IsLoopKept env s Q P) where
  reads : IsKept env P
  unfolding get store_revision count_read
  reads = record {
    by_get = λ key opts st h. k.by_effect _ _ tt (k.by_session.by_same st _ (ground arith) h);
    by_revision = λ rev st h. k.by_session.by_same st _ (ground arith) h;
    by_count = λ st h. k.by_session.by_same st _ (ground arith) h;
    by_on_empty = λ e prefix st h. k.by_effect _ st tt h;
  }

  record_watch_error-kept : (st : State) → P st → P (record_watch_error env s st)
  unfolding record_watch_error
  record_watch_error-kept st h = k.by_session.by_same st _ (ground arith) h

  notify-kept : (e : Error) (c : WatchErrorClass) (st : State) → P st → P (notify env s e c st)
  unfolding notify
  notify-kept e c st h = go s.on_watch_error
    where
      go : (o : Option Handle) → P (notify_handle env s o e c st)
      go none = h
      go (some n) = k.by_effect _ st tt h

  announce-kept : (rev : ℕ) (st : State) → P st → P (announce env s rev st)
  unfolding announce deliver_resync count_resync
  announce-kept rev st h =
      k.by_session.by_batch _ _ (called s.on_resync _ (k.by_session.by_same st _ counted h))
    where
      called : (o : Option Handle) (st : State) → P st → P (call_on_resync env s o rev st)
      called none st h = h
      called (some n) st h = k.by_effect _ st tt h

      counted : Same st (count_resync env s st)
      counted = ground arith

  do_resync-kept : (st : State) → P st → P (do_resync env s st).0
  unfolding do_resync
  do_resync-kept st h =
      pass-kept env s P reads (resync env s st) (λ rev st'. (announce env s rev st', ok rev))
        (resync-kept env s P reads st h) announce-kept

  record_failure-kept : (e : Error) (st : State) → P st → P (record_failure env s e st)
  unfolding record_failure
  record_failure-kept e st h = notify-kept e _ _ (go (is_compacted e))
    where
      go : (t : Bool) → P (if t then stamp_error env s st else record_watch_error env s st)
      go true = k.by_session.by_same st _ (ground arith) h
      go false = record_watch_error-kept st h

  resync_outcome-kept : (x : State × Result ℕ) → P x.0 → P (resync_outcome env s x).0
  unfolding resync_outcome
  resync_outcome-kept (st, ok rev) h = h
  resync_outcome-kept (st, err e) h = notify-kept _ _ _ (record_watch_error-kept st h)

  try_handle_compaction-kept :
      (e : Option Error) (st : State) → P st → P (try_handle_compaction env s e st).0
  unfolding try_handle_compaction
  try_handle_compaction-kept none st h = h
  try_handle_compaction-kept (some e) st h =
      let g = record_failure-kept e st h in
      pair-kept env s P reads (is_compacted e)
        (resync_outcome env s (do_resync env s (record_failure env s e st)))
        (record_failure env s e st, none)
        (resync_outcome-kept (do_resync env s (record_failure env s e st)) (do_resync-kept _ g)) g

  fire_reconnect-kept :
      (n : ℕ) (e : Option Error) (st : State) → 1 ≤ n → P st → P (fire_reconnect env s n e st)
  unfolding fire_reconnect
  fire_reconnect-kept n e st le h = go s.on_reconnect
    where
      go : (o : Option Handle) → P (reconnect_handle env s o n e st)
      go none = h
      go (some i) = k.by_reconnect i n e st le h

  fire_if_failed-kept : (l : Loop) (st : State) → P st → P (fire_if_failed env s l st)
  unfolding fire_if_failed
  fire_if_failed-kept l st h = go l.failed_attempts
    where
      go : (n : ℕ) → P (if ltb 0 n then fire_reconnect env s n l.last_fail_err st else st)
      go n = elim (Bool-cases (ltb 0 n)) [
        | inl some_failed ↦
            rw some_failed (fire_reconnect-kept n l.last_fail_err st (ground arith) h)
        | inr none_failed ↦ rw none_failed h
      ]

  sleep-kept :
      (r : Round) (l : Loop) (st : State) → Q r → 1 ≤ l.attempt → P st → P (sleep env s r l st).0
  unfolding sleep
  sleep-kept r l st q le h = k.by_sleep r l.attempt st q le h

  record_reconnect-kept : (st : State) → P st → P (record_reconnect env s st)
  unfolding record_reconnect
  record_reconnect-kept st h = k.by_session.by_same st _ (ground arith) h

  after_pending-kept :
      (r : Round) (l : Loop) (x : State × Result ℕ) → Q r → P x.0 → P (after_pending env s r l x).0
  unfolding after_pending
  after_pending-kept r l (st, ok rev) q h = fire_if_failed-kept l st h
  after_pending-kept r l (st, err e) q h =
      let wrapped = wrap pending_resync e in
      sleep-kept r (failed (some wrapped) l) _ q (omega arith)
        (notify-kept wrapped transient _ (record_reconnect-kept st h))

  fatal_exit-kept : (e : Option Error) (st : State) → P st → P (fatal_exit env s e st)
  unfolding fatal_exit
  fatal_exit-kept none st h = h
  fatal_exit-kept (some e) st h = notify-kept _ _ _ (record_watch_error-kept st h)

  after_failure-kept :
      (r : Round) (drained : Bool) (rev : ℕ) (e : Option Error) (l : Loop) (st : State)
      → Q r
      → P st
      → P (after_failure env s r drained rev e l st).0
  unfolding after_failure
  after_failure-kept r drained rev e l st q h =
      let next = failed e (record l { start_rev = if ltb 0 rev then rev + 1 else l.start_rev }) in
      let slept_on = sleep env s r next (record_reconnect env s st) in
      pair-kept env s P reads (is_fatal_rpc_error e) (fatal_exit env s e st, returns)
        (if drained || r.done_after then (st, returns) else slept_on) (fatal_exit-kept e st h)
        (pair-kept env s P reads (drained || r.done_after) (st, returns) slept_on h
          (sleep-kept r next _ q (omega arith) (record_reconnect-kept st h)))

  after_handling-kept :
      (r : Round) (drained : Bool) (rev : ℕ) (e : Option Error) (l : Loop) (x : State × Option ℕ)
      → Q r
      → P x.0
      → P (after_handling env s r drained rev e l x).0
  unfolding after_handling
  after_handling-kept r drained rev e l (st, some n) q h =
      fire_reconnect-kept _ e st (omega arith) h
  after_handling-kept r drained rev e l (st, none) q h =
      after_failure-kept r drained rev e (record l { pending = compacted e || l.pending }) st q h

  after_session-kept :
      (r : Round) (l : Loop) (x : State × Outcome) → Q r → P x.0 → P (after_session env s r l x).0
  unfolding after_session
  after_session-kept r l (st, waiting y) q h = h
  after_session-kept r l (st, ended drained rev true e) q h =
      after_handling-kept r drained rev e (settled l) _ q
        (try_handle_compaction-kept e _ (fire_if_failed-kept l st h))
  after_session-kept r l (st, ended drained rev false e) q h =
      after_handling-kept r drained rev e l _ q (try_handle_compaction-kept e st h)

  pub iterate-kept : (r : Round) (l : Loop) (st : State) → Q r → P st → P (iterate env s r l st).0
  unfolding iterate
  iterate-kept r l st q h =
      let session = consume_watch env s r.inputs fresh (opened env s l st) in
      pair-kept env s P reads r.done_at_start (st, returns)
        (if l.pending
          then after_pending env s r l (do_resync env s st)
          else after_session env s r l session)
        h
        (pair-kept env s P reads l.pending (after_pending env s r l (do_resync env s st))
          (after_session env s r l session)
          (after_pending-kept r l (do_resync env s st) q (do_resync-kept st h))
          (after_session-kept r l session q (
            consume_watch-kept env s P k.by_session r.inputs fresh (opened env s l st)
              (k.by_effect _ st tt h))))

  -- A run ends with it too, or with what the return of the loop leaves of it.
  pub run_loop-kept :
      (R : State → Type 0) (rs : List Round) (l : Loop) (st : State)
      → ((a : State) → P a → R a)
      → ((a : State) → P a → R (leave env s a))
      → All Q rs
      → P st
      → R (run_loop env s rs l st).0
  unfolding run_loop
  run_loop-kept R [] l st still left q h = still st h
  run_loop-kept R (r ∷ rs) l st still left (now, later) h =
      go (iterate env s r l st) (iterate-kept r l st now h)
        (λ m st' h'. run_loop-kept R rs m st' still left later h')
    where
      go :
          (x : State × Next)
          → P x.0
          → ((m : Loop) (st' : State) → P st' → R (run_loop env s rs m st').0)
          → R (after_iteration env s (run_loop env s rs) x).0
      go (st', again m) h more = more m st' h
      go (st', returns) h more = left st' h
      go (st', blocked m) h more = still st' h
