-- ===== src/Watch/Loop/Cover.antt =====
-- What reaches the typed callback in an iteration of the watch loop: changes without a gap, and
-- resyncs.
pub mod Ended
pub mod Run
mod Tests
use koanf_etcd.Base.{
  ℕ, ◌+◌, ◌≤◌, ◌<◌, ltb, Bool, true, false, ◌||◌, Option, none, some, List, [], ◌∷◌, ◌++◌,
  append-nil, Bool-cases, Option-cases, ◌≡◌, ◌⊎◌, inl, inr, refl, sym, ap, subst, ◌∙◌, arith,
  if◌then◌else◌,
}
use koanf_etcd.Errors.{Error, Result, ok, err, wrap, pending_resync, transient, is_fatal_rpc_error}
use koanf_etcd.Client.{ClientEvent}
use koanf_etcd.Settings.{Settings, Handle}
use koanf_etcd.Provider.{State, Env, Event}
use koanf_etcd.Watch.{record_watch_error, notify, notify_handle}
use koanf_etcd.Watch.Served.{HasMode, AllKeyBytes, is_served, due, observed-due}
use koanf_etcd.Watch.Session.{Session, fresh, Outcome, waiting, ended, consume_watch}
use koanf_etcd.Watch.Session.Effects.{consume_watch-Quiet}
use koanf_etcd.Watch.Session.Delivery.{delivered, observed, left_over, delivered-consume_watch}
use koanf_etcd.Watch.Session.Progress.{
  ending, largest, any_response, consume_watch-Reports, consume_watch-waits,
}
use koanf_etcd.Watch.Loop.{
  Loop, Round, Next, again, returns, blocked, do_resync, try_handle_compaction, record_reconnect,
  fire_reconnect, fire_if_failed, failed, sleep, after_pending, fatal_exit, after_failure,
  after_handling, after_session, compacted, settled, iterate, leave, signal_watch_done,
  clear_watch_state, after_iteration, run_loop, watch_loop, initial_loop, initial_watch_revision,
}
use koanf_etcd.Watch.Loop.Rounds.{opened}
use koanf_etcd.Watch.Loop.Replay.{IsWatching}
use koanf_etcd.Watch.Loop.Handed.{
  resync_event, IsHanded, fire_reconnect-IsHanded, settled-IsHanded, do_resync-IsTried, IsTried,
  IsRead, IsResynced, fire_if_failed-IsHanded, try_handle_compaction-IsResynced,
}

module _ {V : Type 0} (env : Env V) (s : Settings V) (changes : List ClientEvent) where
  -- What the callback has been handed covers the changes up to `to`: after the events `old`, which
  -- cover those up to `first`, each further part begins where the part in front of it ends, or is
  -- a resync, which stands for everything up to the revision that its read has found.
  pub data Covers (first : ℕ) (old : List Event) : ℕ → List Event → Type 0 where
    begins : Covers first old first old
    follows :
        {from : ℕ} {es : List Event} (to : ℕ)
        → from ≤ to
        → Covers first old from es
        → Covers first old to (es ++ due env s from to changes)
    resyncs :
        {from : ℕ} {es : List Event} (rev : ℕ)
        → IsRead env s rev
        → Covers first old from es
        → Covers first old (rev + 1) (es ++ resync_event rev ∷ [])

  module _ (h : Handle) (c : Bool) (first : ℕ) (old : List Event) where
    abbrev pub IsCovered : ℕ → List Event → State → Type 0
    IsCovered to es st = IsHanded h c es st × (0 < to) × Covers first old to es

    -- After iterations of which the last, if the loop does not go on, began or brought what is below
    -- `to`. A loop that goes on watches from where the callback's events end. When it has returned
    -- the callback has been handed everything up to there; a session that still waits holds a rest
    -- back.
    abbrev pub EndsCovered : ℕ → State × Next → Type 0
    EndsCovered to (st, again l) = (es : List Event) × IsCovered l.start_rev es st
    EndsCovered to (st, returns) = Covers first old to (delivered st.trace)
    EndsCovered to (st, blocked l) =
        (rest : List Event) × Covers first old to (delivered st.trace ++ rest)

    if-EndsCovered :
        (to : ℕ) (t : Bool) (x y : State × Next)
        → EndsCovered to x
        → EndsCovered to y
        → EndsCovered to (if t then x else y)
    if-EndsCovered to true x y h k = h
    if-EndsCovered to false x y h k = k

    pub IsCovered-Covers :
        (to : ℕ) (es : List Event) (st : State)
        → IsCovered to es st
        → Covers first old to (delivered st.trace)
    IsCovered-Covers to es st (k, p, v) = subst (Covers first old to) (sym k.handed) v

    stays_handed :
        (to : ℕ) (es : List Event) (a b : State)
        → b.watch_typed_cb ≡ a.watch_typed_cb
        → delivered b.trace ≡ delivered a.trace
        → b.closed ≡ a.closed
        → IsCovered to es a
        → IsCovered to es b
    stays_handed to es a b cb same still (k, p, v) = (
      record {
        typed_cb = cb ∙ k.typed_cb;
        handed = same ∙ k.handed;
        same_closed = still ∙ k.same_closed;
      },
      p,
      v,
    )

    sleep-EndsCovered :
        (r : Round) (to : ℕ) (es : List Event) (l : Loop) (st : State)
        → IsCovered to es st
        → l.start_rev ≡ to
        → EndsCovered to (sleep env s r l st)
    unfolding sleep
    sleep-EndsCovered r to es l st k n =
        go r.interrupted _ (stays_handed to es st _ refl refl refl k)
      where
        go :
            (t : Bool) (a : State)
            → IsCovered to es a
            → EndsCovered to (a, if t then returns else again l)
        go true a k' = IsCovered-Covers to es a k'
        go false a k' = (es, subst (λ m. IsCovered m es a) (sym n) k')

    fatal_exit-IsCovered :
        (to : ℕ) (es : List Event) (e : Option Error) (st : State)
        → IsCovered to es st
        → IsCovered to es (fatal_exit env s e st)
    unfolding fatal_exit record_watch_error notify notify_handle
    fatal_exit-IsCovered to es e st k =
        stays_handed to es st _ (ground arith) (ground arith) (ground arith) k

    after_failure-EndsCovered :
        (r : Round) (d : Bool) (seen to : ℕ) (es : List Event) (e : Option Error) (l : Loop)
        (st : State)
        → IsCovered to es st
        → (if ltb 0 seen then seen + 1 else l.start_rev) ≡ to
        → EndsCovered to (after_failure env s r d seen e l st)
    unfolding after_failure record_reconnect
    after_failure-EndsCovered r d seen to es e l st k n =
        let next =
          failed e (record l { start_rev = if ltb 0 seen then seen + 1 else l.start_rev }) in
        let slept_on = sleep env s r next (record_reconnect env s st) in
        if-EndsCovered to (is_fatal_rpc_error e) (fatal_exit env s e st, returns)
          (if d || r.done_after then (st, returns) else slept_on)
          (IsCovered-Covers to es _ (fatal_exit-IsCovered to es e st k))
          (if-EndsCovered to (d || r.done_after) (st, returns) slept_on
            (IsCovered-Covers to es st k)
            (sleep-EndsCovered r to es next _ (stays_handed to es st _ refl refl refl k) n))

    pub after_handling-EndsCovered :
        (r : Round) (d : Bool) (seen to : ℕ) (es : List Event) (e : Option Error) (l : Loop)
        (x : State × Option ℕ)
        → IsResynced env s h c es x
        → 0 < to
        → Covers first old to es
        → (if ltb 0 seen then seen + 1 else l.start_rev) ≡ to
        → EndsCovered to (after_handling env s r d seen e l x)
    unfolding after_handling
    after_handling-EndsCovered r d seen to es e l (st, some rev) (k, read) p v n = (
      es ++ resync_event rev ∷ [],
      (fire_reconnect-IsHanded env s h c _ _ e st k, omega arith, resyncs rev read v),
    )
    after_handling-EndsCovered r d seen to es e l (st, none) k p v n =
        after_failure-EndsCovered r d seen to es e (record l { pending = compacted e || l.pending })
          st (k, p, v) n

    pub after_pending-EndsCovered :
        (r : Round) (to : ℕ) (es : List Event) (l : Loop) (st : State)
        → IsCovered to es st
        → l.start_rev ≡ to
        → EndsCovered to (after_pending env s r l (do_resync env s st))
    unfolding after_pending record_reconnect notify notify_handle
    after_pending-EndsCovered r to es l st (k, p, v) n =
        go (do_resync env s st) (do_resync-IsTried env s h c es st k)
      where
        go :
            (x : State × Result ℕ)
            → IsTried env s h c es x
            → EndsCovered to (after_pending env s r l x)
        go (st', ok rev) (k', read) = (
          es ++ resync_event rev ∷ [],
          (fire_if_failed-IsHanded env s h c _ l st' k', omega arith, resyncs rev read v),
        )
        go (st', err e) k' =
            sleep-EndsCovered r to es _ _
              (stays_handed to es st' _ (ground arith) (ground arith) (ground arith) (k', p, v)) n
