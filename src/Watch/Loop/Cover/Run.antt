-- ===== src/Watch/Loop/Cover/Run.antt =====
-- The watch loop over any number of sessions, resyncs and reconnections: the callback misses nothing.
use koanf_etcd.Base.{
  ℕ, ◌+◌, ◌<◌, Bool, true, false, ◌||◌, Option, none, some, List, [], ◌∷◌, ◌≡◌, ◌⊎◌, inl, inr, refl,
  sym, subst, arith, if◌then◌else◌,
}
use koanf_etcd.Client.{ClientEvent}
use koanf_etcd.Settings.{Settings, Handle}
use koanf_etcd.Provider.{State, Env, Event}
use koanf_etcd.Watch.History.{reached}
use koanf_etcd.Watch.Served.{IsServed}
use koanf_etcd.Watch.Session.Progress.{ending}
use koanf_etcd.Watch.Session.{fresh, consume_watch, Input}
use koanf_etcd.Watch.Session.Delivery.{delivered}
use koanf_etcd.Watch.Loop.{
  Loop, Round, Next, again, returns, blocked, do_resync, after_pending, after_session, iterate,
  leave, signal_watch_done, clear_watch_state, after_iteration, run_loop, watch_loop, initial_loop,
}
use koanf_etcd.Watch.Loop.Rounds.{opened}
use koanf_etcd.Watch.Loop.Replay.{IsWatching, initial-resume}
use koanf_etcd.Watch.Loop.Cover.{
  Covers, begins, IsCovered, EndsCovered, IsCovered-Covers, after_pending-EndsCovered,
}
use koanf_etcd.Watch.Loop.Cover.Ended.{session-EndsCovered}

-- How far etcd has got in a session, from the revision at which its Watch starts.
module _ {V : Type 0} (env : Env V) (s : Settings V) (changes : List ClientEvent)
    (got : ℕ → List Input → ℕ) where
  -- The session that the round opens, if it does, is what etcd documents of its Watch; unless it
  -- still waits, its connection was not lost while etcd had yet to send changes that are not behind
  -- the revision of a header.
  abbrev Opens : Round → Loop → Type 0
  Opens r l =
      (r.done_at_start ≡ true)
      ⊎ ((l.pending ≡ true)
          ⊎ (IsServed env s changes l.start_rev (got l.start_rev r.inputs) r.inputs
              × ((ending r.inputs ≡ none)
                  ⊎ (got l.start_rev r.inputs ≡ reached l.start_rev r.inputs))))

  -- What holds of the loop that goes on.
  abbrev pub Goes : (Loop → State → Type 0) → State × Next → Type 0
  Goes P (st, again l) = P l st
  Goes P (st, returns) = Unit
  Goes P (st, blocked l) = Unit

  -- All sessions of the rounds are, each on the Watch that the loop opens for it.
  abbrev pub Sessions : List Round → Loop → State → Type 0
  Sessions [] l st = Unit
  Sessions (r ∷ rs) l st = Opens r l × Goes (Sessions rs) (iterate env s r l st)

  -- How far etcd has got in the session of a round, or the loop without one.
  abbrev aim : Round → Loop → ℕ
  aim r l = if r.done_at_start || l.pending then l.start_rev else got l.start_rev r.inputs

  abbrev follow : (Loop → State → ℕ) → ℕ → State × Next → ℕ
  follow next n (st, again l) = next l st
  follow next n (st, returns) = n
  follow next n (st, blocked l) = n

  -- How far it has got in the last iteration before the loop returns or waits, or where the loop
  -- is to start if it goes on.
  abbrev pub goal : List Round → Loop → State → ℕ
  goal [] l st = l.start_rev
  goal (r ∷ rs) l st = follow (goal rs) (aim r l) (iterate env s r l st)

  module _ (h : Handle) (c : Bool) (first : ℕ) (old : List Event)
      (w : IsWatching env s changes) where
    abbrev Ends : ℕ → State × Next → Type 0
    Ends = EndsCovered env s changes h c first old

    iterate-EndsCovered :
        (r : Round) (es : List Event) (l : Loop) (st : State)
        → IsCovered env s changes h c first old l.start_rev es st
        → Opens r l
        → Ends (aim r l) (iterate env s r l st)
    unfolding iterate
    iterate-EndsCovered r es l st k opens = choose r.done_at_start l.pending refl refl
      where
        session : State × Next
        session = after_session env s r l (consume_watch env s r.inputs fresh (opened env s l st))

        from_session :
            Opens r l
            → r.done_at_start ≡ false
            → l.pending ≡ false
            → Ends (got l.start_rev r.inputs) session
        from_session (inl done) e f = cc
        from_session (inr (inl waits)) e f = cc
        from_session (inr (inr (served, whole))) e f =
            session-EndsCovered env s changes h c first old r _ es l st w k served whole

        choose :
            (t u : Bool)
            → (r.done_at_start ≡ t)
            → (l.pending ≡ u)
            → Ends (if t || u then l.start_rev else got l.start_rev r.inputs) (
                if t
                then (st, returns)
                else if u
                then after_pending env s r l (do_resync env s st)
                else session)
        choose true u e f = IsCovered-Covers env s changes h c first old l.start_rev es st k
        choose false true e f =
            after_pending-EndsCovered env s changes h c first old r l.start_rev es l st k refl
        choose false false e f = from_session opens e f

    leave-delivered : (st : State) → delivered (leave env s st).trace ≡ delivered st.trace
    unfolding leave signal_watch_done clear_watch_state
    leave-delivered st = go st.watch_done
      where
        go :
            (d : Option Handle)
            → delivered (signal_watch_done env s d st).trace ≡ delivered st.trace
        go none = refl
        go (some k) = refl

    run_loop-EndsCovered :
        (rs : List Round) (es : List Event) (l : Loop) (st : State)
        → IsCovered env s changes h c first old l.start_rev es st
        → Sessions rs l st
        → Ends (goal rs l st) (run_loop env s rs l st)
    unfolding run_loop
    run_loop-EndsCovered [] es l st k t = (es, k)
    run_loop-EndsCovered (r ∷ rs) es l st k (opens, t) =
        go (aim r l) (iterate env s r l st) (iterate-EndsCovered r es l st k opens) t
          (λ es' m st' k' t'. run_loop-EndsCovered rs es' m st' k' t')
      where
        go :
            (n : ℕ) (x : State × Next)
            → Ends n x
            → Goes (Sessions rs) x
            → ((es : List Event) (m : Loop) (st' : State)
                → IsCovered env s changes h c first old m.start_rev es st'
                → Sessions rs m st'
                → Ends (goal rs m st') (run_loop env s rs m st'))
            → Ends (follow (goal rs) n x) (after_iteration env s (run_loop env s rs) x)
        go n (st', again m) (es', k') t' more = more es' m st' k' t'
        go n (st', returns) v t' more =
            subst (Covers env s changes first old n) (sym (leave-delivered st')) v
        go n (st', blocked m) v t' more = v

  -- The callback misses nothing, however the loop runs: with WithResumeFromRevision on and a revision
  -- stored by a read, and over any number of iterations, with lost connections, compactions, resyncs
  -- that fail and are tried again, fatal errors and cancellation: the typed callback has been handed
  -- the changes of the watched keys that the filter lets through without a gap and in order, from
  -- right behind that revision on, except that a resync event, with the revision of a read that has
  -- succeeded, stands for what it skips: the changes go on right behind its revision. Between two
  -- resyncs each is handed over once. A loop that goes on is to start from where these events end.
  -- When the loop has returned, they end where the last session got, if the last iteration opened
  -- one, and else where the loop was to start; only a session that still waits holds a rest back. For
  -- sessions that are what etcd documents of a Watch with the options sent, and whose connection is
  -- not lost while etcd has yet to send changes up to the revision of a header.
  pub watch_loop-EndsCovered :
      (h : Handle) (rs : List Round) (st : State)
      → s.resume_from_revision ≡ true
      → 0 < st.stats.revision
      → st.watch_typed_cb ≡ some h
      → IsWatching env s changes
      → Sessions rs (initial_loop env s st) st
      → EndsCovered env s changes h st.closed
          (st.stats.revision + 1)
          (delivered st.trace)
          (goal rs (initial_loop env s st) st)
          (watch_loop env s rs st)
  unfolding watch_loop
  watch_loop-EndsCovered h rs st resume positive cb w t =
      run_loop-EndsCovered h st.closed (st.stats.revision + 1) (delivered st.trace) w rs
        (delivered st.trace) (initial_loop env s st) st
        (subst
          (λ n.
            IsCovered env s changes h st.closed (st.stats.revision + 1) (delivered st.trace) n
              (delivered st.trace) st)
          (sym (initial-resume env s st resume positive))
          (record { typed_cb = cb; handed = refl; same_closed = refl }, omega arith, begins))
        t
