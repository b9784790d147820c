-- ===== src/Watch/Loop/Resume.antt =====
-- Where the Watches of the loop start: nothing between two of them is passed over.
use koanf_etcd.Base.{
  ℕ, ◌+◌, ◌<◌, Bool, true, false, ◌||◌, Option, none, some, List, [], ◌∷◌, Bool-cases, Option-cases,
  ◌≡◌, ◌⊎◌, inl, inr, refl, sym, ap, ◌∙◌, arith, if◌then◌else◌,
}
use koanf_etcd.Errors.{is_compacted, Error, Result, ok, err}
use koanf_etcd.Settings.{Settings}
use koanf_etcd.Provider.{State, Env}
use koanf_etcd.Read.{pass, read_ctx, read_bytes_ctx}
use koanf_etcd.Watch.{record_watch_error, notify, deliver_resync}
use koanf_etcd.Watch.Session.{Session, fresh, Outcome, waiting, ended, consume_watch}
use koanf_etcd.Watch.Session.Progress.{
  Tracks, ending, deliver_batch-revision, consume_watch-Reports, consume_watch-waits,
}
use koanf_etcd.Watch.Loop.{
  Loop, Round, Next, again, returns, blocked, resync, announce, call_on_resync, count_resync,
  do_resync, record_reconnect, try_handle_compaction, fire_reconnect, fire_if_failed,
  resync_outcome, record_failure, sleep, after_pending, after_failure, after_handling,
  after_session, compacted, settled, iterate, after_iteration, run_loop, watch_loop, initial_loop,
  initial_watch_revision,
}

-- The next Watch starts one past the stored revision, if there is no resync to be made first.
abbrev pub Follows : Loop → State → Type 0
Follows l st = (l.pending ≡ true) ⊎ (l.start_rev ≡ st.stats.revision + 1)

-- A revision that is returned is the one that is stored.
abbrev IsStored : State × Result ℕ → Type 0
IsStored (st, ok rev) = st.stats.revision ≡ rev
IsStored (st, err e) = Unit

abbrev IsResumed : State × Option ℕ → Type 0
IsResumed (st, some rev) = st.stats.revision ≡ rev
IsResumed (st, none) = Unit

abbrev pub FollowsNext : State × Next → Type 0
FollowsNext (st, again l) = Follows l st
FollowsNext (st, returns) = Unit
FollowsNext (st, blocked l) = Unit

module _ {V : Type 0} (env : Env V) (s : Settings V) where
  read-IsStored :
      {A : Type 0} (x : State × Result A) → IsStored (pass x (λ a st. (st, ok st.stats.revision)))
  read-IsStored (st, ok a) = refl
  read-IsStored (st, err e) = tt

  resync-IsStored : (st : State) → IsStored (resync env s st)
  unfolding resync
  resync-IsStored st = elim (Bool-cases s.blob) [
    | inl t ↦ simp t (read-IsStored (read_bytes_ctx env s st))
    | inr t ↦ simp t (read-IsStored (read_ctx env s st))
  ]

  deliver_resync-revision :
      (rev : ℕ) (st : State) → (deliver_resync env s rev st).stats.revision ≡ st.stats.revision
  unfolding deliver_resync
  deliver_resync-revision rev st = deliver_batch-revision env s _ st

  announce-revision :
      (rev : ℕ) (st : State) → (announce env s rev st).stats.revision ≡ st.stats.revision
  unfolding announce call_on_resync count_resync
  announce-revision rev st = deliver_resync-revision rev _ ∙ ground arith

  after_read-IsStored :
      (x : State × Result ℕ) (f : ℕ → State → State)
      → ((n : ℕ) (st : State) → (f n st).stats.revision ≡ st.stats.revision)
      → IsStored x
      → IsStored (pass x (λ rev st. (f rev st, ok rev)))
  after_read-IsStored (st, ok rev) f same h = same rev st ∙ h
  after_read-IsStored (st, err e) f same h = tt

  do_resync-IsStored : (st : State) → IsStored (do_resync env s st)
  unfolding do_resync
  do_resync-IsStored st =
      after_read-IsStored (resync env s st) (announce env s) announce-revision (resync-IsStored st)

  fire_reconnect-revision :
      (n : ℕ) (last : Option Error) (st : State)
      → (fire_reconnect env s n last st).stats.revision ≡ st.stats.revision
  unfolding fire_reconnect
  fire_reconnect-revision n last st = ground arith

  fire_if_failed-revision :
      (l : Loop) (st : State) → (fire_if_failed env s l st).stats.revision ≡ st.stats.revision
  unfolding fire_if_failed
  fire_if_failed-revision l st =
      ground (arith, fire_reconnect-revision l.failed_attempts l.last_fail_err st)

  after_pending-Follows :
      (r : Round) (l : Loop) (x : State × Result ℕ)
      → l.pending ≡ true
      → IsStored x
      → FollowsNext (after_pending env s r l x)
  unfolding after_pending sleep
  after_pending-Follows r l (st, ok rev) p h =
      inr (ap (λ n. n + 1) (sym h ∙ sym (fire_if_failed-revision l st)))
  after_pending-Follows r l (st, err e) p h = ground arith

  resync_outcome-IsResumed :
      (x : State × Result ℕ) → IsStored x → IsResumed (resync_outcome env s x)
  unfolding resync_outcome
  resync_outcome-IsResumed (st, ok rev) h = h
  resync_outcome-IsResumed (st, err e) h = tt

  record_failure-revision :
      (e : Error) (st : State) → (record_failure env s e st).stats.revision ≡ st.stats.revision
  unfolding record_failure record_watch_error notify
  record_failure-revision e st = ground arith

  if-IsResumed :
      (t : Bool) (x y : State × Option ℕ)
      → IsResumed x
      → IsResumed y
      → IsResumed (if t then x else y)
  if-IsResumed true x y h k = h
  if-IsResumed false x y h k = k

  -- A resync leaves its revision stored, and other errors leave the stored one as it was.
  try_handle_compaction_lem :
      (e : Option Error) (st : State)
      → IsResumed (try_handle_compaction env s e st)
        × ((compacted e ≡ true)
            ⊎ ((try_handle_compaction env s e st).0.stats.revision ≡ st.stats.revision))
  unfolding try_handle_compaction compacted
  try_handle_compaction_lem none st = (tt, inr refl)
  try_handle_compaction_lem (some e) st =
      let st' = record_failure env s e st in
      (
        if-IsResumed (is_compacted e) _ _
            (resync_outcome-IsResumed (do_resync env s st') (do_resync-IsStored st')) tt,
        ground (arith, record_failure-revision e st),
      )

  -- What is known of a session that found the loop following, whatever it did.
  abbrev Seen : ℕ → ℕ → Loop → State → Type 0
  Seen found rev l st = (l.pending ≡ true) ⊎ (Tracks found rev st × (l.start_rev ≡ found + 1))

  after_failure-Follows :
      (r : Round) (drained : Bool) (found rev : ℕ) (e : Option Error) (l : Loop) (st : State)
      → Seen found rev l st
      → FollowsNext (after_failure env s r drained rev e l st)
  unfolding after_failure sleep record_reconnect
  after_failure-Follows r drained found rev e l st h = ground arith

  after_handling-Follows :
      (r : Round) (drained : Bool) (found rev : ℕ) (e : Option Error) (l : Loop)
      (x : State × Option ℕ)
      → IsResumed x
      → (compacted e ≡ true) ⊎ Seen found rev l x.0
      → FollowsNext (after_handling env s r drained rev e l x)
  unfolding after_handling
  after_handling-Follows r drained found rev e l (st, some k) h seen =
      inr (ap (λ n. n + 1) (sym h ∙ sym (fire_reconnect-revision _ e st)))
  after_handling-Follows r drained found rev e l (st, none) h seen =
      after_failure-Follows r drained found rev e (record l { pending = compacted e || l.pending })
        st (ground arith)

  after_session-Follows :
      (r : Round) (found rev : ℕ) (d p : Bool) (e : Option Error) (l : Loop) (x : State × Outcome)
      → (x.1 ≡ ended d rev p e)
      → Tracks found rev x.0
      → l.start_rev ≡ found + 1
      → FollowsNext (after_session env s r l x)
  unfolding after_session
  after_session-Follows r found rev d true e l (st, o) ends tracks h =
      let st' = fire_if_failed env s l st in
      let (resumed, kept) = try_handle_compaction_lem e st' in
      rw ends (
        after_handling-Follows r d found rev e (settled l) (try_handle_compaction env s e st')
          resumed (ground (arith, fire_if_failed-revision l st)))
  after_session-Follows r found rev d false e l (st, o) ends tracks h =
      let (resumed, kept) = try_handle_compaction_lem e st in
      rw ends (
        after_handling-Follows r d found rev e l (try_handle_compaction env s e st) resumed
          (ground arith))

  after_waiting-Follows :
      (r : Round) (y : Session) (l : Loop) (x : State × Outcome)
      → x.1 ≡ waiting y
      → FollowsNext (after_session env s r l x)
  unfolding after_session
  after_waiting-Follows r y l (st, o) waits = rw waits tt

  if-FollowsNext :
      (t : Bool) (x y : State × Next)
      → (t ≡ true → FollowsNext x)
      → (t ≡ false → FollowsNext y)
      → FollowsNext (if t then x else y)
  if-FollowsNext true x y h k = h refl
  if-FollowsNext false x y h k = k refl

  watch-Follows :
      (r : Round) (l : Loop) (st st' : State)
      → l.start_rev ≡ st.stats.revision + 1
      → st'.stats.revision ≡ st.stats.revision
      → FollowsNext (after_session env s r l (consume_watch env s r.inputs fresh st'))
  watch-Follows r l st st' h same = elim (Option-cases (ending r.inputs)) [
    | inl none_yet ↦
        let (y, waits) = consume_watch-waits env s r.inputs fresh st' none_yet in
        after_waiting-Follows r y l _ waits
    | inr ((d, e), ends) ↦
        let (returned, tracks) =
          consume_watch-Reports env s st.stats.revision r.inputs fresh st' d e (inl (refl, same))
            ends in
        after_session-Follows r st.stats.revision _ d _ e l _ returned tracks h
  ]

  -- An iteration that is followed by another one leaves the loop with a resync to be made first,
  -- or with the next Watch to start one past the revision stored by then, if it found the loop so.
  iterate-Follows :
      (r : Round) (l : Loop) (st : State) → Follows l st → FollowsNext (iterate env s r l st)
  unfolding iterate
  iterate-Follows r l st h =
      if-FollowsNext r.done_at_start _ _ (λ t. tt)
        λ t.
          if-FollowsNext l.pending _ _
            (λ p. after_pending-Follows r l (do_resync env s st) p (do_resync-IsStored st))
            λ p. watch-Follows r l st _ (ground arith) refl

  after_iteration-Follows :
      (continue_from : Loop → State → State × Next) (x : State × Next)
      → ((l : Loop) (st : State) → Follows l st → FollowsNext (continue_from l st))
      → FollowsNext x
      → FollowsNext (after_iteration env s continue_from x)
  unfolding after_iteration
  after_iteration-Follows continue_from (st, again l) more h = more l st h
  after_iteration-Follows continue_from (st, returns) more h = tt
  after_iteration-Follows continue_from (st, blocked l) more h = tt

  run_loop-Follows :
      (rs : List Round) (l : Loop) (st : State)
      → Follows l st
      → FollowsNext (run_loop env s rs l st)
  unfolding run_loop
  run_loop-Follows [] l st h = h
  run_loop-Follows (r ∷ rs) l st h =
      after_iteration-Follows (run_loop env s rs) (iterate env s r l st) (run_loop-Follows rs)
        (iterate-Follows r l st h)

  -- With WithResumeFromRevision on and a revision stored by a read, and with callbacks that leave
  -- the provider alone: after any number of iterations the loop is about to make a resync, or to open
  -- a Watch that starts one past the stored revision.
  pub watch_loop-Follows :
      (rs : List Round) (st : State)
      → s.resume_from_revision ≡ true
      → 0 < st.stats.revision
      → FollowsNext (watch_loop env s rs st)
  unfolding watch_loop initial_watch_revision
  watch_loop-Follows rs st resume positive =
      run_loop-Follows rs (initial_loop env s st) st (ground arith)
