-- ===== src/Watch/Loop/Replay.antt =====
-- The changes that reach the typed callback over many sessions, with reconnections between them.
use koanf_etcd.Base.{
  ℕ, ◌+◌, ◌≤◌, ◌<◌, true, false, Option, some, List, [], ◌∷◌, ◌++◌, append-nil, append_assoc, ◌≡◌,
  inl, refl, sym, ap, subst, ◌∙◌, arith,
}
use koanf_etcd.Errors.{Error, is_fatal_rpc_error}
use koanf_etcd.Client.{ClientEvent}
use koanf_etcd.Settings.{Settings, Handle}
use koanf_etcd.Provider.{State, Env}
use koanf_etcd.Watch.History.{IsAscending, reached}
use koanf_etcd.Watch.Served.{
  HasMode, AllKeyBytes, IsServed, due, due-append, due_self, observed-due,
}
use koanf_etcd.Watch.Session.{Input, fresh, consume_watch}
use koanf_etcd.Watch.Session.Delivery.{delivered, left_over, delivered-consume_watch}
use koanf_etcd.Watch.Session.Progress.{ending, consume_watch-Reports}
use koanf_etcd.Watch.Loop.{
  Loop, Round, Next, again, compacted, iterate, after_iteration, run_loop, watch_loop, initial_loop,
  initial_watch_revision,
}
use koanf_etcd.Watch.Loop.Silent.{after_session-delivered}
use koanf_etcd.Watch.Loop.Rounds.{opened, iterate-Resumes}
use koanf_etcd.Watch.Loop.Exit.{iterate-Slot}

-- A round whose session ends with no error, or with one that is neither compaction nor fatal, and
-- in which no context is done.
pub record IsRetried (r : Round) (e : Option Error) : Type 0 where
  pub live : r.done_at_start ≡ false
  pub ends : ending r.inputs ≡ some (false, e)
  pub calm : compacted e ≡ false
  pub mild : is_fatal_rpc_error e ≡ false
  pub goes_on : r.done_after ≡ false
  pub awake : r.interrupted ≡ false

abbrev pub reached_all : ℕ → List Round → ℕ
reached_all from [] = from
reached_all from (r ∷ rs) = reached_all (reached from r.inputs) rs

module _ {V : Type 0} (env : Env V) (s : Settings V) where
  -- The session is what etcd documents of its Watch, and its connection was not lost while etcd had
  -- yet to send changes that are not behind the revision of a header.
  abbrev pub IsCaughtUp : List ClientEvent → ℕ → List Input → Type 0
  IsCaughtUp changes from is = IsServed env s changes from (reached from is) is

  -- Rounds of that kind, each with a session on the Watch from where the one before got.
  abbrev pub Retries : List ClientEvent → ℕ → List Round → Type 0
  Retries changes from [] = Unit
  Retries changes from (r ∷ rs) =
      ((e : Option Error) × IsRetried r e)
      × IsCaughtUp changes from r.inputs
      × Retries changes (reached from r.inputs) rs

  -- The changes of the store, oldest first, and a watch on some of their keys.
  pub record IsWatching (changes : List ClientEvent) : Type 0 where
    pub mode : HasMode env s
    pub key_bytes : AllKeyBytes changes
    pub ascending : IsAscending changes

  -- One round hands on the changes that its session brought.
  iterate-delivered :
      (changes : List ClientEvent) (h : Handle) (r : Round) (l : Loop) (st : State)
      (e : Option Error)
      → IsRetried r e
      → l.pending ≡ false
      → st.watch_typed_cb ≡ some h
      → IsWatching changes
      → IsCaughtUp changes l.start_rev r.inputs
      → delivered (iterate env s r l st).0.trace
        ≡ delivered st.trace ++ due env s l.start_rev (reached l.start_rev r.inputs) changes
  unfolding iterate
  iterate-delivered changes h r l st e k idle cb a c =
      let x = consume_watch env s r.inputs fresh (opened env s l st) in
      let (o, tracks) =
        consume_watch-Reports env s st.stats.revision r.inputs fresh (opened env s l st) false e
          (inl (refl, refl)) k.ends in
      let all =
        delivered-consume_watch env s r.inputs h (delivered st.trace) fresh (opened env s l st) cb
          (append-nil _) in
      let nothing : left_over env s x.1 ≡ [] = ap (left_over env s) o in
      simp (k.live, idle)
        (after_session-delivered env s r l false _ _ e x o k.calm
          ∙ (sym (append-nil _)
              ∙ (ap (λ t. delivered x.0.trace ++ t) (sym nothing)
                  ∙ (all
                      ∙ ap (λ t. delivered st.trace ++ t)
                          (observed-due env s changes l.start_rev _ r.inputs a.mode a.key_bytes
                            c).2))))

  -- What a run from the loop state `l` to the loop state `last` has done.
  abbrev pub Replayed : List ClientEvent → Loop → State → Loop → State → Type 0
  Replayed changes l st last st' =
      (delivered st'.trace ≡ delivered st.trace ++ due env s l.start_rev last.start_rev changes)
      × (st'.watch_typed_cb ≡ st.watch_typed_cb)
      × (last.pending ≡ false)
      × (l.start_rev ≤ last.start_rev)

  iterate-Replayed :
      (changes : List ClientEvent) (h : Handle) (r : Round) (l : Loop) (st : State)
      (e : Option Error)
      → IsRetried r e
      → l.pending ≡ false
      → st.watch_typed_cb ≡ some h
      → 0 < l.start_rev
      → IsWatching changes
      → IsCaughtUp changes l.start_rev r.inputs
      → (last : Loop) × ((iterate env s r l st).1 ≡ again last)
        × (last.start_rev ≡ reached l.start_rev r.inputs)
        × Replayed changes l st last (iterate env s r l st).0
  iterate-Replayed changes h r l st e k idle cb p a c =
      let (last, goes, (start, _, _, _, settled_again)) =
        iterate-Resumes env s r l st e k.live idle k.ends k.calm k.mild k.goes_on k.awake in
      let same : last.start_rev ≡ reached l.start_rev r.inputs = start in
      let (_, _, _, kept, _, _) = iterate-Slot env s r l st in
      (
        last,
        goes,
        same,
        (
          rw same (iterate-delivered changes h r l st e k idle cb a c),
          kept,
          settled_again,
          rw same (observed-due env s changes l.start_rev _ r.inputs a.mode a.key_bytes c).0,
        ),
      )

  -- Rounds one after the other.
  Replayed-trans :
      (changes : List ClientEvent) (l m n : Loop) (a b c : State)
      → IsWatching changes
      → Replayed changes l a m b
      → Replayed changes m b n c
      → Replayed changes l a n c
  Replayed-trans changes l m n a b c asc (d, cb, idle, le) (d', cb', idle', le') = (
    d'
        ∙ (ap (λ t. t ++ due env s m.start_rev n.start_rev changes) d
            ∙ (append_assoc (delivered a.trace) _ _
                ∙ ap (λ t. delivered a.trace ++ t)
                    (due-append env s l.start_rev m.start_rev n.start_rev changes asc.ascending le
                      le'))),
    cb' ∙ cb,
    idle',
    omega arith,
  )

  pub after_iteration-again :
      (continue_from : Loop → State → State × Next) (x : State × Next) (m : Loop)
      → x.1 ≡ again m
      → after_iteration env s continue_from x ≡ continue_from m x.0
  unfolding after_iteration
  after_iteration-again continue_from (st, n) m e = rw e refl

  pub initial-resume :
      (st : State)
      → s.resume_from_revision ≡ true
      → 0 < st.stats.revision
      → initial_watch_revision env s st ≡ st.stats.revision + 1
  unfolding initial_watch_revision
  initial-resume st resume positive = ground arith

  run_loop-Replayed :
      (changes : List ClientEvent) (h : Handle) (rs : List Round) (l : Loop) (st : State)
      → l.pending ≡ false
      → st.watch_typed_cb ≡ some h
      → 0 < l.start_rev
      → IsWatching changes
      → Retries changes l.start_rev rs
      → (last : Loop) × ((run_loop env s rs l st).1 ≡ again last)
        × (last.start_rev ≡ reached_all l.start_rev rs)
        × Replayed changes l st last (run_loop env s rs l st).0
  unfolding run_loop
  run_loop-Replayed changes h [] l st idle cb p a t =
      let nothing = due_self env s l.start_rev changes in
      (
        l,
        refl,
        refl,
        (
          sym (append-nil (delivered st.trace)) ∙ ap (λ t. delivered st.trace ++ t) (sym nothing),
          refl,
          idle,
          omega arith,
        ),
      )
  run_loop-Replayed changes h (r ∷ rs) l st idle cb p a ((e, k), c, t) =
      let (m, goes, same, first) = iterate-Replayed changes h r l st e k idle cb p a c in
      let (shown, cb', idle', le) = first in
      let st' = (iterate env s r l st).0 in
      let later : Retries changes m.start_rev rs = subst (λ n. Retries changes n rs) (sym same) t in
      let (last, goes', same', others) =
        run_loop-Replayed changes h rs m st' idle' (cb' ∙ cb) (omega arith) a later in
      let step : run_loop env s (r ∷ rs) l st ≡ run_loop env s rs m st' =
        after_iteration-again (run_loop env s rs) (iterate env s r l st) m goes in
      (
        last,
        ap (λ x. x.1) step ∙ goes',
        same' ∙ ap (λ n. reached_all n rs) same,
        subst (λ x. Replayed changes l st last x.0) (sym step)
            (Replayed-trans changes l m last st st' (run_loop env s rs m st').0 a first others),
      )

  -- No gap between a read and the watch that follows it, and none between two sessions: with
  -- WithResumeFromRevision on and a revision stored by a read, and over any number of sessions that
  -- end without compaction, a fatal error or cancellation, the typed callback is handed exactly the
  -- changes of the key, or of the keys with the prefix, after that revision, up to where the last
  -- session got, that the filter lets through: each once, in order. For sessions that are what etcd
  -- documents of a Watch with the options sent, and whose connection is not lost while etcd has yet
  -- to send changes up to the revision of a header.
  pub watch_loop-Replayed :
      (changes : List ClientEvent) (h : Handle) (rs : List Round) (st : State)
      → s.resume_from_revision ≡ true
      → 0 < st.stats.revision
      → st.watch_typed_cb ≡ some h
      → IsWatching changes
      → Retries changes (st.stats.revision + 1) rs
      → (last : Loop) × ((watch_loop env s rs st).1 ≡ again last)
        × (last.start_rev ≡ reached_all (st.stats.revision + 1) rs)
        × (delivered (watch_loop env s rs st).0.trace
            ≡ delivered st.trace ++ due env s (st.stats.revision + 1) last.start_rev changes)
  unfolding watch_loop
  watch_loop-Replayed changes h rs st resume positive cb a t =
      let from : initial_watch_revision env s st ≡ st.stats.revision + 1 =
        initial-resume st resume positive in
      let (last, goes, same, (shown, _, _, _)) =
        run_loop-Replayed changes h rs (initial_loop env s st) st refl cb (rw from (omega arith)) a
          (rw from t) in
      (
        last,
        goes,
        same ∙ ap (λ n. reached_all n rs) from,
        shown ∙ ap (λ n. delivered st.trace ++ due env s n last.start_rev changes) from,
      )
