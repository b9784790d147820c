-- ===== src/Lifecycle/Handover.antt =====
-- A read, then WatchTyped, then the loop: what the caller has seen.
mod Tests
use koanf_etcd.Base.{
  ℕ, ◌+◌, ◌<◌, true, false, none, some, List, is_empty, length, ◌++◌, ◌≡◌, refl, sym, subst, ap,
  ◌∙◌, arith,
}
use koanf_etcd.Errors.{ok}
use koanf_etcd.Client.{KeyValue, ClientEvent}
use koanf_etcd.Client.Server.{IsSorted}
use koanf_etcd.Path.{Map}
use koanf_etcd.Settings.{Settings, Handle}
use koanf_etcd.Provider.{State, Env}
use koanf_etcd.Read.{read_ctx}
use koanf_etcd.Read.Effects.{read_ctx-Quiet}
use koanf_etcd.Read.Requests.{IsSnapshot}
use koanf_etcd.Read.Snapshot.{AllBytes, snapshot_map, snapshot_stats-revision, read_ctx_snapshot}
use koanf_etcd.Watch.Served.{due}
use koanf_etcd.Watch.Session.Delivery.{delivered}
use koanf_etcd.Watch.Loop.{Loop, Round, again, watch_loop}
use koanf_etcd.Watch.Loop.Replay.{Retries, IsWatching, reached_all, watch_loop-Replayed}
use koanf_etcd.Lifecycle.{watch_typed}

module _ {V : Type 0} (env : Env V) (s : Settings V) where
  -- What the loop does from the state `st` when the last read was at the revision `rev`.
  abbrev Continues : List ClientEvent → List Round → ℕ → State → Type 0
  Continues changes rs rev st =
      (last : Loop) × ((watch_loop env s rs st).1 ≡ again last)
      × (last.start_rev ≡ reached_all (rev + 1) rs)
      × (delivered (watch_loop env s rs st).0.trace
          ≡ delivered st.trace ++ due env s (rev + 1) last.start_rev changes)

  watch_loop-Continues :
      (changes : List ClientEvent) (h : Handle) (rs : List Round) (rev : ℕ) (st : State)
      → st.stats.revision ≡ rev
      → s.resume_from_revision ≡ true
      → 0 < rev
      → st.watch_typed_cb ≡ some h
      → IsWatching env s changes
      → Retries env s changes (rev + 1) rs
      → Continues changes rs rev st
  watch_loop-Continues changes h rs rev st e resume positive cb asc t =
      subst (λ n. Continues changes rs n st) e
        (watch_loop-Replayed env s changes h rs st resume (omega (arith, e)) cb asc
          (subst (λ n. Retries env s changes (n + 1) rs) (sym e) t))

  abbrev watching : Handle → Handle → State → State
  watching cb id st = record st {
    watch_typed_cb = some cb;
    watch_cancel = some id;
    watch_done = some id;
  }

  watch_typed_starts :
      (cb id : Handle) (st : State)
      → st.closed ≡ false
      → st.watch_cancel ≡ none
      → watch_typed none cb id st ≡ (watching cb id st, ok tt)
  unfolding watch_typed
  watch_typed_starts cb id st opened unwatched = ground arith

  -- A caller that reads a prefix and then watches it has the whole of it: the read returns the
  -- store as it was at one revision, the watch starts, and over any number of sessions its callback
  -- is handed exactly the changes of the keys with the prefix after that revision, as far as the
  -- last session got, that the filter lets through: each once, in order. For WithResumeFromRevision
  -- on, a provider in prefix mode without a watch, a read that succeeds, a server that answers it
  -- from one state of a sorted store, and sessions that are what etcd documents of a Watch with the
  -- options sent, whose connection is not lost while etcd has yet to send changes up to the revision
  -- of a header, and that end without compaction, a fatal error or cancellation.
  pub read_then_watch :
      (store : List KeyValue) (rev : ℕ) (m : Map V) (cb id : Handle) (changes : List ClientEvent)
      (rs : List Round) (st : State)
      → IsSnapshot env store rev
      → IsSorted store
      → AllBytes store
      → length store < env.fuel
      → 0 < rev
      → snapshot_map env s store ≡ ok m
      → st.closed ≡ false
      → st.watch_cancel ≡ none
      → s.blob ≡ false
      → is_empty s.key ≡ true
      → s.resume_from_revision ≡ true
      → IsWatching env s changes
      → Retries env s changes (rev + 1) rs
      → let (st', read) = read_ctx env s st in
        let (st'', started) = watch_typed none cb id st' in
        (read ≡ ok m) × (started ≡ ok tt) × Continues changes rs rev st''
  read_then_watch store rev m cb id changes rs st snap sorted bytes enough positive h opened
        unwatched nested prefixed resume asc t =
      let (all, noted) =
        read_ctx_snapshot env s store rev st snap sorted bytes enough opened nested prefixed in
      let quiet = read_ctx-Quiet env s st in
      let st' = (read_ctx env s st).0 in
      let started =
        watch_typed_starts cb id st' (quiet.same_closed ∙ opened) (quiet.same_cancel ∙ unwatched) in
      (
        all ∙ h,
        ap (λ x. x.1) started,
        subst (Continues changes rs rev) (sym (ap (λ x. x.0) started)) (
            watch_loop-Continues changes cb rs rev (watching cb id st')
              (ap (λ c. c.revision) noted ∙ snapshot_stats-revision env s store rev st.stats m h)
              resume positive refl asc t),
      )
