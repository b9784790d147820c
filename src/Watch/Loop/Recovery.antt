-- ===== src/Watch/Loop/Recovery.antt =====
-- What a compaction leads to: a resync, and a Watch from right behind it.
mod Tests
use koanf_etcd.Base.{
  ℕ, ◌+◌, ◌<◌, Bool, true, false, Option, none, some, List, [], ◌∷◌, ◌++◌, append-nil, append_assoc,
  is_empty, length, ◌≡◌, inl, refl, sym, ap, ◌∙◌, subst, arith, if◌then◌else◌,
}
use koanf_etcd.Errors.{Error, Result, ok, is_compacted}
use koanf_etcd.Client.{KeyValue}
use koanf_etcd.Client.Server.{IsSorted}
use koanf_etcd.Path.{Map}
use koanf_etcd.Settings.{Settings, Handle}
use koanf_etcd.Provider.{State, Env, Event, event_resync}
use koanf_etcd.Read.{pass, get, store_revision, count_read, read_ctx}
use koanf_etcd.Read.Keeps.{IsKept, read_ctx-kept}
use koanf_etcd.Read.Requests.{IsSnapshot}
use koanf_etcd.Read.Snapshot.{AllBytes, snapshot_map, snapshot_stats-revision, read_ctx_snapshot}
use koanf_etcd.Watch.{record_watch_error, notify, notify_handle, deliver_resync, deliver_batch}
use koanf_etcd.Watch.Session.{fresh, Outcome, ended, consume_watch}
use koanf_etcd.Watch.Session.Effects.{consume_watch-Quiet}
use koanf_etcd.Watch.Session.Delivery.{delivered, observed, left_over, delivered-consume_watch}
use koanf_etcd.Watch.Session.Progress.{ending, consume_watch-Reports}
use koanf_etcd.Watch.Loop.{
  Loop, Round, again, resync, announce, call_on_resync, count_resync, do_resync, resync_outcome,
  record_failure, try_handle_compaction, fire_reconnect, fire_if_failed, after_handling,
  after_session, settled, iterate,
}
use koanf_etcd.Watch.Loop.Rounds.{opened}
use koanf_etcd.Watch.Loop.Handed.{
  resync_event, IsHanded, IsHanded-IsKept, fire_reconnect-IsHanded, settled-IsHanded,
  record_failure-IsHanded, announce-IsHanded,
}

module _ {V : Type 0} (env : Env V) (s : Settings V) (h : Handle) where
  -- A resync whose read succeeds.
  do_resync_lem :
      (m : Map V) (rev : ℕ) (st : State)
      → s.blob ≡ false
      → (read_ctx env s st).1 ≡ ok m
      → (read_ctx env s st).0.stats.revision ≡ rev
      → do_resync env s st ≡ (announce env s rev (read_ctx env s st).0, ok rev)
  unfolding do_resync resync
  do_resync_lem m rev st nested fine same = simp nested (go (read_ctx env s st) fine same)
    where
      go :
          (x : State × Result (Map V))
          → x.1 ≡ ok m
          → x.0.stats.revision ≡ rev
          → pass
              (pass x (λ m st'. (st', ok st'.stats.revision)))
              (λ rev st'. (announce env s rev st', ok rev))
            ≡ (announce env s rev x.0, ok rev)
      go (st, r) e f = rw e (ap (λ n. (announce env s n st, ok n)) f)

  -- The resync that a compaction leads to.
  try_handle_compaction_resyncs :
      (m : Map V) (rev : ℕ) (e : Error) (st : State)
      → is_compacted e ≡ true
      → s.blob ≡ false
      → (read_ctx env s (record_failure env s e st)).1 ≡ ok m
      → (read_ctx env s (record_failure env s e st)).0.stats.revision ≡ rev
      → try_handle_compaction env s (some e) st
        ≡ (announce env s rev (read_ctx env s (record_failure env s e st)).0, some rev)
  unfolding try_handle_compaction resync_outcome
  try_handle_compaction_resyncs m rev e st compaction nested fine same =
      choose (is_compacted e) compaction
      ∙ ap (resync_outcome env s) (do_resync_lem m rev (record_failure env s e st) nested fine same)
    where
      choose :
          (t : Bool)
          → t ≡ true
          → (if t
              then resync_outcome env s (do_resync env s (record_failure env s e st))
              else (record_failure env s e st, none))
            ≡ resync_outcome env s (do_resync env s (record_failure env s e st))
      choose true h = refl
      choose false h = cc

  abbrev pub resumed : ℕ → Loop → Loop
  resumed rev l = record l {
    start_rev = rev + 1;
    attempt = 0;
    failed_attempts = 0;
    last_fail_err = none;
  }

  after_handling_resumes :
      (es : List Event) (r : Round) (d : Bool) (seen rev : ℕ) (e : Option Error) (l : Loop)
      (x : State × Option ℕ)
      → x.1 ≡ some rev
      → IsHanded h false es x.0
      → ((after_handling env s r d seen e l x).1 ≡ again (resumed rev l))
        × IsHanded h false es (after_handling env s r d seen e l x).0
  unfolding after_handling
  after_handling_resumes es r d seen rev e l (st, o) found k =
      rw found ((refl, fire_reconnect-IsHanded env s h false es (l.failed_attempts + 1) e st k))

  -- Reads that succeed, at one revision.
  abbrev Reads : List Event → Map V → ℕ → Type 0
  Reads es m rev =
      (st : State)
      → IsHanded h false es st
      → ((read_ctx env s st).1 ≡ ok m) × ((read_ctx env s st).0.stats.revision ≡ rev)

  after_error_resumes :
      (es : List Event) (m : Map V) (r : Round) (d : Bool) (seen rev : ℕ) (e : Error) (l : Loop)
      (st : State)
      → is_compacted e ≡ true
      → s.blob ≡ false
      → Reads es m rev
      → IsHanded h false es st
      → let x =
          after_handling env s r d seen (some e) l (try_handle_compaction env s (some e) st) in
        (x.1 ≡ again (resumed rev l)) × IsHanded h false (es ++ resync_event rev ∷ []) x.0
  after_error_resumes es m r d seen rev e l st compaction nested reads k =
      let failed = record_failure env s e st in
      let k' = record_failure-IsHanded env s h false es e st k in
      let (fine, same) = reads failed k' in
      let eq = try_handle_compaction_resyncs m rev e st compaction nested fine same in
      let read =
        read_ctx-kept env s (IsHanded h false es) (IsHanded-IsKept env s h false es) failed k' in
      after_handling_resumes (es ++ resync_event rev ∷ []) r d seen rev (some e) l
        (try_handle_compaction env s (some e) st) (ap (λ x. x.1) eq)
        (subst (λ x. IsHanded h false (es ++ resync_event rev ∷ []) x.0) (sym eq)
          (announce-IsHanded env s h false es rev (read_ctx env s failed).0 read))

  after_session_resumes :
      (es : List Event) (m : Map V) (r : Round) (d p : Bool) (seen rev : ℕ) (e : Error) (l : Loop)
      (x : State × Outcome)
      → x.1 ≡ ended d seen p (some e)
      → is_compacted e ≡ true
      → s.blob ≡ false
      → Reads es m rev
      → IsHanded h false es x.0
      → ((after_session env s r l x).1 ≡ again (resumed rev l))
        × IsHanded h false (es ++ resync_event rev ∷ []) (after_session env s r l x).0
  unfolding after_session
  after_session_resumes es m r d true seen rev e l (st, o) ends compaction nested reads k =
      rw ends (
        after_error_resumes es m r d seen rev e (settled l) (fire_if_failed env s l st) compaction
          nested reads (settled-IsHanded env s h false es true l st k))
  after_session_resumes es m r d false seen rev e l (st, o) ends compaction nested reads k =
      rw ends (after_error_resumes es m r d seen rev e l st compaction nested reads k)

  -- A session that is compacted away loses no change that it was sent, and what it was not sent is
  -- covered by a resync: the typed callback is handed what the session brought and then an event of
  -- type resync with the revision of a fresh read, and the next Watch starts right behind that
  -- revision, with nothing pending. For a provider in prefix mode, and a server that answers the
  -- read from one state of a sorted store.
  pub iterate_recovers :
      (store : List KeyValue) (rev : ℕ) (m : Map V) (r : Round) (l : Loop) (st : State) (d : Bool)
      (e : Error)
      → IsSnapshot env store rev
      → IsSorted store
      → AllBytes store
      → length store < env.fuel
      → snapshot_map env s store ≡ ok m
      → s.blob ≡ false
      → is_empty s.key ≡ true
      → r.done_at_start ≡ false
      → l.pending ≡ false
      → ending r.inputs ≡ some (d, some e)
      → is_compacted e ≡ true
      → st.watch_typed_cb ≡ some h
      → st.closed ≡ false
      → ((iterate env s r l st).1 ≡ again (resumed rev l))
        × (delivered (iterate env s r l st).0.trace
            ≡ delivered st.trace ++ (observed env s r.inputs ++ resync_event rev ∷ []))
  unfolding iterate
  iterate_recovers store rev m r l st d e snap sorted bytes enough fine nested prefixed live idle
        ends compaction cb opened_yet =
      let x = consume_watch env s r.inputs fresh (opened env s l st) in
      let quiet = consume_watch-Quiet env s r.inputs fresh (opened env s l st) in
      let (o, tracks) =
        consume_watch-Reports env s st.stats.revision r.inputs fresh (opened env s l st) d (some e)
          (inl (refl, refl)) ends in
      let all =
        delivered-consume_watch env s r.inputs h (delivered st.trace) fresh (opened env s l st) cb
          (append-nil _) in
      let nothing : left_over env s x.1 ≡ [] = ap (left_over env s) o in
      let es = delivered st.trace ++ observed env s r.inputs in
      let handed : delivered x.0.trace ≡ es =
        sym (append-nil _) ∙ (ap (λ t. delivered x.0.trace ++ t) (sym nothing) ∙ all) in
      let reads : Reads es m rev = λ st' k.
        let (same, noted) =
          read_ctx_snapshot env s store rev st' snap sorted bytes enough k.same_closed nested
            prefixed in
        (
          same ∙ fine,
          ap (λ c. c.revision) noted ∙ snapshot_stats-revision env s store rev st'.stats m fine,
        ) in
      let (goes, k) =
        after_session_resumes es m r d _ _ rev e l x o compaction nested reads (record {
          typed_cb = quiet.same_typed_cb ∙ cb;
          handed = handed;
          same_closed = quiet.same_closed ∙ opened_yet;
        }) in
      let calm = ap (λ b. again (record (resumed rev l) { pending = b })) idle in
      simp (live, idle) ((goes ∙ calm, k.handed ∙ append_assoc (delivered st.trace) _ _))
