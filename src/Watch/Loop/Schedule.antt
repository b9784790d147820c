-- ===== src/Watch/Loop/Schedule.antt =====
-- What the loop does between its steps leaves the schedule of RPCs, sleeps and OnReconnect, and
-- the slot of the watch, as they are.
use koanf_etcd.Base.{ℕ, Option, none, some, arith}
use koanf_etcd.Errors.{Error, Result, ok, err}
use koanf_etcd.Settings.{Settings}
use koanf_etcd.Provider.{State, Env}
use koanf_etcd.Read.{pass}
use koanf_etcd.Read.Effects.{Quiet, Quiet-refl, Quiet-trans, read_ctx-Quiet, read_bytes_ctx-Quiet}
use koanf_etcd.Watch.{record_watch_error, notify, deliver_resync}
use koanf_etcd.Watch.Session.Effects.{deliver_batch-Quiet}
use koanf_etcd.Watch.Loop.{
  resync, do_resync, record_failure, resync_outcome, try_handle_compaction, call_on_resync,
  count_resync,
}

module _ {V : Type 0} (env : Env V) (s : Settings V) where
  resync-Quiet : (st : State) → Quiet st (resync env s st).0
  unfolding resync
  resync-Quiet st = ground (arith, read_ctx-Quiet env s st, read_bytes_ctx-Quiet env s st)

  deliver_resync-Quiet : (rev : ℕ) (st : State) → Quiet st (deliver_resync env s rev st)
  unfolding deliver_resync
  deliver_resync-Quiet rev st = deliver_batch-Quiet env s _ st

  announce-Quiet :
      (rev : ℕ) (st : State)
      → Quiet st (call_on_resync env s s.on_resync rev (count_resync env s st))
  unfolding call_on_resync count_resync
  announce-Quiet rev st = ground arith

  after_resync-Quiet :
      (a : State) (r : State × Result ℕ)
      → Quiet a r.0
      → Quiet a
          (pass r (λ rev st'. (
            deliver_resync env s rev
                (call_on_resync env s s.on_resync rev (count_resync env s st')),
            ok rev,
          ))).0
  after_resync-Quiet a (st, err e) h = h
  after_resync-Quiet a (st, ok rev) h =
      Quiet-trans a st _ h (Quiet-trans st _ _ (announce-Quiet rev st) (deliver_resync-Quiet rev _))

  pub do_resync-Quiet : (st : State) → Quiet st (do_resync env s st).0
  unfolding do_resync
  do_resync-Quiet st = after_resync-Quiet st (resync env s st) (resync-Quiet st)

  record_failure-Quiet : (e : Error) (st : State) → Quiet st (record_failure env s e st)
  unfolding record_failure notify record_watch_error
  record_failure-Quiet e st = ground arith

  resync_outcome-Quiet :
      (a : State) (r : State × Result ℕ) → Quiet a r.0 → Quiet a (resync_outcome env s r).0
  unfolding resync_outcome notify record_watch_error
  resync_outcome-Quiet a (st, ok rev) h = h
  resync_outcome-Quiet a (st, err e) h = Quiet-trans a st _ h (ground arith)

  pub try_handle_compaction-Quiet :
      (e : Option Error) (st : State) → Quiet st (try_handle_compaction env s e st).0
  unfolding try_handle_compaction
  try_handle_compaction-Quiet none st = Quiet-refl st
  try_handle_compaction-Quiet (some e) st = ground (
    arith,
    record_failure-Quiet e st,
    resync_outcome-Quiet st (do_resync env s (record_failure env s e st)) (
        Quiet-trans st _ _ (record_failure-Quiet e st)
          (do_resync-Quiet (record_failure env s e st))),
  )
