-- ===== src/Watch/Loop/Silent.antt =====
-- Between two sessions the watch loop delivers nothing.
use koanf_etcd.Base.{ℕ, Bool, false, ◌||◌, Option, none, some, ◌≡◌, refl, ◌∙◌, arith, if◌then◌else◌}
use koanf_etcd.Errors.{Error}
use koanf_etcd.Settings.{Settings}
use koanf_etcd.Provider.{State, Env}
use koanf_etcd.Watch.{record_watch_error, notify, notify_handle}
use koanf_etcd.Watch.Session.{Outcome, ended}
use koanf_etcd.Watch.Session.Delivery.{delivered}
use koanf_etcd.Watch.Loop.{
  Loop, Round, try_handle_compaction, record_reconnect, record_failure, fire_reconnect,
  fire_if_failed, sleep, after_failure, after_handling, after_session, fatal_exit, compacted,
  settled,
}

module _ {V : Type 0} (env : Env V) (s : Settings V) where
  fire_reconnect-delivered :
      (n : ℕ) (last : Option Error) (st : State)
      → delivered (fire_reconnect env s n last st).trace ≡ delivered st.trace
  unfolding fire_reconnect
  fire_reconnect-delivered n last st = ground arith

  fire_if_failed-delivered :
      (l : Loop) (st : State) → delivered (fire_if_failed env s l st).trace ≡ delivered st.trace
  unfolding fire_if_failed
  fire_if_failed-delivered l st =
      ground (arith, fire_reconnect-delivered l.failed_attempts l.last_fail_err st)

  record_failure-delivered :
      (e : Error) (st : State) → delivered (record_failure env s e st).trace ≡ delivered st.trace
  unfolding record_failure record_watch_error notify notify_handle
  record_failure-delivered e st = ground arith

  try_handle_compaction-delivered :
      (e : Option Error) (st : State)
      → compacted e ≡ false
      → delivered (try_handle_compaction env s e st).0.trace ≡ delivered st.trace
  unfolding try_handle_compaction compacted
  try_handle_compaction-delivered none st h = refl
  try_handle_compaction-delivered (some e) st h = ground (arith, record_failure-delivered e st)

  after_failure-delivered :
      (r : Round) (drained : Bool) (rev : ℕ) (e : Option Error) (l : Loop) (st : State)
      → delivered (after_failure env s r drained rev e l st).0.trace ≡ delivered st.trace
  unfolding after_failure sleep notify record_reconnect fatal_exit record_watch_error
  after_failure-delivered r drained rev e l st = ground arith

  after_handling-delivered :
      (r : Round) (drained : Bool) (rev : ℕ) (e : Option Error) (l : Loop) (x : State × Option ℕ)
      → delivered (after_handling env s r drained rev e l x).0.trace ≡ delivered x.0.trace
  unfolding after_handling
  after_handling-delivered r drained rev e l (st, some k) = fire_reconnect-delivered _ e st
  after_handling-delivered r drained rev e l (st, none) =
      after_failure-delivered r drained rev e (record l { pending = compacted e || l.pending }) st

  pub after_session-delivered :
      (r : Round) (l : Loop) (d p : Bool) (rev : ℕ) (e : Option Error) (x : State × Outcome)
      → x.1 ≡ ended d rev p e
      → compacted e ≡ false
      → delivered (after_session env s r l x).0.trace ≡ delivered x.0.trace
  unfolding after_session
  after_session-delivered r l d p rev e (st, o) h calm =
      let st' = if p then fire_if_failed env s l st else st in
      rw h (
        after_handling-delivered r d rev e (if p then settled l else l)
          (try_handle_compaction env s e st')
        ∙ (try_handle_compaction-delivered e st' calm
            ∙ ground (arith, fire_if_failed-delivered l st)))
