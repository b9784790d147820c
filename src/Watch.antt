-- ===== src/Watch.antt =====
-- watch.go: what the session and the loop share. `New` leaves no transform nil.
pub mod Backoff
pub mod Session
pub mod History
pub mod Served
pub mod Loop
mod Tests
use koanf_etcd.Base.{
  ℕ, suc, ◌<◌, Bool, true, false, not, ◌&&◌, Option, none, some, List, [], ◌∷◌, ◌++◌, Bytes,
  is_empty, length, ltb, if◌then◌else◌,
}
use koanf_etcd.Base.Int.{ℤ, pos, int32}
use koanf_etcd.Errors.{Error, Message, plain, WatchErrorClass, fatal, panic_in_callback}
use koanf_etcd.Client.{
  OpOption, with_prefix, with_rev, with_progress_notify, with_created_notify, with_filter_put,
  with_filter_delete, Kind, put, delete, ClientEvent,
}
use koanf_etcd.Settings.{Settings, Handle}
use koanf_etcd.Provider.{
  State, AtomicStats, Env, Effect, Event, EventType, event_put, event_delete, event_resync,
  typed_called, cb_called, on_watch_error_called, on_reconnect_called, emit, add64,
}

abbrev pub option_if : Bool → OpOption → List OpOption
option_if true o = o ∷ []
option_if false o = []

module _ {V : Type 0} (env : Env V) (s : Settings V) where
  -- `time.Now().UnixNano()` stored as the time of the last watch error, with the clock's tick.
  abbrev pub stamp_error : State → State
  stamp_error st = record st {
    stats = record (st.stats) { last_watch_error_unix = env.now st.ticks };
    ticks = suc st.ticks;
  }

  unfoldable pub record_watch_error : State → State
  record_watch_error st = stamp_error (record st {
    stats = record (st.stats) { total_watch_errors = add64 st.stats.total_watch_errors 1 };
  })

  notify_handle : Option Handle → Error → WatchErrorClass → State → State
  notify_handle none e c st = st
  notify_handle (some h) e c st = emit (on_watch_error_called h e c) st

  -- `if p.settings.onWatchError != nil { p.settings.onWatchError(e, c) }`
  unfoldable pub notify : Error → WatchErrorClass → State → State
  unfolding notify_handle
  notify = notify_handle s.on_watch_error

  -- The deferred recover, given the panic value.
  recover_watch_panic : (ℕ → Message) → Option ℕ → State → State
  unfolding record_watch_error notify
  recover_watch_panic site none st = st
  recover_watch_panic site (some r) st = notify (plain (site r)) fatal (record_watch_error st)

  -- A call of a watch callback, and its panic value if it panics. It is taken to leave the provider
  -- alone.
  call_typed : Option Handle → List Event → State → State × Option ℕ
  call_typed none batch st = (st, none)
  call_typed (some h) batch st =
      (emit (typed_called h batch) (record st { calls = suc st.calls }), env.panics st.calls)

  call_cb : Option Handle → State → State × Option ℕ
  call_cb none st = (st, none)
  call_cb (some h) st =
      (emit (cb_called h) (record st { calls = suc st.calls }), env.panics st.calls)

  -- A panic of the typed callback leaves the other one uncalled.
  then_cb : Option Handle → State × Option ℕ → State × Option ℕ
  unfolding call_cb
  then_cb cb (st, some r) = (st, some r)
  then_cb cb (st, none) = call_cb cb st

  count_batch : List Event → State → State
  count_batch batch st = record st {
    stats = record (st.stats) {
      last_batch = int32 (length batch);
      total_events_delivered = add64 st.stats.total_events_delivered (length batch);
    };
  }

  recovered : State × Option ℕ → State
  unfolding recover_watch_panic
  recovered (st, r) = recover_watch_panic panic_in_callback r st

  unfoldable pub deliver_batch : List Event → State → State
  unfolding count_batch call_typed then_cb recovered
  deliver_batch batch st =
      recovered (then_cb st.watch_cb (call_typed st.watch_typed_cb batch (count_batch batch st)))

  unfoldable pub deliver_resync : ℕ → State → State
  unfolding deliver_batch
  deliver_resync rev =
      deliver_batch (record { type = event_resync; key = []; value = []; revision = rev } ∷ [])

  key_path : Option (Bytes → Bytes) → Bytes → Bytes
  key_path none k = k
  key_path (some f) k = f k

  is_put : Kind → Bool
  is_put put = true
  is_put delete = false

  -- The events that the filter lets through.
  pub is_wanted : Kind → Bool
  unfolding is_put
  is_wanted k = if s.filter_set then (if is_put k then s.want_put else s.want_delete) else true

  event_type : Kind → EventType
  event_type put = event_put
  event_type delete = event_delete

  count_event : Kind → State → State
  count_event put st = record st {
    stats = record (st.stats) { total_puts = add64 st.stats.total_puts 1 };
  }
  count_event delete st = record st {
    stats = record (st.stats) { total_deletes = add64 st.stats.total_deletes 1 };
  }

  pub event_of : ClientEvent → Event
  unfolding key_path event_type
  event_of ev = record {
    type = event_type ev.kind;
    key = key_path s.key_transform ev.kv.key;
    value = ev.kv.value;
    revision = ev.kv.mod_revision;
  }

  unfoldable pub translate_event : ClientEvent → State → State × Option Event
  unfolding is_wanted count_event event_of
  translate_event ev st =
      if s.filter_set && (is_put ev.kind && not s.want_put)
      then (st, none)
      else if s.filter_set && (not (is_put ev.kind) && not s.want_delete)
      then (st, none)
      else (count_event ev.kind st, some (event_of ev))

  unfoldable pub watch_key : Bytes
  watch_key = if is_empty s.key then s.prefix else s.key

  unfoldable pub watch_opts : ℕ → List OpOption
  watch_opts start_rev =
      option_if (not (is_empty s.prefix)) with_prefix
      ++ (option_if (ltb 0 start_rev) (with_rev (pos start_rev))
          ++ (option_if s.progress_notify with_progress_notify
              ++ (option_if s.created_notify with_created_notify
                  ++ (option_if (s.filter_set && (s.want_put && not s.want_delete))
                        with_filter_delete
                      ++ option_if (s.filter_set && (s.want_delete && not s.want_put))
                          with_filter_put))))
