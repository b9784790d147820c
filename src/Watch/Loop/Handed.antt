-- ===== src/Watch/Loop/Handed.antt =====
-- What the loop does between sessions, and what the typed callback has been handed.
use koanf_etcd.Base.{
  ℕ, Bool, true, false, Option, none, some, List, [], ◌∷◌, ◌++◌, ◌≡◌, refl, arith, if◌then◌else◌,
}
use koanf_etcd.Errors.{
  Error, Result, ok, err, wrap, resync_failed, transient, is_compacted, WatchErrorClass,
}
use koanf_etcd.Settings.{Settings, Handle}
use koanf_etcd.Provider.{State, Env, Event, event_resync}
use koanf_etcd.Read.{pass, get, store_revision, count_read}
use koanf_etcd.Read.Keeps.{IsKept}
use koanf_etcd.Watch.{record_watch_error, notify, notify_handle, deliver_resync, deliver_batch}
use koanf_etcd.Watch.Session.Delivery.{delivered}
use koanf_etcd.Watch.Loop.{
  Loop, resync, announce, call_on_resync, count_resync, do_resync, resync_outcome, record_failure,
  try_handle_compaction, fire_reconnect, fire_if_failed,
}
use koanf_etcd.Watch.Loop.Rereads.{resync-kept}

abbrev pub resync_event : ℕ → Event
resync_event rev = record { type = event_resync; key = []; value = []; revision = rev }

-- The typed callback is installed and has been handed these events; the provider is closed or not.
pub record IsHanded (h : Handle) (is_closed : Bool) (es : List Event) (st : State) : Type 0 where
  pub typed_cb : st.watch_typed_cb ≡ some h
  pub handed : delivered st.trace ≡ es
  pub same_closed : st.closed ≡ is_closed

-- A read of a resync has succeeded at this revision.
abbrev pub IsRead : {V : Type 0} → Env V → Settings V → ℕ → Type 0
IsRead env s rev = (st : State) × ((resync env s st).1 ≡ ok rev)

module _ {V : Type 0} (env : Env V) (s : Settings V) (h : Handle) (c : Bool) where
  pub IsHanded-IsKept : (es : List Event) → IsKept env (IsHanded h c es)
  unfolding get store_revision count_read
  IsHanded-IsKept es = record {
    by_get = λ key opts st k. ground arith;
    by_revision = λ rev st k. ground arith;
    by_count = λ st k. ground arith;
    by_on_empty = λ handle prefix st k. ground arith;
  }

  pub fire_reconnect-IsHanded :
      (es : List Event) (n : ℕ) (e : Option Error) (st : State)
      → IsHanded h c es st
      → IsHanded h c es (fire_reconnect env s n e st)
  unfolding fire_reconnect
  fire_reconnect-IsHanded es n e st k = ground arith

  pub fire_if_failed-IsHanded :
      (es : List Event) (l : Loop) (st : State)
      → IsHanded h c es st
      → IsHanded h c es (fire_if_failed env s l st)
  unfolding fire_if_failed
  fire_if_failed-IsHanded es l st k =
      ground (arith, fire_reconnect-IsHanded es l.failed_attempts l.last_fail_err st k)

  pub settled-IsHanded :
      (es : List Event) (p : Bool) (l : Loop) (st : State)
      → IsHanded h c es st
      → IsHanded h c es (if p then fire_if_failed env s l st else st)
  settled-IsHanded es true l st k = fire_if_failed-IsHanded es l st k
  settled-IsHanded es false l st k = k

  pub record_failure-IsHanded :
      (es : List Event) (e : Error) (st : State)
      → IsHanded h c es st
      → IsHanded h c es (record_failure env s e st)
  unfolding record_failure record_watch_error notify notify_handle
  record_failure-IsHanded es e st k = ground arith

  pub announce-IsHanded :
      (es : List Event) (rev : ℕ) (st : State)
      → IsHanded h c es st
      → IsHanded h c (es ++ resync_event rev ∷ []) (announce env s rev st)
  unfolding announce call_on_resync count_resync deliver_resync deliver_batch
  announce-IsHanded es rev st k = ground arith

  record_watch_error-IsHanded :
      (es : List Event) (e : Error) (w : WatchErrorClass) (st : State)
      → IsHanded h c es st
      → IsHanded h c es (notify env s e w (record_watch_error env s st))
  unfolding record_watch_error notify notify_handle
  record_watch_error-IsHanded es e w st k = ground arith

  -- A resync that succeeds hands over its event, and one that fails nothing.
  abbrev pub IsResynced : List Event → State × Option ℕ → Type 0
  IsResynced es (st, some rev) = IsHanded h c (es ++ resync_event rev ∷ []) st × IsRead env s rev
  IsResynced es (st, none) = IsHanded h c es st

  abbrev pub IsTried : List Event → State × Result ℕ → Type 0
  IsTried es (st, ok rev) = IsHanded h c (es ++ resync_event rev ∷ []) st × IsRead env s rev
  IsTried es (st, err e) = IsHanded h c es st

  pub do_resync-IsTried :
      (es : List Event) (st : State) → IsHanded h c es st → IsTried es (do_resync env s st)
  unfolding do_resync
  do_resync-IsTried es st k =
      go (resync env s st) (resync-kept env s (IsHanded h c es) (IsHanded-IsKept es) st k)
        (λ rev e. (st, e))
    where
      go :
          (x : State × Result ℕ)
          → IsHanded h c es x.0
          → ((rev : ℕ) → x.1 ≡ ok rev → IsRead env s rev)
          → IsTried es (pass x (λ rev st'. (announce env s rev st', ok rev)))
      go (st', ok rev) k' read = (announce-IsHanded es rev st' k', read rev refl)
      go (st', err e) k' read = k'

  resync_outcome-IsResynced :
      (es : List Event) (x : State × Result ℕ)
      → IsTried es x
      → IsResynced es (resync_outcome env s x)
  unfolding resync_outcome
  resync_outcome-IsResynced es (st, ok rev) k = k
  resync_outcome-IsResynced es (st, err e) k =
      record_watch_error-IsHanded es (wrap resync_failed e) transient st k

  if-IsResynced :
      (es : List Event) (t : Bool) (x y : State × Option ℕ)
      → IsResynced es x
      → IsResynced es y
      → IsResynced es (if t then x else y)
  if-IsResynced es true x y k l = k
  if-IsResynced es false x y k l = l

  pub try_handle_compaction-IsResynced :
      (es : List Event) (e : Option Error) (st : State)
      → IsHanded h c es st
      → IsResynced es (try_handle_compaction env s e st)
  unfolding try_handle_compaction
  try_handle_compaction-IsResynced es none st k = k
  try_handle_compaction-IsResynced es (some e) st k =
      let st' = record_failure env s e st in
      let k' = record_failure-IsHanded es e st k in
      if-IsResynced es (is_compacted e) (resync_outcome env s (do_resync env s st')) (st', none)
        (resync_outcome-IsResynced es (do_resync env s st') (do_resync-IsTried es st' k')) k'
