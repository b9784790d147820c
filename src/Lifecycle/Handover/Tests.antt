-- ===== src/Lifecycle/Handover/Tests.antt =====
-- A provider that reads and then watches, at a concrete store and two sessions.
use koanf_etcd.Base.{ℕ, true, false, none, List, [], ◌∷◌, ◌++◌, Bytes, codes, ◌≡◌, inr, refl, arith}
use koanf_etcd.Base.Int.{pos}
use koanf_etcd.Errors.{ok, is_fatal_rpc_error}
use koanf_etcd.Client.{Kind, put, delete, ClientEvent}
use koanf_etcd.Settings.{Settings, new_settings}
use koanf_etcd.Provider.{State}
use koanf_etcd.Read.{read_ctx}
use koanf_etcd.Range.{prefix_end}
use koanf_etcd.Read.Samples.{
  store, world, config, idle, snap, sorted, bytes, found, snapshot_map-found,
}
use koanf_etcd.Client.Changes.{unfiltered, start_of}
use koanf_etcd.Watch.{watch_key, watch_opts}
use koanf_etcd.Watch.Served.{due}
use koanf_etcd.Watch.Session.{channel_closed, response}
use koanf_etcd.Watch.Session.Delivery.{delivered}
use koanf_etcd.Watch.Loop.{Loop, Round, again, compacted, watch_loop}
use koanf_etcd.Watch.Loop.Replay.{Retries, IsWatching, reached_all}
use koanf_etcd.Lifecycle.{watch_typed}
use koanf_etcd.Lifecycle.Handover.{read_then_watch}

abbrev resuming : Settings Bytes
resuming = record config {
  resume_from_revision = true;
  max_pending_events = pos 10;
  filter_set = true;
  want_put = true;
  want_delete = false;
}

abbrev change : Kind → Bytes → ℕ → ClientEvent
change k key n = record { kind = k; kv = record { key = key; value = codes "y"; mod_revision = n } }

-- The changes of the store after the read, at revision 7. One is of another key, and one is a
-- deletion, which the filter leaves out.
abbrev changes : List ClientEvent
changes =
    change put (codes "/app/a") 8
    ∷ change put (codes "/other") 8
    ∷ change delete (codes "/app/b") 9
    ∷ change put (codes "/app/c") 9
    ∷ []

watched : IsWatching world resuming changes
unfolding config new_settings
watched = record { mode = inr (refl, refl); key_bytes = ground arith; ascending = ground arith }

abbrev session : ℕ → ClientEvent → Round
session n c = record {
  done_at_start = false;
  inputs =
      response (record { failure = none; revision = n; events = c ∷ [] }) ∷ channel_closed ∷ [];
  done_after = false;
  int_n = λ n. pos 0;
  interrupted = false;
}

abbrev sessions : List Round
sessions =
    session 8 (change put (codes "/app/a") 8) ∷ session 9 (change put (codes "/app/c") 9) ∷ []

retries : Retries world resuming changes 8 sessions
unfolding compacted is_fatal_rpc_error config new_settings watch_key watch_opts unfiltered start_of
    prefix_end
retries = ((none, ground arith), ground arith, ((none, ground arith), ground arith, tt))

abbrev watching : State
watching = (watch_typed none 2 0 (read_ctx world resuming idle).0).0

read_ctx-found : (read_ctx world resuming idle).1 ≡ ok found
unfolding read_ctx config new_settings prefix_end
read_ctx-found = refl

read_then_watch_example :
    ((read_ctx world resuming idle).1 ≡ ok found)
    × ((watch_typed none 2 0 (read_ctx world resuming idle).0).1 ≡ ok tt)
    × ((last : Loop) × ((watch_loop world resuming sessions watching).1 ≡ again last)
        × (last.start_rev ≡ reached_all 8 sessions)
        × (delivered (watch_loop world resuming sessions watching).0.trace
            ≡ delivered watching.trace ++ due world resuming 8 last.start_rev changes))
unfolding config new_settings
read_then_watch_example =
    read_then_watch world resuming store 7 found 2 0 changes sessions idle snap sorted bytes
      (omega arith) (omega arith) (snapshot_map-found resuming refl refl read_ctx-found) refl refl
      refl refl refl watched retries
