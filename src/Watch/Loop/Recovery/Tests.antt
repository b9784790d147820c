-- ===== src/Watch/Loop/Recovery/Tests.antt =====
-- A session that brings one change and is then compacted away, and a resync that is pending while
-- etcd is down.
use koanf_etcd.Base.{true, false, none, some, [], ◌∷◌, ◌++◌, Bytes, codes, ◌≡◌, refl, arith}
use koanf_etcd.Base.Int.{pos}
use koanf_etcd.Errors.{ok, err, is_compacted}
use koanf_etcd.Client.{put}
use koanf_etcd.Settings.{new_settings}
use koanf_etcd.Provider.{State, Env}
use koanf_etcd.Range.{prefix_end}
use koanf_etcd.Read.{read_ctx}
use koanf_etcd.Read.Samples.{
  compaction, store, world, config, idle, snap, sorted, bytes, found, snapshot_map-found,
}
use koanf_etcd.Watch.Session.{response}
use koanf_etcd.Watch.Session.Delivery.{delivered, observed}
use koanf_etcd.Watch.Loop.{Loop, Round, again, iterate}
use koanf_etcd.Watch.Loop.Recovery.{resumed, iterate_recovers}
use koanf_etcd.Watch.Loop.Handed.{resync_event}

abbrev watching : State
watching = record idle { watch_typed_cb = some 2; watch_cancel = some 0; watch_done = some 0 }

abbrev failing : Loop
failing = record {
  start_rev = 3;
  attempt = 2;
  pending = false;
  failed_attempts = 2;
  last_fail_err = none;
}

abbrev session : Round
session = record {
  done_at_start = false;
  inputs =
      response (record {
        failure = none;
        revision = 3;
        events =
            record {
              kind = put;
              kv = record { key = codes "/app/a"; value = codes "y"; mod_revision = 3 };
            }
            ∷ [];
      })
      ∷ response (record { failure = some compaction; revision = 3; events = [] })
      ∷ [];
  done_after = false;
  int_n = λ n. pos 0;
  interrupted = false;
}

read_ctx-found : (read_ctx world config idle).1 ≡ ok found
unfolding read_ctx config new_settings prefix_end
read_ctx-found = refl

iterate_recovers_example :
    ((iterate world config session failing watching).1 ≡ again (resumed world config 2 7 failing))
    × (delivered (iterate world config session failing watching).0.trace
        ≡ [] ++ (observed world config session.inputs ++ resync_event 7 ∷ []))
unfolding config new_settings is_compacted
iterate_recovers_example =
    iterate_recovers world config 2 store 7 found session failing watching false compaction snap
      sorted bytes (omega arith) (snapshot_map-found config refl refl read_ctx-found) refl refl refl
      refl refl refl refl refl

abbrev down : Env Bytes
down = record world { get = λ n key opts. err compaction }

abbrev pending : Loop
pending = record failing { pending = true }
