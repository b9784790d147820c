-- ===== src/Watch/Loop/Tests.antt =====
-- The pace and the tally of the loop over a failed session and one that is compacted away.
use koanf_etcd.Base.{false, none, some, [], ◌∷◌, Bytes, codes, refl, arith}
use koanf_etcd.Base.Int.{pos}
use koanf_etcd.Client.{put}
use koanf_etcd.Settings.{Settings}
use koanf_etcd.Provider.{State}
use koanf_etcd.Read.Samples.{world, config, idle}
use koanf_etcd.Watch.Session.{channel_closed, response}
use koanf_etcd.Watch.Loop.{Loop, Round, run_loop}
use koanf_etcd.Watch.Loop.Pace.{AllPaced, run_loop-AllPaced}
use koanf_etcd.Watch.Loop.Tally.{Tallies, run_loop-Tallies}

abbrev paced : Settings Bytes
paced = record config { reconnect_min = pos 1000; reconnect_max = pos 120000 }

abbrev watching : State
watching = record idle { watch_typed_cb = some 2; watch_cancel = some 0; watch_done = some 0 }

abbrev first : Loop
first = record {
  start_rev = 3;
  attempt = 0;
  pending = false;
  failed_attempts = 0;
  last_fail_err = none;
}

abbrev session : Round
session = record {
  done_at_start = false;
  inputs =
      response (record {
        failure = none;
        revision = 3;
        events =
            record {
              kind = put;
              kv = record { key = codes "/app/a"; value = codes "y"; mod_revision = 3 };
            }
            ∷ [];
      })
      ∷ channel_closed
      ∷ [];
  done_after = false;
  int_n = λ n. pos 0;
  interrupted = false;
}

run_loop-AllPaced_example :
    AllPaced 1000 120000 (run_loop world paced (session ∷ session ∷ []) first watching).0
run_loop-AllPaced_example =
    run_loop-AllPaced world paced 1000 120000 refl refl (omega arith) (omega arith) (omega arith)
      (session ∷ session ∷ []) first watching (λ n h. (0, refl, h), (λ n h. (0, refl, h), tt)) tt

run_loop-Tallies_example :
    Tallies 0 0 (run_loop world config (session ∷ session ∷ []) first watching).0
run_loop-Tallies_example =
    run_loop-Tallies world config 2 (session ∷ session ∷ []) first watching refl (omega arith)
