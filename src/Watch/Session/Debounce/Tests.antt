-- ===== src/Watch/Session/Debounce/Tests.antt =====
-- A session whose timer has fired when another response comes, at a window of ten.
use koanf_etcd.Base.{ℕ, none, List, [], ◌∷◌, Bytes, codes, ◌≡◌, refl, arith}
use koanf_etcd.Base.Int.{pos}
use koanf_etcd.Client.{put}
use koanf_etcd.Settings.{Settings}
use koanf_etcd.Read.Samples.{world, config, idle}
use koanf_etcd.Watch.Session.{Input, channel_closed, response, timer_fired, fresh, consume_watch}
use koanf_etcd.Watch.Session.Debounce.{consume_timed}
use koanf_etcd.Watch.Session.Debounce.Timing.{on_time, consume_timed-consume_watch}

abbrev held : Settings Bytes
held = record config { debounce = pos 10; max_pending_events = pos 5 }

abbrev brings : ℕ → Input
brings n = response (record {
  failure = none;
  revision = n;
  events =
      record {
        kind = put;
        kv = record { key = codes "/app/a"; value = codes "y"; mod_revision = n };
      }
      ∷ [];
})

abbrev inputs : List (ℕ × Input)
inputs =
    (1, brings 8)
    ∷ (5, timer_fired)
    ∷ (12, brings 9)
    ∷ (13, timer_fired)
    ∷ (22, timer_fired)
    ∷ (30, channel_closed)
    ∷ []

on_time-inputs : on_time 10 0 inputs ≡ brings 8 ∷ brings 9 ∷ timer_fired ∷ channel_closed ∷ []
on_time-inputs = refl

consume_timed-consume_watch_example :
    consume_timed world held inputs none fresh idle
    ≡ consume_watch world held (on_time 10 0 inputs) fresh idle
consume_timed-consume_watch_example =
    consume_timed-consume_watch world held inputs idle (ground arith)
