-- ===== src/Watch/Tests.antt =====
-- Tests of the watch loop, and its theorems at concrete sessions.
use koanf_etcd.Base.{
  ℕ, ◌*◌, ◌^◌, ◌≤◌, ◌<◌, true, false, ◌||◌, none, some, List, [], ◌∷◌, ◌++◌, codes, length, arith,
  ◌≡◌, ◌⊎◌, inl, inr, refl, if◌then◌else◌,
}
use koanf_etcd.Base.Int.{pos}
use koanf_etcd.Errors.{
  ok, Error, foreign, unauthenticated, wrap, is_compacted, is_fatal_rpc_error, auth, fatal_watch,
}
use koanf_etcd.Client.{Kind, put, delete, ClientEvent}
use koanf_etcd.Client.Changes.{unfiltered, start_of}
use koanf_etcd.Range.{prefix_end}
use koanf_etcd.Settings.{Settings, new_settings, seconds}
use koanf_etcd.Provider.{
  new_stats, State, AtomicStats, Env, event_put, on_watch_error_called, add64,
}
use koanf_etcd.Watch.{translate_event, deliver_batch, watch_key, watch_opts}
use koanf_etcd.Watch.Backoff.{backoff, backoff_bounds}
use koanf_etcd.Watch.Session.{
  Input, channel_closed, response, timer_fired, Session, fresh, waiting, ended, consume_watch,
}
use koanf_etcd.Watch.Session.Delivery.{delivered, observed, left_over, delivered-consume_watch}
use koanf_etcd.Watch.Session.Progress.{largest, any_response, Reports, consume_watch-Reports}
use koanf_etcd.Watch.Session.Bounds.{IsBounded, consume_watch-IsBounded}
use koanf_etcd.Watch.Loop.{
  Loop, Round, again, returns, compacted, after_session, iterate, run_loop, watch_loop,
}
use koanf_etcd.Watch.Loop.Rounds.{watches, watches-iterate, Resumes, iterate-Resumes}
use koanf_etcd.Watch.Loop.Resume.{FollowsNext, watch_loop-Follows}
use koanf_etcd.Watch.Served.{due}
use koanf_etcd.Watch.Loop.Replay.{Retries, IsWatching, reached_all, watch_loop-Replayed}
use koanf_etcd.Watch.Loop.Exit.{after_session_fatal, Left, run_loop-Left}

abbrev stats : AtomicStats
stats = record new_stats { revision = 4; total_reads = 1 }

abbrev running : State
running = record {
  stats = stats;
  watch_cancel = some 1;
  watch_cb = none;
  watch_typed_cb = some 2;
  watch_done = some 3;
  closed = false;
  rpcs = 1;
  ticks = 0;
  calls = 0;
  trace = [];
}

abbrev world : Env ℕ
world = record {
  get = λ n k o. ok (record { revision = 20; kvs = []; more = false });
  unflatten = λ m d. m;
  order = λ m. m;
  now = λ n. pos n;
  panics = λ n. none;
  fuel = 1;
}

abbrev config : Settings ℕ
unfolding new_settings
config = record new_settings {
  prefix = codes "/app/";
  debounce = seconds 1;
  on_watch_error = some 8;
}

abbrev change : Kind → ℕ → ClientEvent
change k n = record {
  kind = k;
  kv = record { key = codes "/app/db"; value = codes "x"; mod_revision = n };
}

abbrev inputs : List Input
inputs =
    response (record { failure = none; revision = 6; events = change put 5 ∷ change delete 6 ∷ [] })
    ∷ timer_fired
    ∷ response (record { failure = none; revision = 7; events = change put 7 ∷ [] })
    ∷ []

abbrev lost : List Input
lost = inputs ++ channel_closed ∷ []

abbrev round : Round
round = record {
  done_at_start = false;
  inputs = lost;
  done_after = false;
  int_n = λ n. pos 0;
  interrupted = false;
}

abbrev idle : Loop
idle = record {
  start_rev = 5;
  attempt = 0;
  pending = false;
  failed_attempts = 0;
  last_fail_err = none;
}

consume_watch_tests :
    (length (delivered (consume_watch world config lost fresh running).0.trace) ≡ 3)
    × ((consume_watch world config lost fresh running).1 ≡ ended false 7 true none)
unfolding consume_watch config new_settings translate_event deliver_batch
consume_watch_tests = (refl, refl)

delivered-consume_watch_example :
    delivered (consume_watch world config lost fresh running).0.trace
      ++ left_over world config (consume_watch world config lost fresh running).1
    ≡ [] ++ observed world config lost
delivered-consume_watch_example =
    delivered-consume_watch world config lost 2 [] fresh running refl refl

consume_watch-Reports_example :
    Reports world config 4 lost fresh (consume_watch world config lost fresh running) false none
consume_watch-Reports_example =
    consume_watch-Reports world config 4 lost fresh running false none (inl (refl, refl)) refl

abbrev held : Session
held = record {
  pending =
      record { type = event_put; key = codes "/app/db"; value = codes "x"; revision = 7 } ∷ [];
  armed = true;
  new_rev = 7;
  made_progress = true;
}

consume_watch-waiting : (consume_watch world config inputs fresh running).1 ≡ waiting held
unfolding consume_watch config new_settings translate_event deliver_batch
consume_watch-waiting = refl

consume_watch-IsBounded_example : IsBounded world config held
unfolding config new_settings
consume_watch-IsBounded_example =
    consume_watch-IsBounded world config inputs fresh running held
      (record { capped = inr (ground arith); prompt = inr refl }) consume_watch-waiting

backoff_bounds_example :
    (r : ℕ) × (backoff (λ n. pos 0) (pos 3) (pos 1000) (pos 120000) ≡ pos r)
    × (1000 ≤ r)
    × (r ≤ 120000)
    × ((120000 < 1000 * 2 ^ 2) ⊎ (r ≤ 1000 * 2 ^ 2))
backoff_bounds_example =
    backoff_bounds (λ n. pos 0) 2 1000 120000 (λ n h. (0, refl, h)) (omega arith) (omega arith)
      (omega arith)

abbrev resuming : Settings ℕ
resuming = record config { resume_from_revision = true }

watches-iterate_example :
    (watches (iterate world config round idle running).0.trace
      ≡ (if false || false then [] else (watch_key world config, watch_opts world config 5) ∷ []))
    × (start_of (watch_opts world config 5) ≡ 5)
watches-iterate_example = watches-iterate world config round idle running

iterate-Resumes_example :
    (last : Loop) × ((iterate world config round idle running).1 ≡ again last)
    × Resumes world config idle (largest 0 lost) (any_response lost) none last
unfolding compacted is_fatal_rpc_error
iterate-Resumes_example =
    iterate-Resumes world config round idle running none refl refl refl refl refl refl refl

watch_loop-Follows_example : FollowsNext (watch_loop world resuming (round ∷ []) running)
watch_loop-Follows_example =
    watch_loop-Follows world resuming (round ∷ []) running refl (omega arith)

run_loop-Left_example : Left world config 3 (run_loop world config (round ∷ []) idle running)
run_loop-Left_example = run_loop-Left world config 3 (round ∷ []) idle running refl

abbrev rejected : Error
rejected = foreign (record {
  is_compacted = false;
  is_permission_denied = false;
  is_user_not_found = false;
  is_auth_failed = false;
  is_invalid_auth_token = false;
  status = some unauthenticated;
  id = 1;
})

after_session_fatal_example :
    let (last, next) =
      after_session world config round idle (running, ended false 0 false (some rejected)) in
    (next ≡ returns)
    × (last.stats.total_watch_errors ≡ add64 (add64 0 1) 1)
    × (last.trace
        ≡ on_watch_error_called 8 (wrap fatal_watch rejected) auth
          ∷ on_watch_error_called 8 rejected auth
          ∷ [])
unfolding config is_fatal_rpc_error is_compacted
after_session_fatal_example =
    after_session_fatal world config 8 round idle running false false 0 rejected refl refl refl

-- The changes of the store after the read at revision 4, and two sessions that bring them.
abbrev changes : List ClientEvent
changes = change put 3 ∷ change put 5 ∷ change delete 6 ∷ change put 7 ∷ change put 8 ∷ []

abbrev next_round : Round
next_round = record round {
  inputs =
      response (record { failure = none; revision = 8; events = change put 8 ∷ [] })
      ∷ channel_closed
      ∷ [];
}

watched : IsWatching world resuming changes
unfolding config new_settings
watched = record { mode = inr (refl, refl); key_bytes = ground arith; ascending = ground arith }

retries : Retries world resuming changes 5 (round ∷ next_round ∷ [])
unfolding compacted is_fatal_rpc_error config new_settings watch_key watch_opts unfiltered start_of
    prefix_end
retries = ((none, ground arith), ground arith, ((none, ground arith), ground arith, tt))

watch_loop-Replayed_example :
    (last : Loop) × ((watch_loop world resuming (round ∷ next_round ∷ []) running).1 ≡ again last)
    × (last.start_rev ≡ reached_all 5 (round ∷ next_round ∷ []))
    × (delivered (watch_loop world resuming (round ∷ next_round ∷ []) running).0.trace
        ≡ [] ++ due world resuming 5 last.start_rev changes)
watch_loop-Replayed_example =
    watch_loop-Replayed world resuming changes 2 (round ∷ next_round ∷ []) running refl
      (omega arith) refl watched retries
