-- ===== src/Watch/Loop/Pace.antt =====
-- How the loop waits and what it reports: the sleeps between two tries, and OnReconnect.
use koanf_etcd.Base.{
  ℕ, zero, suc, ◌^◌, ◌≤◌, ◌<◌, List, All, ◌≡◌, subst, sym, arith, Option, none, some,
}
use koanf_etcd.Base.Int.{pos}
use koanf_etcd.Settings.{Settings, Handle, Duration}
use koanf_etcd.Provider.{
  State, Env, Effect, Event, get_sent, watch_sent, on_empty_called, on_reconnect_called,
  on_resync_called, on_watch_error_called, typed_called, cb_called, slept, done_closed,
  context_cancelled, client_closed,
}
use koanf_etcd.Watch.{deliver_batch}
use koanf_etcd.Watch.Backoff.{backoff, IsRandom, backoff_bounds}
use koanf_etcd.Watch.Loop.{Loop, Round, leave, signal_watch_done, clear_watch_state, run_loop}
use koanf_etcd.Watch.Loop.Keeps.{IsPlain, IsLoopKept, run_loop-kept}

abbrev pub IsWithin : ℕ → ℕ → Duration → Type 0
IsWithin min max d = (r : ℕ) × (d ≡ pos r) × (min ≤ r) × (r ≤ max)

-- A sleep is between the bounds of the backoff, and OnReconnect reports a failed attempt at least.
abbrev pub IsPaced : ℕ → ℕ → Effect → Type 0
IsPaced min max (slept d) = IsWithin min max d
IsPaced min max (on_reconnect_called h attempts last rev) = 1 ≤ attempts
IsPaced min max (get_sent k o) = Unit
IsPaced min max (watch_sent k o) = Unit
IsPaced min max (on_empty_called h p) = Unit
IsPaced min max (on_resync_called h r) = Unit
IsPaced min max (on_watch_error_called h e c) = Unit
IsPaced min max (typed_called h b) = Unit
IsPaced min max (cb_called h) = Unit
IsPaced min max (done_closed h) = Unit
IsPaced min max (context_cancelled h) = Unit
IsPaced min max (client_closed h) = Unit

IsPlain-IsPaced : (min max : ℕ) (e : Effect) → IsPlain e → IsPaced min max e
IsPlain-IsPaced min max (slept d) h = absurd h
IsPlain-IsPaced min max (on_reconnect_called n a l r) h = absurd h
IsPlain-IsPaced min max (get_sent k o) h = tt
IsPlain-IsPaced min max (watch_sent k o) h = tt
IsPlain-IsPaced min max (on_empty_called n p) h = tt
IsPlain-IsPaced min max (on_resync_called n r) h = tt
IsPlain-IsPaced min max (on_watch_error_called n e c) h = tt
IsPlain-IsPaced min max (typed_called n b) h = tt
IsPlain-IsPaced min max (cb_called n) h = tt
IsPlain-IsPaced min max (done_closed n) h = tt
IsPlain-IsPaced min max (context_cancelled n) h = tt
IsPlain-IsPaced min max (client_closed n) h = tt

abbrev pub AllPaced : ℕ → ℕ → State → Type 0
AllPaced min max st = All (IsPaced min max) st.trace

-- `rand.Int64N` returns a number below its argument.
abbrev pub IsFair : Round → Type 0
IsFair r = IsRandom r.int_n

module _ {V : Type 0} (env : Env V) (s : Settings V) (min max : ℕ) where
  deliver_batch-AllPaced :
      (batch : List Event) (st : State)
      → AllPaced min max st
      → AllPaced min max (deliver_batch env s batch st)
  unfolding deliver_batch
  deliver_batch-AllPaced batch st h = ground arith

  module _ (least : s.reconnect_min ≡ pos min) (most : s.reconnect_max ≡ pos max)
      (positive : 0 < min) (le : min ≤ max) (fits : max < 2 ^ 63) where
    waits :
        (r : Round) (n : ℕ)
        → IsFair r
        → 1 ≤ n
        → IsWithin min max (backoff r.int_n (pos n) s.reconnect_min s.reconnect_max)
    waits r zero q h = absurd (omega arith)
    waits r (suc n) q h =
        let (d, same, low, high, _) = backoff_bounds r.int_n n min max q positive le fits in
        (d, rw (least, most) same, low, high)

    AllPaced-kept : IsLoopKept env s IsFair (AllPaced min max)
    AllPaced-kept = record {
      by_session = record {
        by_same = λ a b same h. subst (All (IsPaced min max)) (sym same.same_trace) h;
        by_batch = deliver_batch-AllPaced;
      };
      by_effect = λ e st plain h. (IsPlain-IsPaced min max e plain, h);
      by_reconnect = λ n a e st failed h. (failed, h);
      by_sleep = λ r n st q failed h. (waits r n q failed, h);
    }

    leave-AllPaced : (st : State) → AllPaced min max st → AllPaced min max (leave env s st)
    unfolding leave signal_watch_done clear_watch_state
    leave-AllPaced st h = go st.watch_done
      where
        go : (d : Option Handle) → AllPaced min max (signal_watch_done env s d st)
        go none = h
        go (some n) = (tt, h)

    -- Over any number of iterations, and whatever the sessions bring: each sleep is as long as the
    -- bounds of WithReconnectBackoff say, also where the shift overflows, and each call of
    -- OnReconnect reports one failed attempt at least. For bounds that are positive and in order,
    -- and random numbers in their range.
    pub run_loop-AllPaced :
        (rs : List Round) (l : Loop) (st : State)
        → All IsFair rs
        → AllPaced min max st
        → AllPaced min max (run_loop env s rs l st).0
    run_loop-AllPaced rs l st fair h =
        run_loop-kept env s IsFair (AllPaced min max) AllPaced-kept (AllPaced min max) rs l st
          (λ a g. g) leave-AllPaced fair h
