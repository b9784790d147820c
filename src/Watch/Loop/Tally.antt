-- ===== src/Watch/Loop/Tally.antt =====
-- TotalEventsDelivered counts what the typed callback is handed.
use koanf_etcd.Base.{
  ℕ, ◌+◌, ◌^◌, ◌<◌, Option, none, some, List, [], ◌∷◌, All, length, length-append, ◌≡◌, refl, ap,
  ◌∙◌, arith,
}
use koanf_etcd.Settings.{Settings, Handle}
use koanf_etcd.Provider.{
  State, Env, Effect, Event, get_sent, watch_sent, on_empty_called, on_reconnect_called,
  on_resync_called, on_watch_error_called, typed_called, cb_called, slept, done_closed,
  context_cancelled, client_closed, add64,
}
use koanf_etcd.Watch.{deliver_batch}
use koanf_etcd.Watch.Session.Delivery.{delivered}
use koanf_etcd.Watch.Session.Keeps.{Same}
use koanf_etcd.Watch.Loop.{Loop, Round, leave, signal_watch_done, clear_watch_state, run_loop}
use koanf_etcd.Watch.Loop.Keeps.{IsPlain, IsLoopKept, run_loop-kept}

-- Since the state with `n` events delivered and `total` counted, as many more were delivered as
-- were counted.
abbrev pub Tallies : ℕ → ℕ → State → Type 0
Tallies n total st =
    (more : ℕ) × (length (delivered st.trace) ≡ n + more)
    × (st.stats.total_events_delivered ≡ add64 total more)

IsPlain-delivered : (e : Effect) (t : List Effect) → IsPlain e → delivered (e ∷ t) ≡ delivered t
IsPlain-delivered (slept d) t h = absurd h
IsPlain-delivered (on_reconnect_called n a l r) t h = absurd h
IsPlain-delivered (get_sent k o) t h = refl
IsPlain-delivered (watch_sent k o) t h = refl
IsPlain-delivered (on_empty_called n p) t h = refl
IsPlain-delivered (on_resync_called n r) t h = refl
IsPlain-delivered (on_watch_error_called n e c) t h = refl
IsPlain-delivered (typed_called n b) t h = absurd h
IsPlain-delivered (cb_called n) t h = absurd h
IsPlain-delivered (done_closed n) t h = absurd h
IsPlain-delivered (context_cancelled n) t h = absurd h
IsPlain-delivered (client_closed n) t h = absurd h

abbrev Counting : Handle → ℕ → ℕ → State → Type 0
Counting h n total st = (st.watch_typed_cb ≡ some h) × Tallies n total st

module _ {V : Type 0} (env : Env V) (s : Settings V) (h : Handle) (n total : ℕ) where
  deliver_batch_lem :
      (batch : List Event) (st : State)
      → st.watch_typed_cb ≡ some h
      → let b = deliver_batch env s batch st in
        (b.watch_typed_cb ≡ some h)
        × (length (delivered b.trace) ≡ length (delivered st.trace) + length batch)
        × (b.stats.total_events_delivered ≡ add64 st.stats.total_events_delivered (length batch))
  unfolding deliver_batch
  deliver_batch_lem batch st cb = ground (arith, length-append (delivered st.trace) batch)

  deliver_batch-Counting :
      (batch : List Event) (st : State)
      → Counting h n total st
      → Counting h n total (deliver_batch env s batch st)
  deliver_batch-Counting batch st (cb, (more, seen, counted)) =
      let (cb', seen', counted') = deliver_batch_lem batch st cb in
      (cb', (more + length batch, omega arith, omega arith))

  Counting-Same : (a b : State) → Same a b → Counting h n total a → Counting h n total b
  Counting-Same a b same (cb, (more, seen, counted)) = (
    same.same_typed_cb ∙ cb,
    (more, ap (λ t. length (delivered t)) same.same_trace ∙ seen, same.same_delivered ∙ counted),
  )

  Counting-kept : IsLoopKept env s (λ r. Unit) (Counting h n total)
  Counting-kept = record {
    by_session = record { by_same = Counting-Same; by_batch = deliver_batch-Counting };
    by_effect = λ e st plain (cb, (more, seen, counted)).
        (cb, (more, ap length (IsPlain-delivered e st.trace plain) ∙ seen, counted));
    by_reconnect = λ i a e st failed k. k;
    by_sleep = λ r i st q failed k. k;
  }

  leave-Tallies : (st : State) → Counting h n total st → Tallies n total (leave env s st)
  unfolding leave signal_watch_done clear_watch_state
  leave-Tallies st (cb, k) = go st.watch_done k
    where
      go : (d : Option Handle) → Tallies n total st → Tallies n total (signal_watch_done env s d st)
      go none k = k
      go (some i) k = k

any_rounds : (rs : List Round) → All (λ (r : Round). Unit {0}) rs
any_rounds [] = tt
any_rounds (r ∷ rs) = (tt, any_rounds rs)

-- Over any number of iterations, with a typed callback and whatever the sessions, the resyncs and
-- panics of the callback bring: TotalEventsDelivered grows by the number of events that the callback
-- is handed, modulo 2 ^ 64.
pub run_loop-Tallies :
    {V : Type 0} (env : Env V) (s : Settings V) (h : Handle) (rs : List Round) (l : Loop)
    (st : State)
    → st.watch_typed_cb ≡ some h
    → st.stats.total_events_delivered < 2 ^ 64
    → Tallies
        (length (delivered st.trace))
        st.stats.total_events_delivered
        (run_loop env s rs l st).0
run_loop-Tallies env s h rs l st cb word =
    let n = length (delivered st.trace) in
    let total = st.stats.total_events_delivered in
    run_loop-kept env s (λ r. Unit) (Counting h n total) (Counting-kept env s h n total)
      (Tallies n total) rs l st (λ a k. k.1) (leave-Tallies env s h n total) (any_rounds rs)
      (cb, (0, omega arith, omega arith))
