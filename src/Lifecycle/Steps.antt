-- ===== src/Lifecycle/Steps.antt =====
-- The interleavings of Watch, WatchTyped, Close and the goroutines that they start.
use koanf_etcd.Base.{
  ℕ, suc, ◌+◌, ◌==◌, ◌≤◌, Bool, true, false, Option, none, some, List, [], ◌∷◌, ◌++◌, ◌≡◌, ◌⊎◌,
  if◌then◌else◌,
}
use koanf_etcd.Base.Int.{is_pos}
use koanf_etcd.Errors.{Error, Result, ok, err}
use koanf_etcd.Settings.{Settings, Handle}
use koanf_etcd.Provider.{
  State, Env, Effect, get_sent, watch_sent, on_empty_called, on_reconnect_called, on_resync_called,
  on_watch_error_called, typed_called, cb_called, slept, done_closed, context_cancelled,
  client_closed,
}
use koanf_etcd.Watch.Loop.{signal_watch_done, clear_watch_state}
use koanf_etcd.Lifecycle.{watch, watch_typed, close_once, cancel_watch, close_client}

-- A goroutine of the watch loop that has not ended, named as its done channel; `signalled` says
-- that it has closed the channel and is about to clear the slot.
pub record Running : Type 0 where
  pub id : Handle
  pub signalled : Bool

-- Where a Close stands that has won the swap.
pub data Closing : Type 0 where
  cancelling : Closing
  waiting_for : Option Handle → Closing
  closing : Closing

pub record System : Type 0 where
  pub state : State
  pub loops : List Running
  pub closers : List Closing
  pub next_id : Handle

-- The goroutine of a call that succeeded.
abbrev pub spawn : Handle → Result (Unit {0}) → List Running → List Running
spawn id (ok u) rs = record { id = id; signalled = false } ∷ rs
spawn id (err e) rs = rs

abbrev pub started : System → State × Result (Unit {0}) → System
started y (st, r) = record y {
  state = st;
  loops = spawn y.next_id r y.loops;
  next_id = suc y.next_id;
}

abbrev pub begun : System → State × Bool → System
begun y (st, true) = record y { state = st; closers = cancelling ∷ y.closers }
begun y (st, false) = record y { state = st }

-- How often a done channel was closed, and the client.
abbrev pub closings : Handle → List Effect → ℕ
closings h [] = 0
closings h (done_closed k ∷ t) = (if k == h then 1 else 0) + closings h t
closings h (get_sent k o ∷ t) = closings h t
closings h (watch_sent k o ∷ t) = closings h t
closings h (on_empty_called k p ∷ t) = closings h t
closings h (on_reconnect_called k a l r ∷ t) = closings h t
closings h (on_resync_called k r ∷ t) = closings h t
closings h (on_watch_error_called k e c ∷ t) = closings h t
closings h (typed_called k b ∷ t) = closings h t
closings h (cb_called k ∷ t) = closings h t
closings h (slept d ∷ t) = closings h t
closings h (context_cancelled k ∷ t) = closings h t
closings h (client_closed k ∷ t) = closings h t

abbrev pub client_closings : List Effect → ℕ
client_closings [] = 0
client_closings (client_closed k ∷ t) = suc (client_closings t)
client_closings (done_closed k ∷ t) = client_closings t
client_closings (get_sent k o ∷ t) = client_closings t
client_closings (watch_sent k o ∷ t) = client_closings t
client_closings (on_empty_called k p ∷ t) = client_closings t
client_closings (on_reconnect_called k a l r ∷ t) = client_closings t
client_closings (on_resync_called k r ∷ t) = client_closings t
client_closings (on_watch_error_called k e c ∷ t) = client_closings t
client_closings (typed_called k b ∷ t) = client_closings t
client_closings (cb_called k ∷ t) = client_closings t
client_closings (slept d ∷ t) = client_closings t
client_closings (context_cancelled k ∷ t) = client_closings t

-- What a loop or a reader may do between two synchronisation points: anything but to touch the
-- slot, the flag `closed`, a done channel or the client.
pub record Works (a b : State) : Type 0 where
  pub same_done : b.watch_done ≡ a.watch_done
  pub same_cancel : b.watch_cancel ≡ a.watch_cancel
  pub same_cb : b.watch_cb ≡ a.watch_cb
  pub same_typed_cb : b.watch_typed_cb ≡ a.watch_typed_cb
  pub same_closed : b.closed ≡ a.closed
  pub same_closings : (h : Handle) → closings h b.trace ≡ closings h a.trace
  pub same_client : client_closings b.trace ≡ client_closings a.trace

-- One step of any of the goroutines. A Close waits for the channel, or for its timeout if it has
-- one.
module _ {V : Type 0} (env : Env V) (s : Settings V) (owns : Bool) (client : Handle) where
  pub data Step : System → System → Type 0 where
    calls_watch : {y : System} (cb : Handle) → Step y (started y (watch cb y.next_id y.state))
    calls_watch_typed :
        {y : System} (e : Option Error) (cb : Handle)
        → Step y (started y (watch_typed e cb y.next_id y.state))
    works : {y : System} (st : State) → Works y.state st → Step y (record y { state = st })
    signals :
        {y : System} (rs ts : List Running) (id : Handle)
        → y.loops ≡ rs ++ record { id = id; signalled = false } ∷ ts
        → Step y (record y {
          state = signal_watch_done env s y.state.watch_done y.state;
          loops = rs ++ record { id = id; signalled = true } ∷ ts;
        })
    clears :
        {y : System} (rs ts : List Running) (id : Handle)
        → y.loops ≡ rs ++ record { id = id; signalled = true } ∷ ts
        → Step y (record y { state = clear_watch_state env s y.state; loops = rs ++ ts })
    calls_close : {y : System} → Step y (begun y (close_once y.state))
    cancels :
        {y : System} (cs ds : List Closing)
        → y.closers ≡ cs ++ cancelling ∷ ds
        → Step y (record y {
          state = (cancel_watch y.state).0;
          closers = cs ++ waiting_for (cancel_watch y.state).1 ∷ ds;
        })
    stops_waiting :
        {y : System} (cs ds : List Closing) (done : Option Handle)
        → y.closers ≡ cs ++ waiting_for done ∷ ds
        → (done ≡ none)
          ⊎ (((h : Handle) × (done ≡ some h) × (1 ≤ closings h y.state.trace))
              ⊎ (is_pos s.close_timeout ≡ true))
        → Step y (record y { closers = cs ++ closing ∷ ds })
    closes_client :
        {y : System} (cs ds : List Closing)
        → y.closers ≡ cs ++ closing ∷ ds
        → Step y (record y { state = close_client owns client y.state; closers = cs ++ ds })

  -- What can be reached from a provider that `New` has just made.
  pub data Reaches (st : State) : System → Type 0 where
    made : Reaches st (record { state = st; loops = []; closers = []; next_id = 0 })
    then_steps : {y z : System} → Reaches st y → Step y z → Reaches st z
