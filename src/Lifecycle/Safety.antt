-- ===== src/Lifecycle/Safety.antt =====
-- etcd.go: what every interleaving of Watch, WatchTyped, Close and the loops keeps.
pub mod Calls
pub mod Loops
pub mod Closers
pub mod Reached
pub mod Waits
use koanf_etcd.Base.{
  ℕ, zero, suc, ◌+◌, ◌==◌, ◌≤◌, ◌<◌, Bool, true, false, not, Option, none, some, is_some, List, [],
  ◌∷◌, ◌++◌, length, ◌≡◌, ◌⊎◌, inl, inr, refl, sym, ap, subst, ◌∙◌, arith, if◌then◌else◌,
  Bool-cases,
}
use koanf_etcd.Base.Int.{is_pos}
use koanf_etcd.Errors.{Error, Result, ok, err}
use koanf_etcd.Settings.{Settings, Handle}
use koanf_etcd.Provider.{State, Env, Effect}
use koanf_etcd.Watch.Loop.{signal_watch_done, clear_watch_state}
use koanf_etcd.Lifecycle.{start, watch, watch_typed, close_once, cancel_watch, close_client}
use koanf_etcd.Lifecycle.Steps.{
  Running, Closing, cancelling, waiting_for, closing, System, spawn, started, begun, closings,
  client_closings, Works, Step, calls_watch, calls_watch_typed, works, signals, clears, calls_close,
  cancels, stops_waiting, closes_client, Reaches, made, then_steps,
}

-- What `New` leaves in the fields that change.
pub record IsNew (st : State) : Type 0 where
  pub no_cancel : st.watch_cancel ≡ none
  pub no_cb : st.watch_cb ≡ none
  pub no_typed_cb : st.watch_typed_cb ≡ none
  pub no_done : st.watch_done ≡ none
  pub not_closed : st.closed ≡ false
  pub no_effects : st.trace ≡ []

-- The slot names the one loop that runs, if one does. Its context is not cancelled before Close.
abbrev pub OneLoop : ℕ → List Running → State → Type 0
OneLoop next [] st =
    (st.watch_cancel ≡ none)
    × (st.watch_cb ≡ none)
    × (st.watch_typed_cb ≡ none)
    × (st.watch_done ≡ none)
OneLoop next (r ∷ []) st =
    (st.watch_done ≡ some r.id)
    × ((st.watch_cancel ≡ some r.id) ⊎ ((st.watch_cancel ≡ none) × (st.closed ≡ true)))
    × (r.id < next)
    × (closings r.id st.trace ≡ (if r.signalled then 1 else 0))
OneLoop next (r ∷ t ∷ rs) st = ⊥

-- One Close at most has won the swap; and the client is closed when it is through, if it is owned.
abbrev pub OneClose : Bool → List Closing → State → Type 0
OneClose owns [] st =
    ((st.closed ≡ false) × (client_closings st.trace ≡ 0))
    ⊎ ((st.closed ≡ true) × (client_closings st.trace ≡ (if owns then 1 else 0)))
OneClose owns (c ∷ []) st = (st.closed ≡ true) × (client_closings st.trace ≡ 0)
OneClose owns (c ∷ d ∷ cs) st = ⊥

pub record IsSafe (owns : Bool) (y : System) : Type 0 where
  pub one_loop : OneLoop y.next_id y.loops y.state
  pub one_close : OneClose owns y.closers y.state
  pub closed_once : (h : Handle) → closings h y.state.trace ≤ 1
  pub not_yet : (h : Handle) → y.next_id ≤ h → closings h y.state.trace ≡ 0

-- A position in a list that OneLoop or OneClose allows is the only one.
pub loops-single :
    (n : ℕ) (rs ts : List Running) (r : Running) (st : State)
    → OneLoop n (rs ++ r ∷ ts) st
    → OneLoop n (r ∷ []) st
      × ((q : Running) (a : State) → OneLoop n (q ∷ []) a → OneLoop n (rs ++ q ∷ ts) a)
      × ((a : State) → OneLoop n [] a → OneLoop n (rs ++ ts) a)
loops-single n [] [] r st k = (k, λ q a h. h, λ a h. h)
loops-single n [] (t ∷ ts) r st k = absurd k
loops-single n (q ∷ []) ts r st k = absurd k
loops-single n (q ∷ p ∷ rs) ts r st k = absurd k

pub closers-single :
    (owns : Bool) (cs ds : List Closing) (c : Closing) (st : State)
    → OneClose owns (cs ++ c ∷ ds) st
    → OneClose owns (c ∷ []) st
      × ((b : Closing) (a : State) → OneClose owns (b ∷ []) a → OneClose owns (cs ++ b ∷ ds) a)
      × ((a : State) → OneClose owns [] a → OneClose owns (cs ++ ds) a)
closers-single owns [] [] c st k = (k, λ b a h. h, λ a h. h)
closers-single owns [] (d ∷ ds) c st k = absurd k
closers-single owns (b ∷ []) ds c st k = absurd k
closers-single owns (b ∷ a ∷ cs) ds c st k = absurd k

pub same-OneClose :
    (owns : Bool) (cs : List Closing) (a b : State)
    → b.closed ≡ a.closed
    → client_closings b.trace ≡ client_closings a.trace
    → OneClose owns cs a
    → OneClose owns cs b
same-OneClose owns [] a b same kept k = ground arith
same-OneClose owns (c ∷ []) a b same kept k = ground arith
same-OneClose owns (c ∷ d ∷ cs) a b same kept k = absurd k
