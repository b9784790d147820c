-- ===== src/Lifecycle/Safety/Calls.antt =====
-- Watch and WatchTyped keep the invariant.
use koanf_etcd.Base.{ℕ, suc, Bool, Option, none, some, List, [], ◌∷◌, ◌≡◌, refl, arith}
use koanf_etcd.Errors.{Error}
use koanf_etcd.Settings.{Handle}
use koanf_etcd.Provider.{State}
use koanf_etcd.Lifecycle.{start, watch_typed}
use koanf_etcd.Lifecycle.Steps.{Running, Closing, System, spawn, started, closings}
use koanf_etcd.Lifecycle.Safety.{OneLoop, OneClose, IsSafe}

later-OneLoop : (n : ℕ) (rs : List Running) (st : State) → OneLoop n rs st → OneLoop (suc n) rs st
later-OneLoop n [] st k = k
later-OneLoop n (r ∷ []) st k = ground arith
later-OneLoop n (r ∷ t ∷ rs) st k = absurd k

-- A callback that is installed.
abbrev IsQuiet : (State → State) → Type 0
IsQuiet install = (st : State) → ((install st).closed ≡ st.closed) × ((install st).trace ≡ st.trace)

start-OneLoop :
    (n : ℕ) (rs : List Running) (st : State) (install : State → State)
    → ((install st).trace ≡ st.trace)
    → OneLoop n rs st
    → closings n st.trace ≡ 0
    → OneLoop (suc n) (spawn n (start install n st).1 rs) (start install n st).0
unfolding start
start-OneLoop n [] st install same k h = ground arith
start-OneLoop n (r ∷ []) st install same k h = ground arith
start-OneLoop n (r ∷ t ∷ rs) st install same k h = absurd k

start-OneClose :
    (owns : Bool) (n : ℕ) (cs : List Closing) (st : State) (install : State → State)
    → ((install st).closed ≡ st.closed)
    → ((install st).trace ≡ st.trace)
    → OneClose owns cs st
    → OneClose owns cs (start install n st).0
unfolding start
start-OneClose owns n [] st install kept same k = ground arith
start-OneClose owns n (c ∷ []) st install kept same k = ground arith
start-OneClose owns n (c ∷ d ∷ cs) st install kept same k = absurd k

start-trace :
    (n : ℕ) (st : State) (install : State → State)
    → ((install st).trace ≡ st.trace)
    → (start install n st).0.trace ≡ st.trace
unfolding start
start-trace n st install same = ground arith

pub start-IsSafe :
    (owns : Bool) (y : System) (install : State → State)
    → IsQuiet install
    → IsSafe owns y
    → IsSafe owns (started y (start install y.next_id y.state))
start-IsSafe owns y install quiet k =
    let (same_closed, same) = quiet y.state in
    let kept = start-trace y.next_id y.state install same in
    record {
      one_loop =
          start-OneLoop y.next_id y.loops y.state install same k.one_loop
            (k.not_yet y.next_id (omega arith));
      one_close =
          start-OneClose owns y.next_id y.closers y.state install same_closed same k.one_close;
      closed_once = λ h. ground (arith, kept, k.closed_once h);
      not_yet = λ h later. ground (arith, kept, k.not_yet h (omega arith));
    }

pub typed-IsSafe :
    (owns : Bool) (y : System) (e : Option Error) (cb : Handle)
    → IsSafe owns y
    → IsSafe owns (started y (watch_typed e cb y.next_id y.state))
unfolding watch_typed
typed-IsSafe owns y none cb k =
    start-IsSafe owns y (λ st. record st { watch_typed_cb = some cb }) (λ st. (refl, refl)) k
typed-IsSafe owns y (some e) cb k = record {
  one_loop = later-OneLoop y.next_id y.loops y.state k.one_loop;
  one_close = k.one_close;
  closed_once = k.closed_once;
  not_yet = λ h later. k.not_yet h (omega arith);
}
