-- ===== src/Lifecycle.antt =====
-- etcd.go: Watch, WatchTyped and Close, and how they run beside the watch loop.
pub mod Steps
pub mod Safety
pub mod Handover
pub mod Runs
pub mod Ownership
mod Tests
use koanf_etcd.Base.{
  ℕ, zero, suc, Bool, true, false, not, ◌&&◌, Option, none, some, is_some, List, [], ◌∷◌,
  if◌then◌else◌,
}
use koanf_etcd.Base.Int.{is_pos}
use koanf_etcd.Errors.{Error, Result, ok, err, sentinel, wrap, closed, watch_active, ctx_cancelled}
use koanf_etcd.Settings.{Settings, Handle}
use koanf_etcd.Provider.{State, Effect, context_cancelled, client_closed, emit}

-- The body that Watch and WatchTyped share, under watchMu: `install` sets the callback. The new
-- context and the new done channel are both named `id`.
pub start : (State → State) → Handle → State → State × Result (Unit {0})
start install id st =
    if st.closed
    then (st, err (sentinel closed))
    else if is_some st.watch_cancel
    then (st, err (sentinel watch_active))
    else (record (install st) { watch_cancel = some id; watch_done = some id }, ok tt)

unfoldable pub watch : Handle → Handle → State → State × Result (Unit {0})
unfolding start
watch cb id = start (λ st. record st { watch_cb = some cb }) id

-- `ctx_err` is what `ctx.Err()` returns.
unfoldable pub watch_typed : Option Error → Handle → Handle → State → State × Result (Unit {0})
unfolding start
watch_typed (some e) cb id st = (st, err (wrap ctx_cancelled e))
watch_typed none cb id st = start (λ st'. record st' { watch_typed_cb = some cb }) id st

-- Close, from one of its synchronisation points to the next. `p.closed.CompareAndSwap(false, true)`
unfoldable pub close_once : State → State × Bool
close_once st = if st.closed then (st, false) else (record st { closed = true }, true)

-- The section under watchMu: what is cancelled, and the channel to wait for.
unfoldable pub cancel_watch : State → State × Option Handle
cancel_watch st = elim st.watch_cancel [
  | none ↦ (st, st.watch_done)
  | some h ↦ (record (emit (context_cancelled h) st) { watch_cancel = none }, st.watch_done)
]

-- The end of Close, for a client that is not nil.
unfoldable pub close_client : Bool → Handle → State → State
close_client owns client st = if owns then emit (client_closed client) st else st
