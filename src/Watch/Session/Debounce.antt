-- ===== src/Watch/Session/Debounce.antt =====
-- watch.go, the debounce timer of `consumeWatch` and `armDebounce`: the session of Watch/Session
-- with a time at which each input comes, and the timer that it arms, stops and drains. A timer is
-- that of Go's package time with a channel of one tick, as before Go 1.23; since then a stop takes
-- back the tick too.
mod Timing
mod Tests
use koanf_etcd.Base.{
  ℕ, ◌+◌, Bool, true, false, ◌&&◌, ◌||◌, Option, none, some, List, [], ◌∷◌, ◌++◌, leb,
  if◌then◌else◌,
}
use koanf_etcd.Base.Int.{ℤ, pos_part, is_pos}
use koanf_etcd.Client.{WatchResponse}
use koanf_etcd.Settings.{Settings}
use koanf_etcd.Provider.{State, Env}
use koanf_etcd.Watch.Session.{
  Input, ctx_done, channel_closed, response, timer_fired, Session, Outcome, waiting, see_revision,
  store_larger, translate_all, is_full, receive, finish, fire,
}

-- `due` is when the timer fires, if it is active; `tick` says that its channel holds a value.
pub record Timer : Type 0 where
  pub due : Option ℕ
  pub tick : Bool

-- time.NewTimer, at the time `at`
abbrev pub new_timer : ℕ → ℕ → Timer
new_timer window at = record { due = some (at + window); tick = false }

is_due : ℕ → Option ℕ → Bool
is_due at none = false
is_due at (some d) = leb d at

-- The timer at a later time: once it is due it sends a tick and is no longer active.
unfoldable pub elapse : ℕ → Timer → Timer
unfolding is_due
elapse at t = if is_due at t.due then record { due = none; tick = true } else t

-- Stop, and the drain of the channel if it returns false because the timer was not active.
stop_and_drain : Timer → Timer
stop_and_drain t = elim t.due [
  | some d ↦ record t { due = none }
  | none ↦ record t { tick = false }
]

unfoldable pub arm_debounce : ℕ → ℕ → Option Timer → Timer
unfolding stop_and_drain
arm_debounce window at none = new_timer window at
arm_debounce window at (some t) = record (stop_and_drain t) { due = some (at + window) }

-- The stop of the timer after an early flush.
unfoldable pub stop_debounce : Option Timer → Option Timer
unfolding stop_and_drain
stop_debounce none = none
stop_debounce (some t) = some (stop_and_drain t)

abbrev pub elapsed : ℕ → Option Timer → Option Timer
elapsed at none = none
elapsed at (some t) = some (elapse at t)

abbrev pub has_tick : Option Timer → Bool
has_tick none = false
has_tick (some t) = t.tick

abbrev pub without_tick : Option Timer → Option Timer
without_tick none = none
without_tick (some t) = some (record t { tick = false })

module _ {V : Type 0} (env : Env V) (s : Settings V) where
  -- The session once the events of a response are pending.
  gathered : WatchResponse → Session → State → Session
  unfolding see_revision translate_all store_larger
  gathered r x st =
      let es = (translate_all env s r.events (store_larger env s r.revision x.new_rev st)).1 in
      let y = see_revision env s r.revision x in record y { pending = y.pending ++ es }

  -- What becomes of the timer on a response, as `settle` says for the session.
  settle_timer : ℕ → Session → Option Timer → Option Timer
  unfolding is_full
  settle_timer at x t =
      if is_full env s x.pending
      then stop_debounce t
      else if is_pos s.debounce
      then some (arm_debounce (pos_part s.debounce) at t)
      else t

  -- The receive from `timerCh`, which waits while that is nil or holds no tick.
  receive_tick : Option Timer → Session → State → Option Timer × (State × Session)
  unfolding fire
  receive_tick t x st =
      if x.armed && has_tick t then (without_tick t, fire env s x st) else (t, (st, x))

  -- `consumeWatch` on inputs with the times at which they come; `timer_fired` is the `select`
  -- trying the timer.
  unfoldable pub consume_timed : List (ℕ × Input) → Option Timer → Session → State → State × Outcome
  unfolding gathered settle_timer receive_tick receive finish
  consume_timed [] t x st = (st, waiting x)
  consume_timed ((at, ctx_done) ∷ is) t x st = finish env s true none x st
  consume_timed ((at, channel_closed) ∷ is) t x st = finish env s false none x st
  consume_timed ((at, response r) ∷ is) t x st = elim r.failure [
    | some e ↦ finish env s false (some e) x st
    | none ↦
        let (st', y) = receive env s r x st in
        consume_timed is (settle_timer at (gathered r x st) (elapsed at t)) y st'
  ]
  consume_timed ((at, timer_fired) ∷ is) t x st =
      let (t', (st', y)) = receive_tick (elapsed at t) x st in consume_timed is t' y st'
