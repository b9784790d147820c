-- ===== src/Watch/Session.antt =====
-- watch.go, `consumeWatch`: one session on a watch channel. What the `select` receives is a list
-- of inputs, in the order in which it receives them.
pub mod Delivery
pub mod Progress
pub mod Bounds
pub mod Effects
pub mod Keeps
pub mod Debounce
use koanf_etcd.Base.{
  ℕ, ◌+◌, Bool, true, false, not, ◌&&◌, Option, none, some, List, [], ◌∷◌, ◌++◌, length, ltb,
  if◌then◌else◌,
}
use koanf_etcd.Base.Int.{ℤ, pos, int32, le_int, is_pos}
use koanf_etcd.Errors.{Error}
use koanf_etcd.Client.{ClientEvent, WatchResponse}
use koanf_etcd.Settings.{Settings}
use koanf_etcd.Provider.{State, AtomicStats, Env, Event, add64}
use koanf_etcd.Watch.{deliver_batch, translate_event}

pub data Input : Type 0 where
  ctx_done : Input
  channel_closed : Input
  response : WatchResponse → Input
  timer_fired : Input

-- The local variables; `armed` says that `timerCh` is not nil.
pub record Session : Type 0 where
  pub pending : List Event
  pub armed : Bool
  pub new_rev : ℕ
  pub made_progress : Bool

abbrev pub fresh : Session
fresh = record { pending = []; armed = false; new_rev = 0; made_progress = false }

-- The four results, or a session that still waits for its next input.
pub data Outcome : Type 0 where
  waiting : Session → Outcome
  ended : (drained : Bool) (new_rev : ℕ) (made_progress : Bool) (fatal_err : Option Error) → Outcome

module _ {V : Type 0} (env : Env V) (s : Settings V) where
  count_flush : List Event → State → State
  count_flush batch st = record st {
    stats = record (st.stats) {
      total_debounce_flushes = add64 st.stats.total_debounce_flushes 1;
      last_flush_coalesced = int32 (length batch);
    };
  }

  -- The closure `flush`, given `pending`; it leaves `pending` empty.
  unfoldable pub flush : List Event → State → State
  unfolding count_flush
  flush [] st = st
  flush (e ∷ es) st = deliver_batch env s (e ∷ es) (count_flush (e ∷ es) st)

  keep : Option Event → List Event → List Event
  keep none es = es
  keep (some e) es = e ∷ es

  -- The loop over `resp.Events`: the events to append to `pending`.
  translate_all : List ClientEvent → State → State × List Event
  unfolding keep
  translate_all [] st = (st, [])
  translate_all (ev ∷ evs) st =
      let (st', e) = translate_event env s ev st in
      let (st'', es) = translate_all evs st' in (st'', keep e es)

  -- `newRev` and `stats.revision` follow a header revision that is larger.
  see_revision : ℕ → Session → Session
  see_revision rev x = record x {
    made_progress = true;
    new_rev = if ltb x.new_rev rev then rev else x.new_rev;
  }

  store_larger : ℕ → ℕ → State → State
  store_larger rev seen st =
      if ltb seen rev then record st { stats = record (st.stats) { revision = rev } } else st

  is_full : List Event → Bool
  is_full es = is_pos s.max_pending_events && le_int s.max_pending_events (pos (length es))

  -- What follows once the events of a response are pending: an early flush, the debounce timer, or
  -- a flush at once.
  settle : Session → State → State × Session
  unfolding is_full flush
  settle x st =
      if is_full x.pending
      then (flush x.pending st, record x { pending = []; armed = false })
      else if is_pos s.debounce
      then (st, record x { armed = true })
      else (flush x.pending st, record x { pending = [] })

  -- A response without an error.
  receive : WatchResponse → Session → State → State × Session
  unfolding see_revision store_larger translate_all settle
  receive resp x st =
      let (st', es) = translate_all resp.events (store_larger resp.revision x.new_rev st) in
      let y = see_revision resp.revision x in settle (record y { pending = y.pending ++ es }) st'

  -- The deferred flush on the way out.
  finish : Bool → Option Error → Session → State → State × Outcome
  unfolding flush
  finish drained e x st = (flush x.pending st, ended drained x.new_rev x.made_progress e)

  -- A nil `timerCh` delivers nothing.
  fire : Session → State → State × Session
  unfolding flush
  fire x st =
      if x.armed then (flush x.pending st, record x { pending = []; armed = false }) else (st, x)

  unfoldable pub consume_watch : List Input → Session → State → State × Outcome
  unfolding receive finish fire
  consume_watch [] x st = (st, waiting x)
  consume_watch (ctx_done ∷ is) x st = finish true none x st
  consume_watch (channel_closed ∷ is) x st = finish false none x st
  consume_watch (response r ∷ is) x st = elim r.failure [
    | some e ↦ finish false (some e) x st
    | none ↦ let (st', y) = receive r x st in consume_watch is y st'
  ]
  consume_watch (timer_fired ∷ is) x st = let (st', y) = fire x st in consume_watch is y st'
