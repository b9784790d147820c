-- ===== src/Watch/Session/Keeps.antt =====
-- What a session keeps: whatever its changes of the statistics and its batches keep.
use koanf_etcd.Base.{
  ℕ, ltb, Bool, true, false, List, [], ◌∷◌, Option-cases, inl, inr, ◌≡◌, arith, if◌then◌else◌,
}
use koanf_etcd.Base.Int.{is_pos}
use koanf_etcd.Client.{ClientEvent, WatchResponse}
use koanf_etcd.Settings.{Settings}
use koanf_etcd.Provider.{State, Env, Event}
use koanf_etcd.Watch.{deliver_batch, translate_event}
use koanf_etcd.Watch.Session.{
  Input, ctx_done, channel_closed, response, timer_fired, Session, count_flush, flush,
  translate_all, store_larger, is_full, settle, receive, finish, fire, consume_watch,
}

-- The two differ in the statistics and the counters of calls only, and not in how many events were
-- delivered.
pub record Same (a b : State) : Type 0 where
  pub same_trace : b.trace ≡ a.trace
  pub same_typed_cb : b.watch_typed_cb ≡ a.watch_typed_cb
  pub same_delivered : b.stats.total_events_delivered ≡ a.stats.total_events_delivered

-- Kept by both.
pub record IsSessionKept {V : Type 0} (env : Env V) (s : Settings V) (P : State → Type 0)
    : Type 0 where
  pub by_same : (a b : State) → Same a b → P a → P b
  pub by_batch : (batch : List Event) (st : State) → P st → P (deliver_batch env s batch st)

module _ {V : Type 0} (env : Env V) (s : Settings V) (P : State → Type 0)
    (k : IsSessionKept env s P) where
  flush-kept : (es : List Event) (st : State) → P st → P (flush env s es st)
  unfolding flush
  flush-kept [] st h = h
  flush-kept (e ∷ es) st h =
      k.by_batch (e ∷ es) (count_flush env s (e ∷ es) st) (k.by_same st _ (counted (e ∷ es)) h)
    where
      counted : (batch : List Event) → Same st (count_flush env s batch st)
      counted batch = ground arith

  if-kept : (t : Bool) (a b : State) → P a → P b → P (if t then a else b)
  if-kept true a b h g = h
  if-kept false a b h g = g

  pair-kept {ℓ} :
      {A : Type ℓ} (t : Bool) (x y : State × A) → P x.0 → P y.0 → P (if t then x else y).0
  pair-kept true x y h g = h
  pair-kept false x y h g = g

  translate_event-Same : (ev : ClientEvent) (st : State) → Same st (translate_event env s ev st).0
  unfolding translate_event
  translate_event-Same ev st = ground arith

  translate_all-kept :
      (evs : List ClientEvent) (st : State) → P st → P (translate_all env s evs st).0
  unfolding translate_all
  translate_all-kept [] st h = h
  translate_all-kept (ev ∷ evs) st h =
      translate_all-kept evs (translate_event env s ev st).0
        (k.by_same st _ (translate_event-Same ev st) h)

  settle-kept : (x : Session) (st : State) → P st → P (settle env s x st).0
  unfolding settle
  settle-kept x st h =
      pair-kept (is_full env s x.pending)
        (flush env s x.pending st, record x { pending = []; armed = false })
        (if is_pos s.debounce
          then (st, record x { armed = true })
          else (flush env s x.pending st, record x { pending = [] }))
        (flush-kept x.pending st h)
        (pair-kept (is_pos s.debounce) (st, record x { armed = true })
          (flush env s x.pending st, record x { pending = [] }) h (flush-kept x.pending st h))

  store_larger-kept : (rev seen : ℕ) (st : State) → P st → P (store_larger env s rev seen st)
  unfolding store_larger
  store_larger-kept rev seen st h = if-kept (ltb seen rev) _ _ (k.by_same st _ (ground arith) h) h

  receive-kept : (r : WatchResponse) (x : Session) (st : State) → P st → P (receive env s r x st).0
  unfolding receive
  receive-kept r x st h =
      settle-kept _ _ (translate_all-kept r.events _ (store_larger-kept r.revision x.new_rev st h))

  fire-kept : (x : Session) (st : State) → P st → P (fire env s x st).0
  unfolding fire
  fire-kept x st h =
      pair-kept x.armed (flush env s x.pending st, record x { pending = []; armed = false }) (st, x)
        (flush-kept x.pending st h) h

  pub consume_watch-kept :
      (is : List Input) (x : Session) (st : State) → P st → P (consume_watch env s is x st).0
  unfolding consume_watch finish
  consume_watch-kept [] x st h = h
  consume_watch-kept (ctx_done ∷ is) x st h = flush-kept x.pending st h
  consume_watch-kept (channel_closed ∷ is) x st h = flush-kept x.pending st h
  consume_watch-kept (response r ∷ is) x st h = elim (Option-cases r.failure) [
    | inl fine ↦
        rw (fine, consume_watch)
          (consume_watch-kept is (receive env s r x st).1 (receive env s r x st).0
            (receive-kept r x st h))
    | inr (e, bad) ↦ rw (bad, consume_watch) (flush-kept x.pending st h)
  ]
  consume_watch-kept (timer_fired ∷ is) x st h =
      consume_watch-kept is (fire env s x st).1 (fire env s x st).0 (fire-kept x st h)
