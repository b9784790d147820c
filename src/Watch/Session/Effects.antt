-- ===== src/Watch/Session/Effects.antt =====
-- A session leaves the schedule of RPCs, sleeps and OnReconnect, and the slot of the watch, as they
-- are: it sends nothing.
use koanf_etcd.Base.{ℕ, List, [], ◌∷◌, Option-cases, inl, inr, arith}
use koanf_etcd.Client.{ClientEvent, WatchResponse}
use koanf_etcd.Settings.{Settings}
use koanf_etcd.Provider.{State, Env, Event}
use koanf_etcd.Read.Effects.{Quiet, Quiet-refl, Quiet-trans}
use koanf_etcd.Watch.{deliver_batch, translate_event}
use koanf_etcd.Watch.Session.{
  Input, ctx_done, channel_closed, response, timer_fired, Session, flush, translate_all,
  store_larger, settle, receive, finish, fire, consume_watch,
}

module _ {V : Type 0} (env : Env V) (s : Settings V) where
  pub deliver_batch-Quiet :
      (batch : List Event) (st : State) → Quiet st (deliver_batch env s batch st)
  unfolding deliver_batch
  deliver_batch-Quiet batch st = ground arith

  flush-Quiet : (es : List Event) (st : State) → Quiet st (flush env s es st)
  unfolding flush
  flush-Quiet [] st = Quiet-refl st
  flush-Quiet (e ∷ es) st = Quiet-trans st _ _ (ground arith) (deliver_batch-Quiet (e ∷ es) _)

  translate_event-Quiet : (ev : ClientEvent) (st : State) → Quiet st (translate_event env s ev st).0
  unfolding translate_event
  translate_event-Quiet ev st = ground arith

  translate_all-Quiet :
      (evs : List ClientEvent) (st : State) → Quiet st (translate_all env s evs st).0
  unfolding translate_all
  translate_all-Quiet [] st = Quiet-refl st
  translate_all-Quiet (ev ∷ evs) st =
      Quiet-trans st _ _ (translate_event-Quiet ev st)
        (translate_all-Quiet evs (translate_event env s ev st).0)

  settle-Quiet : (x : Session) (st : State) → Quiet st (settle env s x st).0
  unfolding settle
  settle-Quiet x st = ground (arith, flush-Quiet x.pending st, Quiet-refl st)

  store_larger-Quiet : (rev seen : ℕ) (st : State) → Quiet st (store_larger env s rev seen st)
  unfolding store_larger
  store_larger-Quiet rev seen st = ground arith

  receive-Quiet : (r : WatchResponse) (x : Session) (st : State) → Quiet st (receive env s r x st).0
  unfolding receive
  receive-Quiet r x st =
      let stored = store_larger env s r.revision x.new_rev st in
      Quiet-trans st stored _ (store_larger-Quiet r.revision x.new_rev st)
        (Quiet-trans stored _ _ (translate_all-Quiet r.events stored) (settle-Quiet _ _))

  fire-Quiet : (x : Session) (st : State) → Quiet st (fire env s x st).0
  unfolding fire
  fire-Quiet x st = ground (arith, flush-Quiet x.pending st, Quiet-refl st)

  pub consume_watch-Quiet :
      (is : List Input) (x : Session) (st : State) → Quiet st (consume_watch env s is x st).0
  unfolding consume_watch finish
  consume_watch-Quiet [] x st = Quiet-refl st
  consume_watch-Quiet (ctx_done ∷ is) x st = flush-Quiet x.pending st
  consume_watch-Quiet (channel_closed ∷ is) x st = flush-Quiet x.pending st
  consume_watch-Quiet (response r ∷ is) x st = elim (Option-cases r.failure) [
    | inl fine ↦
        rw (fine, consume_watch)
          (Quiet-trans st _ _ (receive-Quiet r x st)
            (consume_watch-Quiet is (receive env s r x st).1 (receive env s r x st).0))
    | inr (e, bad) ↦ rw (bad, consume_watch) (flush-Quiet x.pending st)
  ]
  consume_watch-Quiet (timer_fired ∷ is) x st =
      Quiet-trans st _ _ (fire-Quiet x st)
        (consume_watch-Quiet is (fire env s x st).1 (fire env s x st).0)
