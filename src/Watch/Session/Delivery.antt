-- ===== src/Watch/Session/Delivery.antt =====
-- Every event that a session receives, and that the filter lets through, reaches the callback once,
-- in order.
use koanf_etcd.Base.{
  ℕ, false, none, some, List, [], ◌∷◌, ◌++◌, append-nil, append_assoc, ◌≡◌, inl, inr, refl, sym, ap,
  ◌∙◌, arith, Option-cases, if◌then◌else◌,
}
use koanf_etcd.Client.{ClientEvent, WatchResponse}
use koanf_etcd.Settings.{Settings, Handle}
use koanf_etcd.Provider.{
  State, Env, Event, Effect, typed_called, cb_called, get_sent, watch_sent, on_empty_called,
  on_reconnect_called, on_resync_called, on_watch_error_called, slept, done_closed,
  context_cancelled, client_closed,
}
use koanf_etcd.Watch.{deliver_batch, translate_event, is_wanted, event_of}
use koanf_etcd.Watch.Session.{
  Input, ctx_done, channel_closed, response, timer_fired, Session, Outcome, waiting, ended, flush,
  translate_all, store_larger, receive, settle, finish, fire, consume_watch,
}

-- The events handed to the typed callback, oldest first.
abbrev pub delivered : List Effect → List Event
delivered [] = []
delivered (typed_called h batch ∷ t) = delivered t ++ batch
delivered (get_sent k o ∷ t) = delivered t
delivered (watch_sent k o ∷ t) = delivered t
delivered (on_empty_called h p ∷ t) = delivered t
delivered (on_reconnect_called h a l r ∷ t) = delivered t
delivered (on_resync_called h r ∷ t) = delivered t
delivered (on_watch_error_called h e c ∷ t) = delivered t
delivered (cb_called h ∷ t) = delivered t
delivered (slept d ∷ t) = delivered t
delivered (done_closed h ∷ t) = delivered t
delivered (context_cancelled h ∷ t) = delivered t
delivered (client_closed h ∷ t) = delivered t

module _ {V : Type 0} (env : Env V) (s : Settings V) where
  -- The events of a response that the filter lets through.
  abbrev pub wanted : List ClientEvent → List Event
  wanted [] = []
  wanted (ev ∷ evs) = if is_wanted env s ev.kind then event_of env s ev ∷ wanted evs else wanted evs

  -- The events of the responses up to the end of the session.
  unfoldable pub observed : List Input → List Event
  observed [] = []
  observed (ctx_done ∷ is) = []
  observed (channel_closed ∷ is) = []
  observed (response r ∷ is) = elim r.failure [
    | some e ↦ []
    | none ↦ wanted r.events ++ observed is
  ]
  observed (timer_fired ∷ is) = observed is

  -- What is pending when the session still waits.
  abbrev pub left_over : Outcome → List Event
  left_over (waiting x) = x.pending
  left_over (ended d n p e) = []

  -- The callback is installed, and has been handed these events.
  abbrev Holds : Handle → List Event → State → Type 0
  Holds h es st = (st.watch_typed_cb ≡ some h) × (delivered st.trace ≡ es)

  deliver_batch-Holds :
      (h : Handle) (es batch : List Event) (st : State)
      → Holds h es st
      → Holds h (es ++ batch) (deliver_batch env s batch st)
  unfolding deliver_batch
  deliver_batch-Holds h es batch st (cb, old) = ground arith

  flush-Holds :
      (h : Handle) (es pending : List Event) (st : State)
      → Holds h es st
      → Holds h (es ++ pending) (flush env s pending st)
  unfolding flush
  flush-Holds h es [] st (cb, old) = (cb, old ∙ sym (append-nil es))
  flush-Holds h es (e ∷ pending) st k = deliver_batch-Holds h es (e ∷ pending) _ k

  translate_event_lem :
      (ev : ClientEvent) (h : Handle) (es : List Event) (st : State)
      → Holds h es st
      → Holds h es (translate_event env s ev st).0
        × ((translate_event env s ev st).1
            ≡ (if is_wanted env s ev.kind then some (event_of env s ev) else none))
  unfolding translate_event
  translate_event_lem ev h es st (cb, old) = ground arith

  translate_all_lem :
      (evs : List ClientEvent) (h : Handle) (es : List Event) (st : State)
      → Holds h es st
      → Holds h es (translate_all env s evs st).0 × ((translate_all env s evs st).1 ≡ wanted evs)
  unfolding translate_all
  translate_all_lem [] h es st k = (k, refl)
  translate_all_lem (ev ∷ evs) h es st k =
      let (kept, e) = translate_event_lem ev h es st k in
      let (rest, same) = translate_all_lem evs h es (translate_event env s ev st).0 kept in
      (rest, ground (arith, e, same))

  -- Handed over or pending, together, in order.
  abbrev Sent : Handle → List Event → Session → State → Type 0
  Sent h es x st = (st.watch_typed_cb ≡ some h) × (delivered st.trace ++ x.pending ≡ es)

  flush-Sent :
      (h : Handle) (es : List Event) (x y : Session) (st : State)
      → Sent h es x st
      → y.pending ≡ []
      → Sent h es y (flush env s x.pending st)
  flush-Sent h es x y st (cb, old) empty =
      let (cb', new) = flush-Holds h (delivered st.trace) x.pending st (cb, refl) in
      (
        cb',
        ap (λ t. delivered (flush env s x.pending st).trace ++ t) empty
            ∙ (append-nil _ ∙ (new ∙ old)),
      )

  settle-Sent :
      (h : Handle) (es : List Event) (x : Session) (st : State)
      → Sent h es x st
      → Sent h es (settle env s x st).1 (settle env s x st).0
  unfolding settle
  settle-Sent h es x st k = ground (
    arith,
    flush-Sent h es x (record x { pending = []; armed = false }) st k refl,
    flush-Sent h es x (record x { pending = [] }) st k refl,
  )

  store_larger-Holds :
      (rev seen : ℕ) (h : Handle) (es : List Event) (st : State)
      → Holds h es st
      → Holds h es (store_larger env s rev seen st)
  unfolding store_larger
  store_larger-Holds rev seen h es st k = ground arith

  receive-Sent :
      (r : WatchResponse) (h : Handle) (es : List Event) (x : Session) (st : State)
      → Sent h es x st
      → Sent h (es ++ wanted r.events) (receive env s r x st).1 (receive env s r x st).0
  unfolding receive
  receive-Sent r h es x st (cb, old) =
      let stored = store_larger env s r.revision x.new_rev st in
      let (all_kept, same) =
        translate_all_lem r.events h (delivered st.trace) stored
          (store_larger-Holds r.revision x.new_rev h (delivered st.trace) st (cb, refl)) in
      settle-Sent h (es ++ wanted r.events) _ (translate_all env s r.events stored).0 (
        all_kept.0,
        ap (λ t. t ++ (x.pending ++ (translate_all env s r.events stored).1)) all_kept.1
            ∙ (ap (λ t. delivered st.trace ++ (x.pending ++ t)) same
                ∙ (sym (append_assoc (delivered st.trace) x.pending (wanted r.events))
                    ∙ ap (λ t. t ++ wanted r.events) old)),
      )

  fire-Sent :
      (h : Handle) (es : List Event) (x : Session) (st : State)
      → Sent h es x st
      → Sent h es (fire env s x st).1 (fire env s x st).0
  unfolding fire
  fire-Sent h es x st k =
      ground (arith, flush-Sent h es x (record x { pending = []; armed = false }) st k refl)

  -- Whatever the session receives, and however it ends: the batches handed to the typed callback,
  -- followed by what still waits for the debounce window, are the events that the responses
  -- brought and the filter lets through, each once and in order. A session that has ended has
  -- nothing left over. A callback that panics changes none of this.
  pub delivered-consume_watch :
      (is : List Input) (h : Handle) (es : List Event) (x : Session) (st : State)
      → st.watch_typed_cb ≡ some h
      → delivered st.trace ++ x.pending ≡ es
      → delivered (consume_watch env s is x st).0.trace ++ left_over (consume_watch env s is x st).1
        ≡ es ++ observed is
  unfolding consume_watch observed finish
  delivered-consume_watch [] h es x st cb old = old ∙ sym (append-nil es)
  delivered-consume_watch (ctx_done ∷ is) h es x st cb old =
      append-nil _
      ∙ ((flush-Holds h (delivered st.trace) x.pending st (cb, refl)).1
          ∙ (old ∙ sym (append-nil es)))
  delivered-consume_watch (channel_closed ∷ is) h es x st cb old =
      append-nil _
      ∙ ((flush-Holds h (delivered st.trace) x.pending st (cb, refl)).1
          ∙ (old ∙ sym (append-nil es)))
  delivered-consume_watch (response r ∷ is) h es x st cb old = elim (Option-cases r.failure) [
    | inl fine ↦
        let (cb', new) = receive-Sent r h es x st (cb, old) in
        rw (fine, consume_watch, observed)
          (delivered-consume_watch is h (es ++ wanted r.events) (receive env s r x st).1
              (receive env s r x st).0 cb' new
            ∙ append_assoc es (wanted r.events) (observed is))
    | inr (e, bad) ↦
        rw (bad, consume_watch, observed)
          (append-nil _
            ∙ ((flush-Holds h (delivered st.trace) x.pending st (cb, refl)).1
                ∙ (old ∙ sym (append-nil es))))
  ]
  delivered-consume_watch (timer_fired ∷ is) h es x st cb old =
      let (cb', new) = fire-Sent h es x st (cb, old) in
      delivered-consume_watch is h es (fire env s x st).1 (fire env s x st).0 cb' new
