-- ===== src/Watch/Session/Bounds.antt =====
-- How many events a session holds back.
use koanf_etcd.Base.{
  ◌<◌, true, false, List, [], ◌∷◌, length, ◌≡◌, ◌⊎◌, inl, inr, subst, arith, Option-cases,
}
use koanf_etcd.Base.Int.{pos_part, is_pos}
use koanf_etcd.Client.{WatchResponse}
use koanf_etcd.Settings.{Settings}
use koanf_etcd.Provider.{State, Env}
use koanf_etcd.Watch.Session.{
  Input, ctx_done, channel_closed, response, timer_fired, Session, waiting, receive, settle,
  is_full, finish, fire, consume_watch,
}

waiting-injective : {x y : Session} → waiting x ≡ waiting y → x ≡ y
waiting-injective h = cc

module _ {V : Type 0} (env : Env V) (s : Settings V) where
  -- Below the cap, if there is one; and nothing is held back without a debounce window.
  pub record IsBounded (x : Session) : Type 0 where
    pub capped :
        (is_pos s.max_pending_events ≡ false) ⊎ (length x.pending < pos_part s.max_pending_events)
    pub prompt : (is_pos s.debounce ≡ true) ⊎ (x.pending ≡ [])

  settle-IsBounded : (x : Session) (st : State) → IsBounded (settle env s x st).1
  unfolding settle is_full
  settle-IsBounded x st = record { capped = ground arith; prompt = ground arith }

  fire-IsBounded : (x : Session) (st : State) → IsBounded x → IsBounded (fire env s x st).1
  unfolding fire
  fire-IsBounded x st k = record { capped = ground arith; prompt = ground arith }

  receive-IsBounded :
      (r : WatchResponse) (x : Session) (st : State) → IsBounded (receive env s r x st).1
  unfolding receive
  receive-IsBounded r x st = settle-IsBounded _ _

  -- After any sequence of inputs, a session that waits for the next one holds fewer events than
  -- WithMaxPendingEvents allows, and none at all without a debounce window.
  pub consume_watch-IsBounded :
      (is : List Input) (x : Session) (st : State) (y : Session)
      → IsBounded x
      → (consume_watch env s is x st).1 ≡ waiting y
      → IsBounded y
  unfolding consume_watch finish
  consume_watch-IsBounded [] x st y k h = subst IsBounded (waiting-injective h) k
  consume_watch-IsBounded (ctx_done ∷ is) x st y k h = cc
  consume_watch-IsBounded (channel_closed ∷ is) x st y k h = cc
  consume_watch-IsBounded (response r ∷ is) x st y k h = elim (Option-cases r.failure) [
    | inl fine ↦
        consume_watch-IsBounded is (receive env s r x st).1 (receive env s r x st).0 y
          (receive-IsBounded r x st) (rw (fine, consume_watch) at h)
    | inr (e, bad) ↦ ground (arith, bad)
  ]
  consume_watch-IsBounded (timer_fired ∷ is) x st y k h =
      consume_watch-IsBounded is (fire env s x st).1 (fire env s x st).0 y (fire-IsBounded x st k) h
