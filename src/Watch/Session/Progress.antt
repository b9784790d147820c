-- ===== src/Watch/Session/Progress.antt =====
-- What a session reports: its revision, whether it made progress, why it ended; and how much it
-- holds back.
use koanf_etcd.Base.{
  ℕ, ◌<◌, max, Bool, true, false, not, ◌||◌, Option, none, some, List, [], ◌∷◌, ◌++◌, ◌≡◌, ◌⊎◌, inl,
  inr, refl, ◌∙◌, arith, Option-cases, is_some, if◌then◌else◌,
}
use koanf_etcd.Errors.{Error}
use koanf_etcd.Client.{ClientEvent, WatchResponse}
use koanf_etcd.Settings.{Settings}
use koanf_etcd.Provider.{State, Env, Event}
use koanf_etcd.Watch.{deliver_batch, translate_event}
use koanf_etcd.Watch.Session.{
  Input, ctx_done, channel_closed, response, timer_fired, Session, Outcome, waiting, ended, flush,
  translate_all, store_larger, see_revision, receive, settle, finish, fire, consume_watch,
}

-- The largest header revision, and whether there was a response, up to the end of the session.
abbrev pub largest : ℕ → List Input → ℕ
largest rev [] = rev
largest rev (ctx_done ∷ is) = rev
largest rev (channel_closed ∷ is) = rev
largest rev (response r ∷ is) = if is_some r.failure then rev else largest (max rev r.revision) is
largest rev (timer_fired ∷ is) = largest rev is

abbrev pub any_response : List Input → Bool
any_response [] = false
any_response (ctx_done ∷ is) = false
any_response (channel_closed ∷ is) = false
any_response (response r ∷ is) = not (is_some r.failure)
any_response (timer_fired ∷ is) = any_response is

-- What ends the session: the context, the channel, or the error of a response; `none` if none of
-- them has come.
abbrev pub ending : List Input → Option (Bool × Option Error)
ending [] = none
ending (ctx_done ∷ is) = some (true, none)
ending (channel_closed ∷ is) = some (false, none)
ending (response r ∷ is) = elim r.failure [ some e ↦ some (false, some e) | none ↦ ending is ]
ending (timer_fired ∷ is) = ending is

-- The stored revision is the session's once it has seen one, and before that the one that the
-- session found.
abbrev pub Tracks : ℕ → ℕ → State → Type 0
Tracks found rev st =
    ((rev ≡ 0) × (st.stats.revision ≡ found)) ⊎ ((0 < rev) × (st.stats.revision ≡ rev))

module _ {V : Type 0} (env : Env V) (s : Settings V) where
  pub deliver_batch-revision :
      (batch : List Event) (st : State)
      → (deliver_batch env s batch st).stats.revision ≡ st.stats.revision
  unfolding deliver_batch
  deliver_batch-revision batch st = ground arith

  flush-revision :
      (es : List Event) (st : State) → (flush env s es st).stats.revision ≡ st.stats.revision
  unfolding flush
  flush-revision [] st = refl
  flush-revision (e ∷ es) st = deliver_batch-revision (e ∷ es) _

  translate_event-revision :
      (ev : ClientEvent) (st : State)
      → (translate_event env s ev st).0.stats.revision ≡ st.stats.revision
  unfolding translate_event
  translate_event-revision ev st = ground arith

  translate_all-revision :
      (evs : List ClientEvent) (st : State)
      → (translate_all env s evs st).0.stats.revision ≡ st.stats.revision
  unfolding translate_all
  translate_all-revision [] st = refl
  translate_all-revision (ev ∷ evs) st =
      translate_all-revision evs (translate_event env s ev st).0 ∙ translate_event-revision ev st

  settle_lem :
      (x : Session) (st : State)
      → ((settle env s x st).1.new_rev ≡ x.new_rev)
        × ((settle env s x st).1.made_progress ≡ x.made_progress)
        × ((settle env s x st).0.stats.revision ≡ st.stats.revision)
  unfolding settle
  settle_lem x st = ground (arith, flush-revision x.pending st)

  receive_lem :
      (found : ℕ) (r : WatchResponse) (x : Session) (st : State)
      → Tracks found x.new_rev st
      → ((receive env s r x st).1.new_rev ≡ max x.new_rev r.revision)
        × ((receive env s r x st).1.made_progress ≡ true)
        × Tracks found (receive env s r x st).1.new_rev (receive env s r x st).0
  unfolding receive store_larger see_revision
  receive_lem found r x st k =
      let stored = store_larger env s r.revision x.new_rev st in
      let (st', es) = translate_all env s r.events stored in
      let y = see_revision env s r.revision x in
      let z = record y { pending = y.pending ++ es } in
      let (rev, progress, same) = settle_lem z st' in
      ground (arith, rev, progress, same, translate_all-revision r.events stored)

  fire_lem :
      (found : ℕ) (x : Session) (st : State)
      → Tracks found x.new_rev st
      → ((fire env s x st).1.new_rev ≡ x.new_rev)
        × ((fire env s x st).1.made_progress ≡ x.made_progress)
        × Tracks found (fire env s x st).1.new_rev (fire env s x st).0
  unfolding fire
  fire_lem found x st k = ground (arith, flush-revision x.pending st)

  -- What `consumeWatch` returns, with `found` the revision stored before the session.
  abbrev pub Reports : ℕ → List Input → Session → State × Outcome → Bool → Option Error → Type 0
  Reports found is x r drained e =
      (r.1 ≡ ended drained (largest x.new_rev is) (x.made_progress || any_response is) e)
      × Tracks found (largest x.new_rev is) r.0

  finish-Reports :
      (found : ℕ) (d : Bool) (e : Option Error) (x : Session) (st : State)
      → Tracks found x.new_rev st
      → ((finish env s d e x st).1 ≡ ended d x.new_rev (x.made_progress || false) e)
        × Tracks found x.new_rev (finish env s d e x st).0
  unfolding finish
  finish-Reports found d e x st k = ground (arith, flush-revision x.pending st)

  -- A session that the context, the channel or a response's error ends returns why it ended, the
  -- largest header revision that it saw and whether there was a response. It leaves the largest
  -- revision that it saw stored, also over a larger one, and what was stored if it saw none.
  pub consume_watch-Reports :
      (found : ℕ) (is : List Input) (x : Session) (st : State) (d : Bool) (e : Option Error)
      → Tracks found x.new_rev st
      → ending is ≡ some (d, e)
      → Reports found is x (consume_watch env s is x st) d e
  unfolding consume_watch
  consume_watch-Reports found [] x st d e k h = cc
  consume_watch-Reports found (ctx_done ∷ is) x st d e k h =
      ground (arith, finish-Reports found true none x st k)
  consume_watch-Reports found (channel_closed ∷ is) x st d e k h =
      ground (arith, finish-Reports found false none x st k)
  consume_watch-Reports found (response r ∷ is) x st d e k h = elim (Option-cases r.failure) [
    | inl fine ↦
        let y = (receive env s r x st).1 in
        let z = (receive env s r x st).0 in
        let (rev, progress, tracks) = receive_lem found r x st k in
        ground (arith, fine, rev, progress, consume_watch-Reports found is y z d e tracks)
    | inr (f, bad) ↦ ground (arith, bad, finish-Reports found false (some f) x st k)
  ]
  consume_watch-Reports found (timer_fired ∷ is) x st d e k h =
      let (rev, progress, tracks) = fire_lem found x st k in
      ground (
        arith,
        rev,
        progress,
        consume_watch-Reports found is (fire env s x st).1 (fire env s x st).0 d e tracks h,
      )

  -- A session that nothing ends waits for the next input.
  pub consume_watch-waits :
      (is : List Input) (x : Session) (st : State)
      → ending is ≡ none
      → (y : Session) × ((consume_watch env s is x st).1 ≡ waiting y)
  unfolding consume_watch
  consume_watch-waits [] x st h = (x, refl)
  consume_watch-waits (ctx_done ∷ is) x st h = ground arith
  consume_watch-waits (channel_closed ∷ is) x st h = ground arith
  consume_watch-waits (response r ∷ is) x st h = elim (Option-cases r.failure) [
    | inl fine ↦
        let (y, same) =
          consume_watch-waits is (receive env s r x st).1 (receive env s r x st).0 (ground arith) in
        (y, ground (arith, same))
    | inr (f, bad) ↦ ground arith
  ]
  consume_watch-waits (timer_fired ∷ is) x st h =
      consume_watch-waits is (fire env s x st).1 (fire env s x st).0 h
