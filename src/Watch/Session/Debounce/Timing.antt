-- ===== src/Watch/Session/Debounce/Timing.antt =====
-- The debounce timer: when its tick can be received.
use koanf_etcd.Base.{
  ℕ, ◌+◌, ◌≤◌, ◌<◌, Bool, true, false, Option, none, some, List, [], ◌∷◌, leb, ◌≡◌, ◌⊎◌, inl, inr,
  refl, sym, ap, ◌∙◌, arith, Option-cases, if◌then◌else◌,
}
use koanf_etcd.Base.Int.{pos_part, is_pos}
use koanf_etcd.Client.{WatchResponse}
use koanf_etcd.Settings.{Settings}
use koanf_etcd.Provider.{State, Env}
use koanf_etcd.Watch.Session.{
  Input, ctx_done, channel_closed, response, timer_fired, Session, Outcome, fresh, settle, receive,
  fire, consume_watch,
}
use koanf_etcd.Watch.Session.Debounce.{
  Timer, elapse, elapsed, stop_debounce, arm_debounce, gathered, settle_timer, receive_tick,
  consume_timed,
}

-- No input comes before the one in front of it.
abbrev pub IsChronological : ℕ → List (ℕ × Input) → Type 0
IsChronological now [] = Unit
IsChronological now ((at, i) ∷ is) = (now ≤ at) × IsChronological at is

-- The inputs without the times, and without the tries of the timer that come before the window has
-- passed since the last response.
abbrev pub on_time : ℕ → ℕ → List (ℕ × Input) → List Input
on_time window last [] = []
on_time window last ((at, ctx_done) ∷ is) = ctx_done ∷ on_time window last is
on_time window last ((at, channel_closed) ∷ is) = channel_closed ∷ on_time window last is
on_time window last ((at, response r) ∷ is) = response r ∷ on_time window at is
on_time window last ((at, timer_fired) ∷ is) =
    if leb (last + window) at then timer_fired ∷ on_time window last is else on_time window last is

-- Not active, and without a tick.
abbrev IsQuiet : Option Timer → Type 0
IsQuiet none = Unit
IsQuiet (some t) = (t.due ≡ none) × (t.tick ≡ false)

-- Active until `to`, without a tick.
abbrev IsRunning : ℕ → Option Timer → Type 0
IsRunning to none = ⊥
IsRunning to (some t) = (t.due ≡ some to) × (t.tick ≡ false)

-- No longer active, with a tick.
abbrev IsFired : Option Timer → Type 0
IsFired none = ⊥
IsFired (some t) = (t.due ≡ none) × (t.tick ≡ true)

module _ {V : Type 0} (env : Env V) (s : Settings V) where
  -- The timer of a session whose last response came at the time `last`, at the time `now`.
  abbrev IsTimed : ℕ → ℕ → Session → Option Timer → Type 0
  IsTimed last now x t =
      ((x.armed ≡ false) × IsQuiet t)
      ⊎ ((x.armed ≡ true)
          × (is_pos s.debounce ≡ true)
          × (IsRunning (last + pos_part s.debounce) t
              ⊎ (IsFired t × (last + pos_part s.debounce ≤ now))))

  -- The same, with the timer up to date.
  abbrev IsCurrent : ℕ → ℕ → Session → Option Timer → Type 0
  IsCurrent last now x t =
      ((x.armed ≡ false) × IsQuiet t)
      ⊎ ((x.armed ≡ true)
          × (is_pos s.debounce ≡ true)
          × ((IsRunning (last + pos_part s.debounce) t × (now < last + pos_part s.debounce))
              ⊎ (IsFired t × (last + pos_part s.debounce ≤ now))))

  elapsed-IsCurrent :
      (last now at : ℕ) (x : Session) (t : Option Timer)
      → now ≤ at
      → IsTimed last now x t
      → IsCurrent last at x (elapsed at t)
  unfolding elapse
  elapsed-IsCurrent last now at x none le h = ground arith
  elapsed-IsCurrent last now at x (some t) le h = ground arith

  settle_timer-IsTimed :
      (last at : ℕ) (x : Session) (t : Option Timer) (st : State)
      → IsCurrent last at x t
      → IsTimed at at (settle env s x st).1 (settle_timer env s at x t)
  unfolding settle settle_timer stop_debounce arm_debounce
  settle_timer-IsTimed last at x none st h = ground arith
  settle_timer-IsTimed last at x (some t) st h = ground arith

  receive-IsTimed :
      (last at : ℕ) (r : WatchResponse) (x : Session) (t : Option Timer) (st : State)
      → IsCurrent last at x t
      → IsTimed at at (receive env s r x st).1 (settle_timer env s at (gathered env s r x st) t)
  unfolding receive gathered
  receive-IsTimed last at r x t st h = settle_timer-IsTimed last at (gathered env s r x st) t _ h

  -- A tick is there once the window has passed.
  receive_tick_lem :
      (last at : ℕ) (x : Session) (t : Option Timer) (st : State)
      → IsCurrent last at x t
      → let (t', (st', y)) = receive_tick env s t x st in
        IsTimed last at y t'
        × ((st', y) ≡ (if leb (last + pos_part s.debounce) at then fire env s x st else (st, x)))
  unfolding receive_tick fire
  receive_tick_lem last at x none st h = ground arith
  receive_tick_lem last at x (some t) st h = ground arith

  abbrev resumes : List Input → State × Session → State × Outcome
  resumes is (st, x) = consume_watch env s is x st

  consume_watch-tried :
      (t : Bool) (is : List Input) (x : Session) (st : State)
      → consume_watch env s (if t then timer_fired ∷ is else is) x st
        ≡ resumes is (if t then fire env s x st else (st, x))
  unfolding consume_watch
  consume_watch-tried true is x st = refl
  consume_watch-tried false is x st = refl

  consume_timed_lem :
      (is : List (ℕ × Input)) (last now : ℕ) (t : Option Timer) (x : Session) (st : State)
      → IsChronological now is
      → IsTimed last now x t
      → consume_timed env s is t x st
        ≡ consume_watch env s (on_time (pos_part s.debounce) last is) x st
  unfolding consume_timed consume_watch
  consume_timed_lem [] last now t x st c h = refl
  consume_timed_lem ((at, ctx_done) ∷ is) last now t x st c h = refl
  consume_timed_lem ((at, channel_closed) ∷ is) last now t x st c h = refl
  consume_timed_lem ((at, response r) ∷ is) last now t x st (le, c) h =
      elim (Option-cases r.failure) [
        | inl fine ↦
            rw (fine, consume_timed, consume_watch)
              (consume_timed_lem is at at _ (receive env s r x st).1 (receive env s r x st).0 c (
                receive-IsTimed last at r x (elapsed at t) st
                  (elapsed-IsCurrent last now at x t le h)))
        | inr (e, bad) ↦ rw (bad, consume_timed, consume_watch) refl
      ]
  consume_timed_lem ((at, timer_fired) ∷ is) last now t x st (le, c) h =
      let (timed, same) =
        receive_tick_lem last at x (elapsed at t) st (elapsed-IsCurrent last now at x t le h) in
      let y = receive_tick env s (elapsed at t) x st in
      consume_timed_lem is last at y.0 y.1.1 y.1.0 c timed
      ∙ (ap (resumes (on_time (pos_part s.debounce) last is)) same
          ∙ sym (consume_watch-tried (leb (last + pos_part s.debounce) at) _ x st))

-- The timer is taken exactly when the debounce window has passed since the last response, and no
-- tick of an earlier window is left: whatever the times at which inputs come, and also where the
-- timer has fired but the session takes another response first, a session with its timer does the
-- same as one that is given each try of the timer from that time on, and none before.
pub consume_timed-consume_watch :
    {V : Type 0} (env : Env V) (s : Settings V) (is : List (ℕ × Input)) (st : State)
    → IsChronological 0 is
    → consume_timed env s is none fresh st
      ≡ consume_watch env s (on_time (pos_part s.debounce) 0 is) fresh st
consume_timed-consume_watch env s is st c =
    consume_timed_lem env s is 0 0 none fresh st c (inl (refl, tt))
