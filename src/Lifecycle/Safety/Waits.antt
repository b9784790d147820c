-- ===== src/Lifecycle/Safety/Waits.antt =====
-- etcd.go, Close: what it waits for comes.
use koanf_etcd.Base.{
  ℕ, ◌≤◌, Bool, true, false, none, some, List, [], ◌∷◌, ◌++◌, All, All-map, All-around, All-without,
  All-at, ◌≡◌, ◌⊎◌, inl, inr, ap, subst, ◌∙◌, arith, if◌then◌else◌, Bool-cases,
}
use koanf_etcd.Errors.{Error, Result, err, sentinel, closed}
use koanf_etcd.Settings.{Settings, Handle}
use koanf_etcd.Provider.{State, Env}
use koanf_etcd.Watch.Loop.{signal_watch_done, clear_watch_state}
use koanf_etcd.Lifecycle.{start, watch, watch_typed, close_once, cancel_watch, close_client}
use koanf_etcd.Lifecycle.Steps.{
  Running, Closing, cancelling, waiting_for, closing, System, spawn, started, begun, closings, Step,
  calls_watch, calls_watch_typed, works, signals, clears, calls_close, cancels, stops_waiting,
  closes_client, Reaches, made, then_steps,
}
use koanf_etcd.Lifecycle.Safety.{IsNew, IsSafe, OneLoop, OneClose, loops-single}
use koanf_etcd.Lifecycle.Safety.Loops.{signal_lem}
use koanf_etcd.Lifecycle.Safety.Closers.{cancel_watch_lem, close_client_lem}
use koanf_etcd.Lifecycle.Safety.Reached.{Reaches-IsSafe}

-- The channel is closed, or the one loop that runs is its own and has yet to close it.
abbrev pub Comes : Handle → List Running → State → Type 0
Comes h rs st = (1 ≤ closings h st.trace) ⊎ (rs ≡ record { id = h; signalled = false } ∷ [])

abbrev Awaits : List Running → State → Closing → Type 0
Awaits rs st cancelling = Unit
Awaits rs st (waiting_for none) = Unit
Awaits rs st (waiting_for (some h)) = Comes h rs st
Awaits rs st closing = Unit

abbrev AllAwait : System → Type 0
AllAwait y = All (Awaits y.loops y.state) y.closers

Awaits-map :
    (rs ts : List Running) (a b : State)
    → ((h : Handle) → Comes h rs a → Comes h ts b)
    → (c : Closing) → Awaits rs a c
    → Awaits ts b c
Awaits-map rs ts a b f cancelling k = tt
Awaits-map rs ts a b f (waiting_for none) k = tt
Awaits-map rs ts a b f (waiting_for (some h)) k = f h k
Awaits-map rs ts a b f closing k = tt

-- As long as the loops stay, a channel that is closed stays closed.
Comes-kept :
    (h : Handle) (rs : List Running) (a b : State)
    → closings h a.trace ≤ closings h b.trace
    → Comes h rs a
    → Comes h rs b
Comes-kept h rs a b le k = ground arith

-- A Watch is refused while a Close is under way.
calls-Awaits :
    (owns : Bool) (y : System) (st : State) (r : Result (Unit {0}))
    → OneClose owns y.closers y.state
    → (y.state.closed ≡ true → (e : Error) × (st ≡ y.state) × (r ≡ err e))
    → AllAwait y
    → AllAwait (started y (st, r))
calls-Awaits owns y st r one refused k = go y.closers one k
  where
    go :
        (cs : List Closing)
        → OneClose owns cs y.state
        → All (Awaits y.loops y.state) cs
        → All (Awaits (spawn y.next_id r y.loops) st) cs
    go [] one k = tt
    go (c ∷ []) (shut, none_yet) k = let (e, same, failed) = refused shut in rw (same, failed) k
    go (c ∷ d ∷ cs) one k = absurd one

start_refused :
    (install : State → State) (id : Handle) (st : State)
    → st.closed ≡ true
    → (e : Error) × ((start install id st).0 ≡ st) × ((start install id st).1 ≡ err e)
unfolding start
start_refused install id st shut = (sentinel closed, ground arith, ground arith)

begun-AllAwait :
    (b : Bool) (y : System)
    → AllAwait y
    → AllAwait
        (begun y (if b then (y.state, false) else (record (y.state) { closed = true }, true)))
begun-AllAwait true y w = w
begun-AllAwait false y w =
    let a = record (y.state) { closed = true } in
    (
      tt,
      All-map y.closers
          (Awaits-map y.loops y.loops y.state a (λ h. Comes-kept h y.loops y.state a (omega arith)))
          w,
    )

module _ {V : Type 0} (env : Env V) (s : Settings V) (owns : Bool) (client : Handle) where
  -- The loop that signals is the one that is waited for, if one is.
  signals-Comes :
      (y : System) (rs ts : List Running) (id h : Handle)
      → y.loops ≡ rs ++ record { id = id; signalled = false } ∷ ts
      → OneLoop y.next_id y.loops y.state
      → Comes h y.loops y.state
      → Comes h
          (rs ++ record { id = id; signalled = true } ∷ ts)
          (signal_watch_done env s y.state.watch_done y.state)
  signals-Comes y rs ts id h here one k =
      let ((own, cancel, old, unclosed), put_back, removed) =
        loops-single y.next_id rs ts (record { id = id; signalled = false }) y.state
          (subst (λ l. OneLoop y.next_id l y.state) here one) in
      let counted = (signal_lem env s owns id h y.state own).3 in
      elim k [
        | inl before ↦ inl (omega (arith, counted))
        | inr alone ↦
            let (own', _, _, _) = subst (λ l. OneLoop y.next_id l y.state) alone one in
            inl (ground (arith, counted, own, own'))
      ]

  clears-Comes :
      (y : System) (rs ts : List Running) (id h : Handle)
      → y.loops ≡ rs ++ record { id = id; signalled = true } ∷ ts
      → OneLoop y.next_id y.loops y.state
      → Comes h y.loops y.state
      → Comes h (rs ++ ts) (clear_watch_state env s y.state)
  unfolding clear_watch_state
  clears-Comes y rs ts id h here one k =
      let ((own, cancel, old, counted), put_back, removed) =
        loops-single y.next_id rs ts (record { id = id; signalled = true }) y.state
          (subst (λ l. OneLoop y.next_id l y.state) here one) in
      elim k [
        | inl before ↦ inl before
        | inr alone ↦
            let (own', _, _, unclosed) = subst (λ l. OneLoop y.next_id l y.state) alone one in
            absurd (ground (arith, counted, unclosed, own, own'))
      ]

  cancel_watch_done : (st : State) → (cancel_watch st).1 ≡ st.watch_done
  unfolding cancel_watch
  cancel_watch_done st = ground arith

  -- What Close finds in the slot.
  cancel_watch-Awaits :
      (next : ℕ) (rs : List Running) (st : State)
      → OneLoop next rs st
      → Awaits rs (cancel_watch st).0 (waiting_for (cancel_watch st).1)
  cancel_watch-Awaits next [] st (_, _, _, done) = rw (cancel_watch_done st ∙ done) tt
  cancel_watch-Awaits next (r ∷ []) st (done, _, _, counted) =
      rw (cancel_watch_done st ∙ done) (elim (Bool-cases r.signalled) [
        | inl past ↦ inl (ground (arith, counted, (cancel_watch_lem st r.id).1))
        | inr yet ↦ inr (ap (λ b. record { id = r.id; signalled = b } ∷ []) yet)
      ])
  cancel_watch-Awaits next (r ∷ t ∷ rs) st one = absurd one

  Step-AllAwait :
      (y z : System) → IsSafe owns y → Step env s owns client y z → AllAwait y → AllAwait z
  unfolding watch watch_typed close_once close_client
  Step-AllAwait y _ k (calls_watch cb) w =
      let x = watch cb y.next_id y.state in
      calls-Awaits owns y x.0 x.1 k.one_close
        (start_refused (λ st. record st { watch_cb = some cb }) y.next_id y.state) w
  Step-AllAwait y _ k (calls_watch_typed none cb) w =
      let x = watch_typed none cb y.next_id y.state in
      calls-Awaits owns y x.0 x.1 k.one_close
        (start_refused (λ st. record st { watch_typed_cb = some cb }) y.next_id y.state) w
  Step-AllAwait y _ k (calls_watch_typed (some e) cb) w = w
  Step-AllAwait y _ k (works st v) w =
      All-map y.closers
        (Awaits-map y.loops y.loops y.state st
          (λ h. Comes-kept h y.loops y.state st (omega (arith, v.same_closings h))))
        w
  Step-AllAwait y _ k (signals rs ts id here) w =
      All-map y.closers
        (Awaits-map y.loops (rs ++ record { id = id; signalled = true } ∷ ts) y.state
          (signal_watch_done env s y.state.watch_done y.state)
          (λ h. signals-Comes y rs ts id h here k.one_loop))
        w
  Step-AllAwait y _ k (clears rs ts id here) w =
      All-map y.closers
        (Awaits-map y.loops (rs ++ ts) y.state (clear_watch_state env s y.state)
          (λ h. clears-Comes y rs ts id h here k.one_loop))
        w
  Step-AllAwait y _ k calls_close w = begun-AllAwait y.state.closed y w
  Step-AllAwait y _ k (cancels cs ds here) w =
      let a = (cancel_watch y.state).0 in
      let kept =
        All-map y.closers
          (Awaits-map y.loops y.loops y.state a
            (λ h. Comes-kept h y.loops y.state a (omega (arith, (cancel_watch_lem y.state h).1))))
          w in
      All-around (Awaits y.loops a) cs ds cancelling _
        (cancel_watch-Awaits y.next_id y.loops y.state k.one_loop)
        (subst (All (Awaits y.loops a)) here kept)
  Step-AllAwait y _ k (stops_waiting cs ds done here because) w =
      All-around (Awaits y.loops y.state) cs ds (waiting_for done) closing tt
        (subst (All (Awaits y.loops y.state)) here w)
  Step-AllAwait y _ k (closes_client cs ds here) w =
      let a = close_client owns client y.state in
      let kept =
        All-map y.closers
          (Awaits-map y.loops y.loops y.state a (λ h.
            Comes-kept h y.loops y.state a
              (omega (arith, (close_client_lem owns client h y.state).1))))
          w in
      All-without (Awaits y.loops a) cs ds closing (subst (All (Awaits y.loops a)) here kept)

  Reaches-AllAwait :
      (st : State) (y : System) → IsNew st → Reaches env s owns client st y → AllAwait y
  Reaches-AllAwait st _ new_one made = tt
  Reaches-AllAwait st _ new_one (then_steps {y} path step) =
      Step-AllAwait y _ (Reaches-IsSafe env s owns client st y new_one path) step
        (Reaches-AllAwait st y new_one path)

  -- A Close that waits for a done channel does not wait in vain, whatever the interleaving from a
  -- provider that `New` has made: the channel is closed already, or the one loop that runs is the
  -- one that will close it.
  pub Reaches-Comes :
      (st : State) (y : System) (cs ds : List Closing) (h : Handle)
      → IsNew st
      → Reaches env s owns client st y
      → y.closers ≡ cs ++ waiting_for (some h) ∷ ds
      → Comes h y.loops y.state
  Reaches-Comes st y cs ds h new_one path here =
      All-at (Awaits y.loops y.state) cs ds (waiting_for (some h))
        (subst (All (Awaits y.loops y.state)) here (Reaches-AllAwait st y new_one path))
