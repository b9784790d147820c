-- ===== src/Watch/Loop/Cover/Ended.antt =====
-- What reaches the typed callback when a session has ended, or still waits.
use koanf_etcd.Base.{
  none, ◌⊎◌, ℕ, ◌+◌, ltb, Bool, true, false, Option, List, ◌++◌, append-nil, Option-cases, ◌≡◌, inl,
  inr, refl, sym, ap, subst, ◌∙◌, arith, if◌then◌else◌,
}
use koanf_etcd.Errors.{Error}
use koanf_etcd.Client.{ClientEvent}
use koanf_etcd.Settings.{Settings, Handle}
use koanf_etcd.Provider.{State, Env, Event}
use koanf_etcd.Watch.History.{reached}
use koanf_etcd.Watch.Served.{IsServed, due, observed-due}
use koanf_etcd.Watch.Session.{Session, fresh, Outcome, waiting, ended, consume_watch}
use koanf_etcd.Watch.Session.Effects.{consume_watch-Quiet}
use koanf_etcd.Watch.Session.Delivery.{delivered, left_over, delivered-consume_watch}
use koanf_etcd.Watch.Session.Progress.{ending, consume_watch-Reports, consume_watch-waits}
use koanf_etcd.Watch.Loop.{Loop, Round, Next, after_session, settled}
use koanf_etcd.Watch.Loop.Rounds.{opened}
use koanf_etcd.Watch.Loop.Replay.{IsWatching}
use koanf_etcd.Watch.Loop.Handed.{fire_if_failed-IsHanded, try_handle_compaction-IsResynced}
use koanf_etcd.Watch.Loop.Cover.{
  Covers, follows, IsCovered, EndsCovered, after_handling-EndsCovered,
}

module _ {V : Type 0} (env : Env V) (s : Settings V) (changes : List ClientEvent) where
  module _ (h : Handle) (c : Bool) (first : ℕ) (old : List Event) where
    abbrev Ends : ℕ → State × Next → Type 0
    Ends = EndsCovered env s changes h c first old

    abbrev IsUpTo : ℕ → List Event → State → Type 0
    IsUpTo = IsCovered env s changes h c first old

    abbrev Reaches : ℕ → List Event → Type 0
    Reaches = Covers env s changes first old

    after_session-EndsCovered :
        (r : Round) (d p : Bool) (seen to : ℕ) (es : List Event) (e : Option Error) (l : Loop)
        (x : State × Outcome)
        → x.1 ≡ ended d seen p e
        → IsUpTo to es x.0
        → (if ltb 0 seen then seen + 1 else l.start_rev) ≡ to
        → Ends to (after_session env s r l x)
    unfolding after_session
    after_session-EndsCovered r d true seen to es e l (st, o) ends (k, p, v) n =
        let k' =
          try_handle_compaction-IsResynced env s h c es e _
            (fire_if_failed-IsHanded env s h c es l st k) in
        rw ends (
          after_handling-EndsCovered env s changes h c first old r d seen to es e (settled l) _ k' p
            v n)
    after_session-EndsCovered r d false seen to es e l (st, o) ends (k, p, v) n =
        let k' = try_handle_compaction-IsResynced env s h c es e st k in
        rw ends
          (after_handling-EndsCovered env s changes h c first old r d seen to es e l _ k' p v n)

    waiting-EndsCovered :
        (r : Round) (to : ℕ) (rest : List Event) (l : Loop) (x : State × Outcome)
        → ((y : Session) × (x.1 ≡ waiting y) × (y.pending ≡ rest))
        → Reaches to (delivered x.0.trace ++ rest)
        → Ends to (after_session env s r l x)
    unfolding after_session
    waiting-EndsCovered r to rest l (st, o) (y, waits, same) v = rw waits (rest, v)

    -- A session from where the callback's events end.
    pub session-EndsCovered :
        (r : Round) (to : ℕ) (es : List Event) (l : Loop) (st : State)
        → IsWatching env s changes
        → IsCovered env s changes h c first old l.start_rev es st
        → IsServed env s changes l.start_rev to r.inputs
        → (ending r.inputs ≡ none) ⊎ (to ≡ reached l.start_rev r.inputs)
        → EndsCovered env s changes h c first old to
            (after_session env s r l (consume_watch env s r.inputs fresh (opened env s l st)))
    session-EndsCovered r to es l st w (k, p, v) served whole =
        let x = consume_watch env s r.inputs fresh (opened env s l st) in
        let (le, ahead, seen) =
          observed-due env s changes l.start_rev to r.inputs w.mode w.key_bytes served in
        let all : delivered x.0.trace ++ left_over env s x.1
            ≡ es ++ due env s l.start_rev to changes =
          delivered-consume_watch env s r.inputs h es fresh (opened env s l st) k.typed_cb
            (append-nil _ ∙ k.handed)
          ∙ ap (λ t. es ++ t) seen in
        let covers : Reaches to (es ++ due env s l.start_rev to changes) = follows to le v in
        let quiet = consume_watch-Quiet env s r.inputs fresh (opened env s l st) in
        elim (Option-cases (ending r.inputs)) [
          | inl open_yet ↦
              let (y, waits) =
                consume_watch-waits env s r.inputs fresh (opened env s l st) open_yet in
              waiting-EndsCovered r to y.pending l x (y, waits, refl)
                (subst (Reaches to)
                  (sym (ap (λ o. delivered x.0.trace ++ left_over env s o) (sym waits) ∙ all))
                  covers)
          | inr ((d, e), ends) ↦
              let (o, tracks) =
                consume_watch-Reports env s st.stats.revision r.inputs fresh (opened env s l st) d e
                  (inl (refl, refl)) ends in
              let handed : delivered x.0.trace ≡ es ++ due env s l.start_rev to changes =
                sym (append-nil _)
                ∙ (ap (λ o. delivered x.0.trace ++ left_over env s o) (sym o) ∙ all) in
              let next : reached l.start_rev r.inputs ≡ to = ground (arith, whole, ends) in
              after_session-EndsCovered r d _ _ to _ e l x o
                (
                  record {
                    typed_cb = quiet.same_typed_cb ∙ k.typed_cb;
                    handed = handed;
                    same_closed = quiet.same_closed ∙ k.same_closed;
                  },
                  omega (arith, le, p),
                  covers,
                )
                next
        ]
