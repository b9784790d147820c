-- ===== src/Lifecycle/Safety/Loops.antt =====
-- What a loop does keeps the invariant.
use koanf_etcd.Base.{
  ℕ, ◌+◌, ◌==◌, ◌≤◌, Bool, true, false, some, List, [], ◌∷◌, ◌++◌, ◌≡◌, refl, subst, arith,
  if◌then◌else◌,
}
use koanf_etcd.Settings.{Settings, Handle}
use koanf_etcd.Provider.{State, Env, Effect}
use koanf_etcd.Watch.Loop.{signal_watch_done, clear_watch_state}
use koanf_etcd.Lifecycle.Steps.{Running, Closing, System, closings, client_closings, Works}
use koanf_etcd.Lifecycle.Safety.{OneLoop, OneClose, IsSafe, loops-single, same-OneClose}

OneLoop-Works :
    (n : ℕ) (rs : List Running) (a b : State) → Works a b → OneLoop n rs a → OneLoop n rs b
OneLoop-Works n [] a b w k = ground arith
OneLoop-Works n (r ∷ []) a b w k = ground (arith, w.same_closings r.id)
OneLoop-Works n (r ∷ t ∷ rs) a b w k = absurd k

OneClose-Works :
    (owns : Bool) (cs : List Closing) (a b : State)
    → Works a b
    → OneClose owns cs a
    → OneClose owns cs b
OneClose-Works owns [] a b w k = ground arith
OneClose-Works owns (c ∷ []) a b w k = ground arith
OneClose-Works owns (c ∷ d ∷ cs) a b w k = absurd k

pub Works-IsSafe :
    (owns : Bool) (y : System) (st : State)
    → Works y.state st
    → IsSafe owns y
    → IsSafe owns (record y { state = st })
Works-IsSafe owns y st w k = record {
  one_loop = OneLoop-Works y.next_id y.loops y.state st w k.one_loop;
  one_close = OneClose-Works owns y.closers y.state st w k.one_close;
  closed_once = λ h. ground (arith, w.same_closings h, k.closed_once h);
  not_yet = λ h later. ground (arith, w.same_closings h, k.not_yet h later);
}

one_more :
    (id h : Handle) (t : List Effect)
    → closings id t ≡ 0
    → closings h t ≤ 1
    → (if id == h then 1 else 0) + closings h t ≤ 1
one_more id h t none_yet most = ground arith

module _ {V : Type 0} (env : Env V) (s : Settings V) (owns : Bool) where
  pub signal_lem :
      (id h : Handle) (st : State)
      → st.watch_done ≡ some id
      → let b = signal_watch_done env s st.watch_done st in
        (b.watch_done ≡ st.watch_done)
        × (b.watch_cancel ≡ st.watch_cancel)
        × (b.closed ≡ st.closed)
        × (closings h b.trace ≡ (if id == h then 1 else 0) + closings h st.trace)
        × (client_closings b.trace ≡ client_closings st.trace)
  unfolding signal_watch_done
  signal_lem id h st own = rw own (refl, refl, refl, refl, refl)

  pub signals-IsSafe :
      (y : System) (rs ts : List Running) (id : Handle)
      → y.loops ≡ rs ++ record { id = id; signalled = false } ∷ ts
      → IsSafe owns y
      → IsSafe owns (record y {
        state = signal_watch_done env s y.state.watch_done y.state;
        loops = rs ++ record { id = id; signalled = true } ∷ ts;
      })
  signals-IsSafe y rs ts id here k =
      let one = subst (λ l. OneLoop y.next_id l y.state) here k.one_loop in
      let ((own, cancel, old, unclosed), put_back, removed) =
        loops-single y.next_id rs ts (record { id = id; signalled = false }) y.state one in
      let (kept, same_cancel, same_closed, counted, same_client) = signal_lem id id y.state own in
      record {
        one_loop =
            put_back (record { id = id; signalled = true }) _
              (ground (arith, own, cancel, old, unclosed, kept, same_cancel, same_closed, counted));
        one_close = same-OneClose owns y.closers y.state _ same_closed same_client k.one_close;
        closed_once = λ h. ground (
          arith,
          (signal_lem id h y.state own).3,
          one_more id h y.state.trace unclosed (k.closed_once h),
        );
        not_yet =
            λ h later. ground (arith, (signal_lem id h y.state own).3, k.not_yet h later, old);
      }

  pub clears-IsSafe :
      (y : System) (rs ts : List Running) (id : Handle)
      → y.loops ≡ rs ++ record { id = id; signalled = true } ∷ ts
      → IsSafe owns y
      → IsSafe owns (record y { state = clear_watch_state env s y.state; loops = rs ++ ts })
  unfolding clear_watch_state
  clears-IsSafe y rs ts id here k =
      let one = subst (λ l. OneLoop y.next_id l y.state) here k.one_loop in
      let (alone, put_back, removed) =
        loops-single y.next_id rs ts (record { id = id; signalled = true }) y.state one in
      record {
        one_loop = removed _ (refl, refl, refl, refl);
        one_close = same-OneClose owns y.closers y.state _ refl refl k.one_close;
        closed_once = k.closed_once;
        not_yet = k.not_yet;
      }
