-- ===== src/Lifecycle/Safety/Closers.antt =====
-- What Close does keeps the invariant.
use koanf_etcd.Base.{
  ℕ, ◌+◌, Bool, true, false, Option, List, [], ◌∷◌, ◌++◌, ◌≡◌, inr, refl, subst, ◌∙◌, arith,
  if◌then◌else◌,
}
use koanf_etcd.Settings.{Handle}
use koanf_etcd.Provider.{State}
use koanf_etcd.Lifecycle.{close_once, cancel_watch, close_client}
use koanf_etcd.Lifecycle.Steps.{
  Running, Closing, cancelling, waiting_for, closing, System, begun, closings, client_closings,
}
use koanf_etcd.Lifecycle.Safety.{OneLoop, OneClose, IsSafe, closers-single}

-- The parts of a state that Close changes.
close_once-OneLoop :
    (n : ℕ) (rs : List Running) (st : State) → OneLoop n rs st → OneLoop n rs (close_once st).0
unfolding close_once
close_once-OneLoop n [] st k = ground arith
close_once-OneLoop n (r ∷ []) st k = ground arith
close_once-OneLoop n (r ∷ t ∷ rs) st k = absurd k

begun-OneClose :
    (owns : Bool) (cs : List Closing) (st : State)
    → st.closed ≡ false
    → OneClose owns cs st
    → OneClose owns (cancelling ∷ cs) (record st { closed = true })
begun-OneClose owns [] st open_yet k = ground arith
begun-OneClose owns (c ∷ []) st open_yet k = ground arith
begun-OneClose owns (c ∷ d ∷ cs) st open_yet k = absurd k

shut-OneLoop :
    (n : ℕ) (rs : List Running) (st : State)
    → OneLoop n rs st
    → OneLoop n rs (record st { closed = true })
shut-OneLoop n [] st k = ground arith
shut-OneLoop n (r ∷ []) st k = ground arith
shut-OneLoop n (r ∷ t ∷ rs) st k = absurd k

begun_if-IsSafe :
    (owns b : Bool) (y : System)
    → y.state.closed ≡ b
    → IsSafe owns y
    → IsSafe owns
        (begun y (if b then (y.state, false) else (record (y.state) { closed = true }, true)))
begun_if-IsSafe owns true y same k = record {
  one_loop = k.one_loop;
  one_close = k.one_close;
  closed_once = k.closed_once;
  not_yet = k.not_yet;
}
begun_if-IsSafe owns false y same k = record {
  one_loop = shut-OneLoop y.next_id y.loops y.state k.one_loop;
  one_close = begun-OneClose owns y.closers y.state same k.one_close;
  closed_once = k.closed_once;
  not_yet = k.not_yet;
}

pub begun-IsSafe :
    (owns : Bool) (y : System) → IsSafe owns y → IsSafe owns (begun y (close_once y.state))
unfolding close_once
begun-IsSafe owns y k = begun_if-IsSafe owns y.state.closed y refl k

cancel_watch-OneLoop :
    (n : ℕ) (rs : List Running) (st : State)
    → st.closed ≡ true
    → OneLoop n rs st
    → OneLoop n rs (cancel_watch st).0
unfolding cancel_watch
cancel_watch-OneLoop n [] st shut k = ground arith
cancel_watch-OneLoop n (r ∷ []) st shut k = ground arith
cancel_watch-OneLoop n (r ∷ t ∷ rs) st shut k = absurd k

pub cancel_watch_lem :
    (st : State) (h : Handle)
    → ((cancel_watch st).0.closed ≡ st.closed)
      × (closings h (cancel_watch st).0.trace ≡ closings h st.trace)
      × (client_closings (cancel_watch st).0.trace ≡ client_closings st.trace)
unfolding cancel_watch
cancel_watch_lem st h = ground arith

pub cancels-IsSafe :
    (owns : Bool) (y : System) (cs ds : List Closing)
    → y.closers ≡ cs ++ cancelling ∷ ds
    → IsSafe owns y
    → IsSafe owns (record y {
      state = (cancel_watch y.state).0;
      closers = cs ++ waiting_for (cancel_watch y.state).1 ∷ ds;
    })
cancels-IsSafe owns y cs ds here k =
    let one = subst (λ l. OneClose owns l y.state) here k.one_close in
    let ((shut, none_yet), put_back, removed) = closers-single owns cs ds cancelling y.state one in
    let (same_closed, kept, same_client) = cancel_watch_lem y.state 0 in
    record {
      one_loop = cancel_watch-OneLoop y.next_id y.loops y.state shut k.one_loop;
      one_close = put_back _ _ (same_closed ∙ shut, same_client ∙ none_yet);
      closed_once = λ h. ground (arith, (cancel_watch_lem y.state h).1, k.closed_once h);
      not_yet = λ h later. (cancel_watch_lem y.state h).1 ∙ k.not_yet h later;
    }

pub stops_waiting-IsSafe :
    (owns : Bool) (y : System) (cs ds : List Closing) (done : Option Handle)
    → y.closers ≡ cs ++ waiting_for done ∷ ds
    → IsSafe owns y
    → IsSafe owns (record y { closers = cs ++ closing ∷ ds })
stops_waiting-IsSafe owns y cs ds done here k =
    let one = subst (λ l. OneClose owns l y.state) here k.one_close in
    let (alone, put_back, removed) = closers-single owns cs ds (waiting_for done) y.state one in
    record {
      one_loop = k.one_loop;
      one_close = put_back closing y.state alone;
      closed_once = k.closed_once;
      not_yet = k.not_yet;
    }

close_client-OneLoop :
    (owns : Bool) (client : Handle) (n : ℕ) (rs : List Running) (st : State)
    → OneLoop n rs st
    → OneLoop n rs (close_client owns client st)
unfolding close_client
close_client-OneLoop owns client n [] st k = ground arith
close_client-OneLoop owns client n (r ∷ []) st k = ground arith
close_client-OneLoop owns client n (r ∷ t ∷ rs) st k = absurd k

pub close_client_lem :
    (owns : Bool) (client h : Handle) (st : State)
    → ((close_client owns client st).closed ≡ st.closed)
      × (closings h (close_client owns client st).trace ≡ closings h st.trace)
      × (client_closings (close_client owns client st).trace
          ≡ (if owns then 1 else 0) + client_closings st.trace)
unfolding close_client
close_client_lem owns client h st = ground arith

pub closes_client-IsSafe :
    (owns : Bool) (client : Handle) (y : System) (cs ds : List Closing)
    → y.closers ≡ cs ++ closing ∷ ds
    → IsSafe owns y
    → IsSafe owns (record y { state = close_client owns client y.state; closers = cs ++ ds })
closes_client-IsSafe owns client y cs ds here k =
    let one = subst (λ l. OneClose owns l y.state) here k.one_close in
    let ((shut, none_yet), put_back, removed) = closers-single owns cs ds closing y.state one in
    let (same_closed, kept, counted) = close_client_lem owns client 0 y.state in
    record {
      one_loop = close_client-OneLoop owns client y.next_id y.loops y.state k.one_loop;
      one_close = removed _ (inr (same_closed ∙ shut, ground (arith, counted, none_yet)));
      closed_once =
          λ h. ground (arith, (close_client_lem owns client h y.state).1, k.closed_once h);
      not_yet = λ h later. (close_client_lem owns client h y.state).1 ∙ k.not_yet h later;
    }
