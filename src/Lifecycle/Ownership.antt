-- ===== src/Lifecycle/Ownership.antt =====
-- From New to Close: whose client is closed, and what a closed provider still does.
mod Tests
use koanf_etcd.Base.{
  ℕ, ◌≤◌, Bool, true, false, Option, none, some, is_some, List, [], ◌∷◌, Bytes, ◌≡◌, ◌⊎◌, inl, inr,
  refl, ◌∙◌, arith, if◌then◌else◌,
}
use koanf_etcd.Errors.{Error, Result, ok, err, sentinel, closed}
use koanf_etcd.Path.{Map}
use koanf_etcd.Settings.{Settings, Handle, new_settings}
use koanf_etcd.Settings.Options.{Setting}
use koanf_etcd.Provider.{State, Env, new_state}
use koanf_etcd.New.{Configured, apply_options, new}
use koanf_etcd.New.Validation.{new-ok}
use koanf_etcd.Read.{read, read_bytes, read_ctx, read_bytes_ctx}
use koanf_etcd.Lifecycle.{start, watch, watch_typed, close_once}
use koanf_etcd.Lifecycle.Steps.{System, Closing, client_closings, Step, Reaches}
use koanf_etcd.Lifecycle.Safety.{IsNew, IsSafe, OneClose}
use koanf_etcd.Lifecycle.Safety.Reached.{Reaches-IsSafe, Step-closed}

new_state-IsNew : IsNew new_state
new_state-IsNew = record {
  no_cancel = refl;
  no_cb = refl;
  no_typed_cb = refl;
  no_done = refl;
  not_closed = refl;
  no_effects = refl;
}

OneClose-closings :
    (owns : Bool) (cs : List Closing) (st : State)
    → OneClose owns cs st
    → client_closings st.trace ≤ (if owns then 1 else 0)
OneClose-closings owns [] st k = ground arith
OneClose-closings owns (c ∷ []) st k = ground arith
OneClose-closings owns (c ∷ d ∷ cs) st k = absurd k

module _ {V : Type 0} (env : Env V) where
  -- However the calls on a provider that `New` has made interleave: a client that the caller gave
  -- with WithClient is never closed, and one that New has built is closed once at most.
  pub new-Reaches :
      (f : Bytes → V) (build : Settings V → Result Handle) (opts : List (Option (Setting V)))
      (c : Configured V) (y : System)
      → new f build opts ≡ ok c
      → Reaches env c.settings c.owns_client c.client new_state y
      → (s : Settings V) × (apply_options opts new_settings ≡ ok s)
        × (((s.client ≡ some c.client) × (client_closings y.state.trace ≡ 0))
            ⊎ ((s.client ≡ none)
                × (build c.settings ≡ ok c.client)
                × (client_closings y.state.trace ≤ 1)))
  new-Reaches f build opts c y made path =
      let (s, applied, _, _, _, whose) = new-ok f build opts c made in
      let safe =
        Reaches-IsSafe env c.settings c.owns_client c.client new_state y new_state-IsNew path in
      let most = OneClose-closings c.owns_client y.closers y.state safe.one_close in
      (s, applied, ground (arith, most, whose))

module _ {V : Type 0} (env : Env V) (s : Settings V) (owns : Bool) (client : Handle) where
  -- Any number of steps.
  pub data Steps : System → System → Type 0 where
    stays : {y : System} → Steps y y
    goes : {y z w : System} → Steps y z → Step env s owns client z w → Steps y w

  Steps-closed : (y z : System) → Steps y z → y.state.closed ≡ true → z.state.closed ≡ true
  Steps-closed y _ stays h = h
  Steps-closed y w (goes {z = z} path step) h =
      (Step-closed env s owns client z w step (Steps-closed y z path h)).0

  -- A provider on which Close has been called refuses every other call with ErrClosed, and sends
  -- nothing and changes nothing for it, whatever is done in between. WatchTyped reports a context
  -- that is done first.
  pub Steps-refuse :
      (y z : System) (cb id : Handle)
      → Steps y z
      → y.state.closed ≡ true
      → (read env s z.state ≡ (z.state, err (sentinel closed)))
        × (read_bytes env s z.state ≡ (z.state, err (sentinel closed)))
        × (watch cb id z.state ≡ (z.state, err (sentinel closed)))
        × (watch_typed none cb id z.state ≡ (z.state, err (sentinel closed)))
        × (close_once z.state ≡ (z.state, false))
  unfolding read_ctx read_bytes_ctx watch watch_typed start close_once
  Steps-refuse y z cb id path h =
      let shut = Steps-closed y z path h in
      (rw shut refl, rw shut refl, rw shut refl, rw shut refl, rw shut refl)
