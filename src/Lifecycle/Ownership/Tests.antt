-- ===== src/Lifecycle/Ownership/Tests.antt =====
-- A provider that New makes with a client of its own, and that is closed.
use koanf_etcd.Base.{
  ℕ, ◌≤◌, true, false, Option, none, some, List, [], ◌∷◌, Bytes, codes, ◌≡◌, ◌⊎◌, inl, refl,
}
use koanf_etcd.Base.Int.{pos}
use koanf_etcd.Errors.{Result, ok, err, sentinel, closed}
use koanf_etcd.Settings.{Settings, Handle, new_settings}
use koanf_etcd.Settings.Options.{Setting, with_prefix}
use koanf_etcd.Provider.{Env, new_state, client_closed}
use koanf_etcd.New.{apply_options, Configured, new}
use koanf_etcd.Read.{read, read_bytes}
use koanf_etcd.Lifecycle.{watch, watch_typed, close_once, cancel_watch, close_client}
use koanf_etcd.Lifecycle.Steps.{
  client_closings, System, calls_close, cancels, stops_waiting, closes_client, Reaches, made,
  then_steps,
}
use koanf_etcd.Lifecycle.Ownership.{new-Reaches, stays, Steps-refuse}

abbrev world : Env ℕ
world = record {
  get = λ n k o. ok (record { revision = 1; kvs = []; more = false });
  unflatten = λ m d. m;
  order = λ m. m;
  now = λ n. pos n;
  panics = λ n. none;
  fuel = 1;
}

abbrev string_value : Bytes → ℕ
string_value raw = 0

abbrev build : Settings ℕ → Result Handle
build s = ok 4

abbrev opts : List (Option (Setting ℕ))
unfolding with_prefix
opts = some (with_prefix (codes "/app/")) ∷ []

abbrev provider : Configured ℕ
unfolding new opts new_settings
provider = elim (new string_value build opts) [
  | ok c ↦ c
  | err e ↦ record { settings = new_settings; client = 0; owns_client = false }
]

new-opts : new string_value build opts ≡ ok provider
unfolding new opts new_settings provider
new-opts = refl

abbrev shut : System
shut = record {
  state = record new_state { closed = true; trace = client_closed 4 ∷ [] };
  loops = [];
  closers = [];
  next_id = 0;
}

shut-Reaches : Reaches world provider.settings provider.owns_client provider.client new_state shut
unfolding new opts new_settings provider close_once cancel_watch close_client
shut-Reaches =
    then_steps
      (then_steps (then_steps (then_steps made calls_close) (cancels [] [] refl))
        (stops_waiting [] [] none refl (inl refl)))
      (closes_client [] [] refl)

new-Reaches_example :
    (s : Settings ℕ) × (apply_options opts new_settings ≡ ok s)
    × (((s.client ≡ some provider.client) × (client_closings shut.state.trace ≡ 0))
        ⊎ ((s.client ≡ none)
            × (build provider.settings ≡ ok provider.client)
            × (client_closings shut.state.trace ≤ 1)))
new-Reaches_example = new-Reaches world string_value build opts provider shut new-opts shut-Reaches

Steps-refuse_example :
    (read world new_settings shut.state ≡ (shut.state, err (sentinel closed)))
    × (read_bytes world new_settings shut.state ≡ (shut.state, err (sentinel closed)))
    × (watch 7 1 shut.state ≡ (shut.state, err (sentinel closed)))
    × (watch_typed none 7 1 shut.state ≡ (shut.state, err (sentinel closed)))
    × (close_once shut.state ≡ (shut.state, false))
Steps-refuse_example = Steps-refuse world new_settings true 4 shut shut 7 1 stays refl
