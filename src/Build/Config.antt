-- ===== src/Build/Config.antt =====
-- What a client that `New` builds is configured with.
use koanf_etcd.Base.{
  true, false, Option, none, some, List, ◌++◌, Bytes, is_empty, map, ◌≡◌, ◌≢◌, ◌⊎◌, inl, inr, refl,
  subst, arith, Bool-cases, Option-cases,
}
use koanf_etcd.Base.Int.{pos, eq_int}
use koanf_etcd.Errors.{Result, ok, or_wrap, bind-ok, or_wrap-ok, srv_lookup, auth_provider}
use koanf_etcd.Settings.{Settings, Context, TlsConfig, Duration, seconds}
use koanf_etcd.Settings.Options.{Setting}
use koanf_etcd.New.{Configured, new}
use koanf_etcd.New.Validation.{new-ok}
use koanf_etcd.Build.{
  Srv, ClientConfig, World, endpoint, lookup_srv_endpoints, or_background, credentials,
  all_endpoints, choose_tls, config_of, client_config, build_client, default_if_zero,
}
use koanf_etcd.Build.Tls.{HasTls, named_lem, choose_tls_lem}

module _ {V : Type 0} (w : World) (s : Settings V) where
  -- The credentials of the provider, if there is one, and else those of the settings.
  abbrev pub HasCredentials : Bytes → Bytes → Type 0
  HasCredentials user pass =
      ((s.auth_provider ≡ none) × (user ≡ s.username) × (pass ≡ s.password))
      ⊎ ((fn : Context → Result (Bytes × Bytes)) × (s.auth_provider ≡ some fn)
          × (fn (or_background w s s.client_ctx) ≡ ok (user, pass)))

  credentials_lem :
      (user pass : Bytes) → credentials w s ≡ ok (user, pass) → HasCredentials user pass
  unfolding credentials
  credentials_lem user pass h = elim (Option-cases s.auth_provider) [
    | inl absent ↦ inl (absent, ground (arith, absent), ground (arith, absent))
    | inr (fn, given) ↦ inr (fn, given, or_wrap-ok auth_provider _ (rw given at h))
  ]

  -- The endpoints of the settings, and behind them those of the SRV records in their order.
  abbrev pub HasEndpoints : List Bytes → Type 0
  HasEndpoints eps =
      ((is_empty s.srv_service ≡ true) × (eps ≡ s.endpoints))
      ⊎ ((addrs : List Srv) × (w.lookup_srv s.srv_service s.srv_proto s.srv_domain ≡ ok addrs)
          × (eps ≡ s.endpoints ++ map endpoint addrs))

  all_endpoints_lem : (eps : List Bytes) → all_endpoints w s ≡ ok eps → HasEndpoints eps
  unfolding all_endpoints lookup_srv_endpoints
  all_endpoints_lem eps h = elim (Bool-cases (is_empty s.srv_service)) [
    | inl absent ↦ inl (absent, ground arith)
    | inr given ↦
        let (found, looked, made) = bind-ok (or_wrap srv_lookup _) _ (simp given at h) in
        let (addrs, answered, listed) =
          bind-ok (w.lookup_srv _ _ _) _ (or_wrap-ok srv_lookup _ looked) in
        inr (addrs, answered, ground arith)
  ]

  -- The configuration that is handed to clientv3.New. A synchronisation interval of zero is never
  -- handed over: it becomes 30 seconds.
  pub record IsConfigured (cfg : ClientConfig) : Type 0 where
    pub has_endpoints : HasEndpoints cfg.endpoints
    pub has_credentials : HasCredentials cfg.username cfg.password
    pub has_tls : HasTls w s cfg.tls
    pub timeouts :
        (cfg.dial_timeout ≡ s.dial_timeout)
        × (cfg.dial_keep_alive_time ≡ s.keep_alive_t)
        × (cfg.dial_keep_alive_timeout ≡ s.keep_alive_to)
    pub same_context : cfg.context ≡ s.client_ctx
    pub auto_sync :
        ((s.auto_sync ≡ pos 0) × (cfg.auto_sync_interval ≡ seconds 30))
        ⊎ ((s.auto_sync ≢ pos 0) × (cfg.auto_sync_interval ≡ s.auto_sync))

  auto_sync_lem :
      (d : Duration)
      → ((d ≡ pos 0) × (default_if_zero d (seconds 30) ≡ seconds 30))
        ⊎ ((d ≢ pos 0) × (default_if_zero d (seconds 30) ≡ d))
  unfolding default_if_zero
  auto_sync_lem d = elim (Bool-cases (eq_int d (pos 0))) [
    | inl is_zero ↦ inl (ground arith, ground arith)
    | inr other ↦ inr ((λ e. ground arith), ground arith)
  ]

  config_of_lem :
      (user pass : Bytes) (eps : List Bytes) (tls : Option TlsConfig)
      → credentials w s ≡ ok (user, pass)
      → all_endpoints w s ≡ ok eps
      → choose_tls w s ≡ ok tls
      → IsConfigured (config_of w s user pass eps tls)
  unfolding config_of
  config_of_lem user pass eps tls checked found chosen = record {
    has_endpoints = all_endpoints_lem eps found;
    has_credentials = credentials_lem user pass checked;
    has_tls = named_lem w s tls (choose_tls_lem w s tls chosen);
    timeouts = (refl, refl, refl);
    same_context = refl;
    auto_sync = auto_sync_lem s.auto_sync;
  }

  ok-injective : {x y : ClientConfig} → ◌≡◌ {A = Result ClientConfig} (ok x) (ok y) → x ≡ y
  ok-injective h = cc

  client_config-ok : (cfg : ClientConfig) → client_config w s ≡ ok cfg → IsConfigured cfg
  unfolding client_config
  client_config-ok cfg h =
      let ((user, pass), checked, h') = bind-ok (credentials w s) _ h in
      let (eps, found, h'') = bind-ok (all_endpoints w s) _ h' in
      let (tls, chosen, made) = bind-ok (choose_tls w s) _ h'' in
      subst IsConfigured (ok-injective made) (config_of_lem user pass eps tls checked found chosen)

-- A client that `New` builds is made by clientv3.New, of the configuration above.
pub new-build_client :
    {V : Type 0} (w : World) (f : Bytes → V) (opts : List (Option (Setting V))) (c : Configured V)
    → new f (build_client w) opts ≡ ok c
    → (c.owns_client ≡ false)
      ⊎ ((cfg : ClientConfig) × IsConfigured w c.settings cfg × (w.new_client cfg ≡ ok c.client))
unfolding build_client
new-build_client w f opts c h =
    let (s, applied, consistent, key, value, client) = new-ok f (build_client w) opts c h in
    elim client [
      | inl (given, byo) ↦ inl byo
      | inr (absent, owned, built) ↦
          let (cfg, configured, made) = bind-ok (client_config w c.settings) _ built in
          inr (cfg, client_config-ok w c.settings cfg configured, made)
    ]
