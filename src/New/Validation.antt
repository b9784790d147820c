-- ===== src/New/Validation.antt =====
-- Which settings `New` accepts.
use koanf_etcd.Base.{
  true, false, Option, none, some, is_some, List, Bytes, is_empty, ◌≡◌, ◌↔◌, ◌⊎◌, sym, ap, subst,
  ◌∙◌, arith,
}
use koanf_etcd.Errors.{bind-ok, Result, ok, err, Error, Is, sentinel, no_mode, option_conflict}
use koanf_etcd.Settings.{Settings, Handle, new_settings}
use koanf_etcd.Settings.Options.{Setting}
use koanf_etcd.New.{
  validate_settings, apply_options, default_key, default_value, attach, Configured, new,
}

module _ {V : Type 0} where
  -- None of the options that say how to make a client was given.
  pub record IsPlainClient (s : Settings V) : Type 0 where
    pub no_endpoints : s.endpoints_set ≡ false
    pub no_srv : s.srv_set ≡ false
    pub no_dial_timeout : s.dial_timeout_set ≡ false
    pub no_keep_alive : s.keep_alive_set ≡ false
    pub no_auto_sync : s.auto_sync_set ≡ false
    pub no_auth : s.auth_set ≡ false
    pub no_tls : s.tls_set ≡ false
    pub no_client_ctx : s.client_ctx_set ≡ false

  -- A client is given, or the options to make one.
  abbrev pub HasOneClient : Settings V → Type 0
  HasOneClient s = (is_some s.client ≡ false) ⊎ IsPlainClient s

  -- An auth provider is given, or a name and a password.
  abbrev pub HasOneAuth : Settings V → Type 0
  HasOneAuth s =
      (is_some s.auth_provider ≡ false)
      ⊎ ((is_empty s.username ≡ true) × (is_empty s.password ≡ true))

  -- The combinations that the documentation of the options allows.
  pub record IsConsistent (s : Settings V) : Type 0 where
    pub one_mode :
        ((is_empty s.key ≡ false) × (is_empty s.prefix ≡ true))
        ⊎ ((is_empty s.key ≡ true) × (is_empty s.prefix ≡ false))
    pub own_client : HasOneClient s
    pub one_auth : HasOneAuth s
    pub blob_mode : (s.blob ≡ false) ⊎ ((is_empty s.key ≡ false) × (s.unflatten ≡ false))
    pub one_tls :
        (is_some s.tls_cfg ≡ false)
        ⊎ ((is_empty s.tls_cert_file ≡ true)
            × (is_empty s.tls_key_file ≡ true)
            × (is_empty s.tls_ca_file ≡ true))

  pub validate_settings_iff : (s : Settings V) → (validate_settings s ≡ ok tt) ↔ IsConsistent s
  unfolding validate_settings
  validate_settings_iff s = (λ h. ground arith, λ c. ground arith)

  -- Accepted as consistent; or refused with ErrNoMode, with neither a key nor a prefix; or refused
  -- with an error that wraps ErrOptionConflict, as not consistent, and not for that reason alone.
  abbrev pub Verdict : Settings V → Result (Unit {0}) → Type 0
  Verdict s r =
      (IsConsistent s × (r ≡ ok tt))
      ⊎ (((is_empty s.key ≡ true) × (is_empty s.prefix ≡ true) × (r ≡ err (sentinel no_mode)))
          ⊎ (¬ IsConsistent s
              × ((is_empty s.key ≡ false)
                  ⊎ ((is_empty s.prefix ≡ false) ⊎ ¬ (HasOneClient s × HasOneAuth s)))
              × ((e : Error) × (r ≡ err e) × Is option_conflict e)))

  abbrev Completed : (Bytes → V) → Settings V → Settings V
  Completed f s = default_value f (default_key s)

  default_key_lem :
      (s : Settings V)
      → (is_some (default_key s).key_transform ≡ true) × ((default_key s).client ≡ s.client)
  unfolding default_key
  default_key_lem s = ground arith

  default_value_lem :
      (f : Bytes → V) (s : Settings V)
      → (is_some (default_value f s).value_transform ≡ true)
        × ((default_value f s).key_transform ≡ s.key_transform)
        × ((default_value f s).client ≡ s.client)
  unfolding default_value
  default_value_lem f s = ground arith

  attach_lem :
      (build : Settings V → Result Handle) (t : Settings V) (o : Option Handle) (c : Configured V)
      → attach build t o ≡ ok c
      → (c.settings ≡ t)
        × (((o ≡ some c.client) × (c.owns_client ≡ false))
            ⊎ ((o ≡ none) × (c.owns_client ≡ true) × (build t ≡ ok c.client)))
  unfolding attach
  attach_lem build t (some h) c e = ground arith
  attach_lem build t none c e = ground arith

  pub new-ok :
      (f : Bytes → V) (build : Settings V → Result Handle) (opts : List (Option (Setting V)))
      (c : Configured V)
      → new f build opts ≡ ok c
      → (s : Settings V) × (apply_options opts new_settings ≡ ok s)
        × IsConsistent s
        × (is_some c.settings.key_transform ≡ true)
        × (is_some c.settings.value_transform ≡ true)
        × (((s.client ≡ some c.client) × (c.owns_client ≡ false))
            ⊎ ((s.client ≡ none) × (c.owns_client ≡ true) × (build c.settings ≡ ok c.client)))
  unfolding new
  new-ok f build opts c h =
      let (s, applied, rest) = bind-ok (apply_options opts new_settings) _ h in
      let (_, valid, last) = bind-ok (validate_settings s) _ rest in
      let t = default_value f (default_key s) in
      let (key, same_key) = default_key_lem s in
      let (value, kept, same_value) = default_value_lem f (default_key s) in
      let (settings, client) = attach_lem build t t.client c last in
      (
        s,
        applied,
        (validate_settings_iff s).0 valid,
        ap (λ x. is_some x.key_transform) settings ∙ (ap is_some kept ∙ key),
        ap (λ x. is_some x.value_transform) settings ∙ value,
        subst
            (λ o.
              ((o ≡ some c.client) × (c.owns_client ≡ false))
              ⊎ ((o ≡ none) × (c.owns_client ≡ true) × (build c.settings ≡ ok c.client)))
            (same_value ∙ same_key)
            (subst
              (λ x.
                ((t.client ≡ some c.client) × (c.owns_client ≡ false))
                ⊎ ((t.client ≡ none) × (c.owns_client ≡ true) × (build x ≡ ok c.client)))
              (sym settings) client),
      )
