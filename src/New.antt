-- ===== src/New.antt =====
-- etcd.go, `New`: options, their validation, and the defaults that follow.
pub mod Validation
mod Tests
use koanf_etcd.Base.{
  ℕ, Bool, true, false, not, ◌&&◌, ◌||◌, Option, none, some, is_some, List, [], ◌∷◌, Bytes,
  is_empty, if◌then◌else◌,
}
use koanf_etcd.Errors.{
  Result, ok, err, ◌>>=◌, or_wrap, Error, sentinel, wrap, no_mode, option_conflict, apply_option,
  build_client, key_prefix_exclusive, blob_requires_key, blob_with_unflatten, client_mixed,
  auth_exclusive, tls_exclusive, Site,
}
use koanf_etcd.Settings.{Settings, Handle, new_settings}
use koanf_etcd.Settings.Options.{Setting}
use koanf_etcd.Transform.{make_default_key_transform, default_value_transform}

-- `fmt.Errorf("%w: …", ErrOptionConflict)`
abbrev pub conflict {ℓ} : {A : Type ℓ} → Site → Result A
conflict site = err (wrap site (sentinel option_conflict))

-- The fields of a Provider that do not change after `New`.
pub record Configured (V : Type 0) : Type 0 where
  pub settings : Settings V
  pub client : Handle
  pub owns_client : Bool

module _ {V : Type 0} where
  pub has_non_default_client_config : Settings V → Bool
  has_non_default_client_config s =
      s.endpoints_set || s.srv_set || s.dial_timeout_set || s.keep_alive_set || s.auto_sync_set
      || s.auth_set || s.tls_set || s.client_ctx_set

  validate_mode_settings : Settings V → Result (Unit {0})
  validate_mode_settings s =
      let has_key = not (is_empty s.key) in
      let has_prefix = not (is_empty s.prefix) in
      if not has_key && not has_prefix
      then err (sentinel no_mode)
      else if has_key && has_prefix
      then conflict key_prefix_exclusive
      else if not s.blob
      then ok tt
      else if not has_key
      then conflict blob_requires_key
      else if s.unflatten
      then conflict blob_with_unflatten
      else ok tt

  validate_tls_settings : Settings V → Result (Unit {0})
  validate_tls_settings s =
      let files =
        not (is_empty s.tls_cert_file)
        || not (is_empty s.tls_key_file)
        || not (is_empty s.tls_ca_file) in
      if is_some s.tls_cfg && files then conflict tls_exclusive else ok tt

  unfoldable pub validate_settings : Settings V → Result (Unit {0})
  unfolding has_non_default_client_config validate_mode_settings validate_tls_settings
  validate_settings s =
      if is_some s.client && has_non_default_client_config s
      then conflict client_mixed
      else if is_some s.auth_provider && (not (is_empty s.username) || not (is_empty s.password))
      then conflict auth_exclusive
      else validate_mode_settings s >>= λ checked. validate_tls_settings s

  -- A nil option is skipped.
  unfoldable pub apply_options : List (Option (Setting V)) → Settings V → Result (Settings V)
  apply_options [] s = ok s
  apply_options (none ∷ opts) s = apply_options opts s
  apply_options (some opt ∷ opts) s = do t ← or_wrap apply_option (opt s); apply_options opts t

  -- What `New` puts in place of transforms that are nil.
  pub default_key : Settings V → Settings V
  default_key s = elim s.key_transform [
    | none ↦ record s { key_transform = some (make_default_key_transform s) }
    | some f ↦ s
  ]

  pub default_value : (Bytes → V) → Settings V → Settings V
  default_value string_value s = elim s.value_transform [
    | none ↦ record s { value_transform = some (default_value_transform string_value) }
    | some f ↦ s
  ]

  -- The caller's client if there is one, else one that is built. `build` is `buildClient`.
  attach : (Settings V → Result Handle) → Settings V → Option Handle → Result (Configured V)
  attach build t (some c) = ok (record { settings = t; client = c; owns_client = false })
  attach build t none = do
    c ← or_wrap build_client (build t)
    ok (record { settings = t; client = c; owns_client = true })

  unfoldable pub new :
      (Bytes → V) → (Settings V → Result Handle) → List (Option (Setting V)) → Result (Configured V)
  unfolding apply_options validate_settings default_key default_value attach
  new string_value build opts = do
    s ← apply_options opts new_settings
    checked ← validate_settings s
    let t = default_value string_value (default_key s)
    attach build t t.client
