-- ===== src/Build.antt =====
-- etcd.go and transform.go: the construction of an etcd client, `buildClient`. Certificates, files,
-- the resolver and etcd's client are a parameter.
pub mod Endpoint
pub mod Tls
pub mod Config
mod Tests
use koanf_etcd.Base.{
  ℕ, zero, suc, ◌+◌, ◌/◌, ◌%◌, Bool, true, false, not, ◌&&◌, ◌||◌, Option, none, some, is_some,
  List, [], ◌∷◌, ◌++◌, map, Bytes, is_empty, ltb, ◌==◌, if◌then◌else◌,
}
use koanf_etcd.Base.Int.{ℤ, pos, eq_int}
use koanf_etcd.Errors.{
  Result, ok, err, ◌>>=◌, or_wrap, Error, plain, no_valid_certs, Site, auth_provider, srv_lookup,
  load_keypair, read_ca,
}
use koanf_etcd.Settings.{Settings, Handle, Context, background, TlsConfig, Duration, seconds}

-- net.SRV
pub record Srv : Type 0 where
  pub target : Bytes
  pub port : ℕ

-- The fields of clientv3.Config that the program sets; `none` is a nil pointer.
pub record ClientConfig : Type 0 where
  pub endpoints : List Bytes
  pub dial_timeout : Duration
  pub dial_keep_alive_time : Duration
  pub dial_keep_alive_timeout : Duration
  pub auto_sync_interval : Duration
  pub username : Bytes
  pub password : Bytes
  pub context : Option Context
  pub tls : Option TlsConfig

-- tls.LoadX509KeyPair, os.ReadFile, the pool of the certificates in a PEM text, with `none` if it
-- holds no valid one, net.LookupSRV and clientv3.New.
pub record World : Type 0 where
  pub load_key_pair : Bytes → Bytes → Result Handle
  pub read_file : Bytes → Result Bytes
  pub pool_of : Bytes → Option Handle
  pub lookup_srv : Bytes → Bytes → Bytes → Result (List Srv)
  pub new_client : ClientConfig → Result Handle

abbrev pub colon : ℕ
colon = b':'

-- The decimal digits of fmt's %d; a number below the fuel has all of them.
digits : ℕ → ℕ → Bytes
digits zero n = []
digits (suc fuel) n =
    let front = digits fuel (n / 10) in
    if ltb n 10 then (b'0' + n) ∷ [] else front ++ (b'0' + n % 10) ∷ []

pub decimal : ℕ → Bytes
unfolding digits
decimal n = digits (suc n) n

-- strings.TrimSuffix(s, ".")
pub trim_dot : Bytes → Bytes
trim_dot [] = []
trim_dot (c ∷ []) = if c == b'.' then [] else c ∷ []
trim_dot (c ∷ d ∷ s) = c ∷ trim_dot (d ∷ s)

-- `fmt.Sprintf("%s:%d", strings.TrimSuffix(a.Target, "."), a.Port)`
unfoldable pub endpoint : Srv → Bytes
unfolding decimal trim_dot
endpoint a = trim_dot a.target ++ colon ∷ decimal a.port

unfoldable pub default_if_zero : Duration → Duration → Duration
default_if_zero v d = if eq_int v (pos 0) then d else v

module _ (w : World) where
  unfoldable pub lookup_srv_endpoints : (service proto domain : Bytes) → Result (List Bytes)
  unfolding endpoint
  lookup_srv_endpoints service proto domain = do
    addrs ← w.lookup_srv service proto domain
    ok (map endpoint addrs)

  -- `&tls.Config{MinVersion: tls.VersionTLS12}`
  abbrev pub tls_12 : TlsConfig
  tls_12 = record {
    min_version = 0x0303;
    certificates = [];
    root_cas = none;
    server_name = [];
    others = 0;
  }

  load_certificate : (cert_file key_file : Bytes) → TlsConfig → Result TlsConfig
  load_certificate cert_file key_file cfg =
      if not (is_empty cert_file) && not (is_empty key_file)
      then (do
        cert ← or_wrap load_keypair (w.load_key_pair cert_file key_file)
        ok (record cfg { certificates = cert ∷ [] }))
      else ok cfg

  pool_or_error : Option Handle → Result Handle
  pool_or_error none = err (plain no_valid_certs)
  pool_or_error (some pool) = ok pool

  load_ca : Bytes → TlsConfig → Result TlsConfig
  unfolding pool_or_error
  load_ca ca_file cfg =
      if not (is_empty ca_file)
      then (do
        ca_pem ← or_wrap read_ca (w.read_file ca_file)
        pool ← pool_or_error (w.pool_of ca_pem)
        ok (record cfg { root_cas = some pool }))
      else ok cfg

  unfoldable pub load_tls_from_files : (cert_file key_file ca_file : Bytes) → Result TlsConfig
  unfolding load_certificate load_ca
  load_tls_from_files cert_file key_file ca_file = do
    cfg ← load_certificate cert_file key_file tls_12
    load_ca ca_file cfg

  module _ {V : Type 0} (s : Settings V) where
    abbrev or_background : Option Context → Context
    or_background none = background
    or_background (some ctx) = ctx

    -- The user and the password.
    credentials : Result (Bytes × Bytes)
    credentials = elim s.auth_provider [
      | none ↦ ok (s.username, s.password)
      | some fn ↦ or_wrap auth_provider (fn (or_background s.client_ctx))
    ]

    -- The endpoints of the settings, and behind them those of the SRV records.
    all_endpoints : Result (List Bytes)
    unfolding lookup_srv_endpoints
    all_endpoints = if is_empty s.srv_service then ok s.endpoints else (do
      eps ← or_wrap srv_lookup (lookup_srv_endpoints s.srv_service s.srv_proto s.srv_domain)
      ok (s.endpoints ++ eps))

    from_files : Result (Option TlsConfig)
    unfolding load_tls_from_files
    from_files =
        if not (is_empty s.tls_cert_file)
          || (not (is_empty s.tls_key_file) || not (is_empty s.tls_ca_file))
        then (do
          cfg ← load_tls_from_files s.tls_cert_file s.tls_key_file s.tls_ca_file
          ok (some cfg))
        else ok none

    -- The caller's TLS configuration, or one from the files, or none.
    pub choose_tls : Result (Option TlsConfig)
    unfolding from_files
    choose_tls = elim s.tls_cfg [ some cfg ↦ ok (some cfg) | none ↦ from_files ]

    -- The clone with another server name.
    pub named : Option TlsConfig → Option TlsConfig
    named none = none
    named (some cfg) =
        some (
          if is_empty s.tls_server_name
          then cfg
          else record cfg { server_name = s.tls_server_name })

    -- The composite literal, with the parts that are computed.
    abbrev config_of : (user pass : Bytes) → List Bytes → Option TlsConfig → ClientConfig
    unfolding named default_if_zero
    config_of user pass eps tls = record {
      endpoints = eps;
      dial_timeout = s.dial_timeout;
      dial_keep_alive_time = s.keep_alive_t;
      dial_keep_alive_timeout = s.keep_alive_to;
      auto_sync_interval = default_if_zero s.auto_sync (seconds 30);
      username = user;
      password = pass;
      context = s.client_ctx;
      tls = named tls;
    }

    -- What `buildClient` hands to clientv3.New.
    unfoldable pub client_config : Result ClientConfig
    unfolding credentials all_endpoints choose_tls config_of
    client_config = do
      (user, pass) ← credentials
      eps ← all_endpoints
      tls ← choose_tls
      ok (config_of user pass eps tls)

    unfoldable pub build_client : Result Handle
    unfolding client_config
    build_client = do cfg ← client_config; w.new_client cfg
