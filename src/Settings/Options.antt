-- ===== src/Settings/Options.antt =====
-- options.go: an option is a function on the settings. A nil argument is `none`.
use koanf_etcd.Base.{Bool, true, Option, List, Bytes}
use koanf_etcd.Base.Int.{ℤ}
use koanf_etcd.Errors.{Result, ok}
use koanf_etcd.Settings.{Settings, Handle, Context, TlsConfig, Duration}

-- `type Option func(*settings) error`
abbrev pub Setting : Type 0 → Type 0
Setting V = Settings V → Result (Settings V)

module _ {V : Type 0} where
  unfoldable pub with_client : Option Handle → Setting V
  with_client c s = ok (record s { client = c })

  unfoldable pub with_endpoints : List Bytes → Setting V
  with_endpoints eps s = ok (record s { endpoints = eps; endpoints_set = true })

  unfoldable pub with_endpoints_from_srv : (service proto domain : Bytes) → Setting V
  with_endpoints_from_srv service proto domain s =
      ok
        (record s { srv_service = service; srv_proto = proto; srv_domain = domain; srv_set = true })

  unfoldable pub with_dial_timeout : Duration → Setting V
  with_dial_timeout d s = ok (record s { dial_timeout = d; dial_timeout_set = true })

  unfoldable pub with_keep_alive : (t timeout : Duration) → Setting V
  with_keep_alive t timeout s =
      ok (record s { keep_alive_t = t; keep_alive_to = timeout; keep_alive_set = true })

  unfoldable pub with_auto_sync : Duration → Setting V
  with_auto_sync d s = ok (record s { auto_sync = d; auto_sync_set = true })

  unfoldable pub with_auth : (user pass : Bytes) → Setting V
  with_auth user pass s = ok (record s { username = user; password = pass; auth_set = true })

  unfoldable pub with_auth_provider : Option (Context → Result (Bytes × Bytes)) → Setting V
  with_auth_provider fn s = ok (record s { auth_provider = fn; auth_set = true })

  unfoldable pub with_tls : Option TlsConfig → Setting V
  with_tls cfg s = ok (record s { tls_cfg = cfg; tls_set = true })

  unfoldable pub with_tls_files : (cert key ca : Bytes) → Setting V
  with_tls_files cert key ca s =
      ok (record s { tls_cert_file = cert; tls_key_file = key; tls_ca_file = ca; tls_set = true })

  unfoldable pub with_tls_server_name : Bytes → Setting V
  with_tls_server_name name s = ok (record s { tls_server_name = name; tls_set = true })

  unfoldable pub with_client_context : Option Context → Setting V
  with_client_context ctx s = ok (record s { client_ctx = ctx; client_ctx_set = true })

  unfoldable pub with_key : Bytes → Setting V
  with_key k s = ok (record s { key = k })

  unfoldable pub with_prefix : Bytes → Setting V
  with_prefix p s = ok (record s { prefix = p })

  unfoldable pub with_blob : Setting V
  with_blob s = ok (record s { blob = true })

  unfoldable pub with_delim : Bytes → Setting V
  with_delim d s = ok (record s { delim = d })

  unfoldable pub with_trim_prefix : Bool → Setting V
  with_trim_prefix on s = ok (record s { trim_prefix = on })

  unfoldable pub with_unflatten : Bool → Setting V
  with_unflatten on s = ok (record s { unflatten = on })

  unfoldable pub with_key_transform : Option (Bytes → Bytes) → Setting V
  with_key_transform fn s = ok (record s { key_transform = fn })

  unfoldable pub with_value_transform : Option (Bytes → Bytes → Result V) → Setting V
  with_value_transform fn s = ok (record s { value_transform = fn })

  unfoldable pub with_limit : ℤ → Setting V
  with_limit n s = ok (record s { limit = n })

  unfoldable pub with_serializable : Bool → Setting V
  with_serializable on s = ok (record s { serializable = on })

  unfoldable pub with_read_revision : ℤ → Setting V
  with_read_revision rev s = ok (record s { read_revision = rev })

  unfoldable pub with_read_timeout : Duration → Setting V
  with_read_timeout d s = ok (record s { read_timeout = d })

  unfoldable pub with_strict : Bool → Setting V
  with_strict on s = ok (record s { strict = on })

  unfoldable pub on_empty : Option Handle → Setting V
  on_empty fn s = ok (record s { on_empty = fn })

  unfoldable pub with_watch_context : Option Context → Setting V
  with_watch_context ctx s = ok (record s { watch_ctx = ctx })

  unfoldable pub with_debounce : Duration → Setting V
  with_debounce window s = ok (record s { debounce = window })

  unfoldable pub with_max_pending_events : ℤ → Setting V
  with_max_pending_events n s = ok (record s { max_pending_events = n })

  unfoldable pub with_reconnect_backoff : (min max : Duration) → Setting V
  with_reconnect_backoff min max s = ok (record s { reconnect_min = min; reconnect_max = max })

  unfoldable pub with_resume_from_revision : Bool → Setting V
  with_resume_from_revision on s = ok (record s { resume_from_revision = on })

  unfoldable pub with_progress_notify : Bool → Setting V
  with_progress_notify on s = ok (record s { progress_notify = on })

  unfoldable pub with_event_filter : (put delete_ev : Bool) → Setting V
  with_event_filter put delete_ev s =
      ok (record s { want_put = put; want_delete = delete_ev; filter_set = true })

  unfoldable pub with_created_notify : Bool → Setting V
  with_created_notify on s = ok (record s { created_notify = on })

  unfoldable pub with_on_reconnect : Option Handle → Setting V
  with_on_reconnect fn s = ok (record s { on_reconnect = fn })

  unfoldable pub with_on_resync : Option Handle → Setting V
  with_on_resync fn s = ok (record s { on_resync = fn })

  unfoldable pub with_on_watch_error : Option Handle → Setting V
  with_on_watch_error fn s = ok (record s { on_watch_error = fn })

  unfoldable pub with_close_timeout : Duration → Setting V
  with_close_timeout d s = ok (record s { close_timeout = d })
