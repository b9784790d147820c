-- ===== src/Settings.antt =====
-- settings.go: the configuration that options fill in, and its defaults. `V` is Go's `any`, the
-- type of the values in a koanf map.
pub mod Options
use koanf_etcd.Base.{ℕ, ◌*◌, ◌^◌, Bool, true, false, Option, none, List, [], Bytes, codes}
use koanf_etcd.Base.Int.{ℤ, pos}
use koanf_etcd.Errors.{Result}

-- A pointer or a function that the program only stores, compares with nil, and hands on.
abbrev pub Handle : Type 0
Handle = ℕ

pub data Context : Type 0 where
  background : Context
  caller : Handle → Context

-- The fields of a *tls.Config that the program sets, and the rest of one that a caller supplies.
pub record TlsConfig : Type 0 where
  pub min_version : ℕ
  pub certificates : List Handle
  pub root_cas : Option Handle
  pub server_name : Bytes
  pub others : Handle

-- A time.Duration, in nanoseconds.
abbrev pub Duration : Type 0
Duration = ℤ

abbrev pub seconds : ℕ → Duration
seconds n = pos (n * 10 ^ 9)

pub record Settings (V : Type 0) : Type 0 where
  pub client : Option Handle
  pub endpoints : List Bytes
  pub srv_service : Bytes
  pub srv_proto : Bytes
  pub srv_domain : Bytes
  pub dial_timeout : Duration
  pub keep_alive_t : Duration
  pub keep_alive_to : Duration
  pub auto_sync : Duration
  pub username : Bytes
  pub password : Bytes
  pub auth_provider : Option (Context → Result (Bytes × Bytes))
  pub tls_cfg : Option TlsConfig
  pub tls_cert_file : Bytes
  pub tls_key_file : Bytes
  pub tls_ca_file : Bytes
  pub tls_server_name : Bytes
  pub client_ctx : Option Context
  pub endpoints_set : Bool
  pub srv_set : Bool
  pub dial_timeout_set : Bool
  pub keep_alive_set : Bool
  pub auto_sync_set : Bool
  pub auth_set : Bool
  pub tls_set : Bool
  pub client_ctx_set : Bool
  pub key : Bytes
  pub prefix : Bytes
  pub blob : Bool
  pub delim : Bytes
  pub trim_prefix : Bool
  pub unflatten : Bool
  pub key_transform : Option (Bytes → Bytes)
  pub value_transform : Option (Bytes → Bytes → Result V)
  pub limit : ℤ
  pub serializable : Bool
  pub read_revision : ℤ
  pub read_timeout : Duration
  pub strict : Bool
  pub on_empty : Option Handle
  pub watch_ctx : Option Context
  pub debounce : Duration
  pub max_pending_events : ℤ
  pub reconnect_min : Duration
  pub reconnect_max : Duration
  pub resume_from_revision : Bool
  pub progress_notify : Bool
  pub want_put : Bool
  pub want_delete : Bool
  pub filter_set : Bool
  pub created_notify : Bool
  pub on_reconnect : Option Handle
  pub on_resync : Option Handle
  pub on_watch_error : Option Handle
  pub close_timeout : Duration

-- Fields that Go leaves at their zero value are written out.
unfoldable pub new_settings : {V : Type 0} → Settings V
new_settings = record {
  client = none;
  endpoints = [];
  srv_service = [];
  srv_proto = [];
  srv_domain = [];
  dial_timeout = seconds 5;
  keep_alive_t = pos 0;
  keep_alive_to = pos 0;
  auto_sync = pos 0;
  username = [];
  password = [];
  auth_provider = none;
  tls_cfg = none;
  tls_cert_file = [];
  tls_key_file = [];
  tls_ca_file = [];
  tls_server_name = [];
  client_ctx = none;
  endpoints_set = false;
  srv_set = false;
  dial_timeout_set = false;
  keep_alive_set = false;
  auto_sync_set = false;
  auth_set = false;
  tls_set = false;
  client_ctx_set = false;
  key = [];
  prefix = [];
  blob = false;
  delim = codes ".";
  trim_prefix = true;
  unflatten = true;
  key_transform = none;
  value_transform = none;
  limit = pos 0;
  serializable = false;
  read_revision = pos 0;
  read_timeout = seconds 5;
  strict = false;
  on_empty = none;
  watch_ctx = none;
  debounce = pos 0;
  max_pending_events = pos 10000;
  reconnect_min = seconds 1;
  reconnect_max = seconds 120;
  resume_from_revision = true;
  progress_notify = true;
  want_put = false;
  want_delete = false;
  filter_set = false;
  created_notify = false;
  on_reconnect = none;
  on_resync = none;
  on_watch_error = none;
  close_timeout = seconds 5;
}
