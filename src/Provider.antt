-- ===== src/Provider.antt =====
-- The part of a Provider that changes (etcd.go, settings.go), the effects of its operations, and
-- what it runs in.
use koanf_etcd.Base.{
  ℕ, ◌+◌, ◌%◌, ◌^◌, Bool, false, Option, none, some, List, [], ◌∷◌, Bytes, if◌then◌else◌,
}
use koanf_etcd.Base.Int.{ℤ, pos, eq_int}
use koanf_etcd.Errors.{Result, Error, WatchErrorClass}
use koanf_etcd.Client.{OpOption, GetResponse}
use koanf_etcd.Settings.{Handle, Duration}

pub data EventType : Type 0 where
  event_put event_delete event_resync : EventType

-- What WatchTyped delivers.
pub record Event : Type 0 where
  pub type : EventType
  pub key : Bytes
  pub value : Bytes
  pub revision : ℕ

-- uint64 counters; times are UnixNano.
pub record AtomicStats : Type 0 where
  pub revision : ℕ
  pub total_puts : ℕ
  pub total_deletes : ℕ
  pub total_resyncs : ℕ
  pub total_reconnects : ℕ
  pub last_batch : ℤ
  pub last_resync_unix : ℤ
  pub last_reconn_unix : ℤ
  pub total_watch_errors : ℕ
  pub total_events_delivered : ℕ
  pub total_reads : ℕ
  pub last_watch_error_unix : ℤ
  pub total_debounce_flushes : ℕ
  pub last_flush_coalesced : ℤ

-- `counter.Add(n)` on an atomic.Uint64.
abbrev pub add64 : ℕ → ℕ → ℕ
add64 c n = (c + n) % 2 ^ 64

-- The snapshot that `Stats()` returns; the zero time is `none`.
pub record Stats : Type 0 where
  pub revision : ℕ
  pub total_puts : ℕ
  pub total_deletes : ℕ
  pub total_resyncs : ℕ
  pub total_reconnects : ℕ
  pub last_event_batch : ℤ
  pub last_resync_at : Option ℤ
  pub last_reconnect_at : Option ℤ
  pub total_watch_errors : ℕ
  pub total_events_delivered : ℕ
  pub total_reads : ℕ
  pub last_watch_error_at : Option ℤ
  pub total_debounce_flushes : ℕ
  pub last_flush_coalesced_count : ℤ

time_of : ℤ → Option ℤ
time_of t = if eq_int t (pos 0) then none else some t

pub snapshot : AtomicStats → Stats
unfolding time_of
snapshot a = record {
  revision = a.revision;
  total_puts = a.total_puts;
  total_deletes = a.total_deletes;
  total_resyncs = a.total_resyncs;
  total_reconnects = a.total_reconnects;
  last_event_batch = a.last_batch;
  last_resync_at = time_of a.last_resync_unix;
  last_reconnect_at = time_of a.last_reconn_unix;
  total_watch_errors = a.total_watch_errors;
  total_events_delivered = a.total_events_delivered;
  total_reads = a.total_reads;
  last_watch_error_at = time_of a.last_watch_error_unix;
  total_debounce_flushes = a.total_debounce_flushes;
  last_flush_coalesced_count = a.last_flush_coalesced;
}

-- What a caller or etcd can see the provider do. A callback is named by its handle.
pub data Effect : Type 0 where
  get_sent watch_sent : Bytes → List OpOption → Effect
  on_empty_called : Handle → Bytes → Effect
  on_reconnect_called : Handle → (attempts : ℕ) → (last : Option Error) → (revision : ℕ) → Effect
  on_resync_called : Handle → (revision : ℕ) → Effect
  on_watch_error_called : Handle → Error → WatchErrorClass → Effect
  typed_called : Handle → List Event → Effect
  cb_called : Handle → Effect
  slept : Duration → Effect
  done_closed context_cancelled client_closed : Handle → Effect

-- The mutable fields of a Provider; then how many Get calls it has sent, how often it has read the
-- clock and called a watch callback, and its effects, the newest first. `watch_cancel` and
-- `watch_done` name the running goroutine's context and channel.
pub record State : Type 0 where
  pub stats : AtomicStats
  pub watch_cancel : Option Handle
  pub watch_cb : Option Handle
  pub watch_typed_cb : Option Handle
  pub watch_done : Option Handle
  pub closed : Bool
  pub rpcs : ℕ
  pub ticks : ℕ
  pub calls : ℕ
  pub trace : List Effect

-- The zero values of `&Provider{settings: s}`.
abbrev pub new_stats : AtomicStats
new_stats = record {
  revision = 0;
  total_puts = 0;
  total_deletes = 0;
  total_resyncs = 0;
  total_reconnects = 0;
  last_batch = pos 0;
  last_resync_unix = pos 0;
  last_reconn_unix = pos 0;
  total_watch_errors = 0;
  total_events_delivered = 0;
  total_reads = 0;
  last_watch_error_unix = pos 0;
  total_debounce_flushes = 0;
  last_flush_coalesced = pos 0;
}

abbrev pub new_state : State
new_state = record {
  stats = new_stats;
  watch_cancel = none;
  watch_cb = none;
  watch_typed_cb = none;
  watch_done = none;
  closed = false;
  rpcs = 0;
  ticks = 0;
  calls = 0;
  trace = [];
}

-- `Revision` and `Stats`.
abbrev pub current_revision : State → ℕ
current_revision st = st.stats.revision

abbrev pub current_stats : State → Stats
current_stats st = snapshot st.stats

-- What is not the program's: the answer of etcd's client to the n-th Get, maps.Unflatten, the
-- order in which Go ranges over a map, the clock's n-th reading, and the panic value, if any, of
-- the n-th call of a watch callback. `fuel` bounds the pages of a prefix read.
pub record Env (V : Type 0) : Type 0 where
  pub get : ℕ → Bytes → List OpOption → Result GetResponse
  pub unflatten : List (Bytes × V) → Bytes → List (Bytes × V)
  pub order : List (Bytes × V) → List (Bytes × V)
  pub now : ℕ → ℤ
  pub panics : ℕ → Option ℕ
  pub fuel : ℕ

abbrev pub emit : Effect → State → State
emit e st = record st { trace = e ∷ st.trace }
