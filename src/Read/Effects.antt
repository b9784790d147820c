-- ===== src/Read/Effects.antt =====
-- What a read does to the provider: it sends Gets, stores a revision, counts itself, and may call
-- OnEmpty. The slot of the watch and all else stays as it is.
use koanf_etcd.Base.{List, [], ◌∷◌, ◌≡◌, arith}
use koanf_etcd.Settings.{Settings}
use koanf_etcd.Provider.{
  State, Env, Effect, get_sent, watch_sent, on_empty_called, on_reconnect_called, on_resync_called,
  on_watch_error_called, typed_called, cb_called, slept, done_closed, context_cancelled,
  client_closed,
}
use koanf_etcd.Read.Keeps.{IsKept, read_ctx-kept, read_bytes_ctx-kept}
use koanf_etcd.Read.{count_read, get, store_revision, read_ctx, read_bytes_ctx}

-- The effects by which the watch loop is seen: its RPCs, its sleeps and OnReconnect, and what ends
-- it and the client.
abbrev pub schedule : List Effect → List Effect
schedule [] = []
schedule (watch_sent k o ∷ t) = watch_sent k o ∷ schedule t
schedule (on_reconnect_called h a l r ∷ t) = on_reconnect_called h a l r ∷ schedule t
schedule (slept d ∷ t) = slept d ∷ schedule t
schedule (get_sent k o ∷ t) = schedule t
schedule (on_empty_called h p ∷ t) = schedule t
schedule (on_resync_called h r ∷ t) = schedule t
schedule (on_watch_error_called h e c ∷ t) = schedule t
schedule (typed_called h b ∷ t) = schedule t
schedule (cb_called h ∷ t) = schedule t
schedule (done_closed h ∷ t) = done_closed h ∷ schedule t
schedule (context_cancelled h ∷ t) = context_cancelled h ∷ schedule t
schedule (client_closed h ∷ t) = client_closed h ∷ schedule t

-- The second state has the first one's schedule and watch slot.
pub record Quiet (a b : State) : Type 0 where
  pub same_schedule : schedule b.trace ≡ schedule a.trace
  pub same_cancel : b.watch_cancel ≡ a.watch_cancel
  pub same_cb : b.watch_cb ≡ a.watch_cb
  pub same_typed_cb : b.watch_typed_cb ≡ a.watch_typed_cb
  pub same_done : b.watch_done ≡ a.watch_done
  pub same_closed : b.closed ≡ a.closed

pub Quiet-refl : (a : State) → Quiet a a
Quiet-refl a = ground arith

pub Quiet-trans : (a b c : State) → Quiet a b → Quiet b c → Quiet a c
Quiet-trans a b c h k = ground arith

module _ {V : Type 0} (env : Env V) (s : Settings V) where
  Quiet-IsKept : (a : State) → IsKept env (Quiet a)
  unfolding get store_revision count_read
  Quiet-IsKept a = record {
    by_get = λ key opts st h. Quiet-trans a st _ h (ground arith);
    by_revision = λ rev st h. Quiet-trans a st _ h (ground arith);
    by_count = λ st h. Quiet-trans a st _ h (ground arith);
    by_on_empty = λ handle prefix st h. Quiet-trans a st _ h (ground arith);
  }

  pub read_ctx-Quiet : (st : State) → Quiet st (read_ctx env s st).0
  read_ctx-Quiet st = read_ctx-kept env s (Quiet st) (Quiet-IsKept st) st (Quiet-refl st)

  pub read_bytes_ctx-Quiet : (st : State) → Quiet st (read_bytes_ctx env s st).0
  read_bytes_ctx-Quiet st =
      read_bytes_ctx-kept env s (Quiet st) (Quiet-IsKept st) st (Quiet-refl st)
