-- ===== src/Watch/Loop/Rereads.antt =====
-- What a resync's read keeps: whatever a read keeps.
use koanf_etcd.Base.{Bool, true, false, if◌then◌else◌}
use koanf_etcd.Errors.{Result, ok, err}
use koanf_etcd.Settings.{Settings}
use koanf_etcd.Provider.{State, Env}
use koanf_etcd.Read.{pass, read_ctx, read_bytes_ctx}
use koanf_etcd.Read.Keeps.{IsKept, read_ctx-kept, read_bytes_ctx-kept}
use koanf_etcd.Watch.Loop.{resync}

module _ {V : Type 0} (env : Env V) (s : Settings V) (P : State → Type 0) (k : IsKept env P) where
  pub pass-kept :
      {A B : Type 0} (x : State × Result A) (f : A → State → State × Result B)
      → P x.0
      → ((a : A) (st : State) → P st → P (f a st).0)
      → P (pass x f).0
  pass-kept (st, err e) f h g = h
  pass-kept (st, ok a) f h g = g a st h

  pub pair-kept {ℓ} :
      {A : Type ℓ} (t : Bool) (x y : State × A) → P x.0 → P y.0 → P (if t then x else y).0
  pair-kept true x y h g = h
  pair-kept false x y h g = g

  pub resync-kept : (st : State) → P st → P (resync env s st).0
  unfolding resync
  resync-kept st h =
      pair-kept s.blob (pass (read_bytes_ctx env s st) (λ raw st'. (st', ok st'.stats.revision)))
        (pass (read_ctx env s st) (λ m st'. (st', ok st'.stats.revision)))
        (pass-kept (read_bytes_ctx env s st) (λ raw st'. (st', ok st'.stats.revision))
          (read_bytes_ctx-kept env s P k st h) (λ a b g. g))
        (pass-kept (read_ctx env s st) (λ m st'. (st', ok st'.stats.revision))
          (read_ctx-kept env s P k st h) (λ a b g. g))
