-- ===== src/Read/Tests.antt =====
-- Tests of the prefix read, and its theorems at a concrete store that a read takes in three pages.
use koanf_etcd.Base.{[], ◌∷◌, codes, ◌≡◌, refl, arith}
use koanf_etcd.Base.Int.{pos}
use koanf_etcd.Errors.{ok}
use koanf_etcd.Range.{prefix_end}
use koanf_etcd.Settings.{new_settings}
use koanf_etcd.Read.{read_ctx}
use koanf_etcd.Read.Snapshot.{snapshot_map, snapshot_stats, read_ctx_snapshot}
use koanf_etcd.Read.Gets.{Ends, read_ctx-Ends}
use koanf_etcd.Read.Limit.{paged, read_ctx-paged}
use koanf_etcd.Read.Samples.{store, world, config, idle, snap, sorted, bytes}

read_ctx_tests :
    ((read_ctx world config idle).1
      ≡ ok (
          (codes "/app/a", codes "x")
          ∷ (codes "/app/b", codes "x")
          ∷ (codes "/app/c", codes "x")
          ∷ []))
    × ((read_ctx world config idle).0.rpcs ≡ 3)
    × ((read_ctx world config idle).0.stats.revision ≡ 7)
unfolding read_ctx config new_settings prefix_end
read_ctx_tests = (refl, refl, refl)

read_ctx_snapshot_example :
    ((read_ctx world config idle).1 ≡ snapshot_map world config store)
    × ((read_ctx world config idle).0.stats ≡ snapshot_stats world config store 7 idle.stats)
unfolding config new_settings
read_ctx_snapshot_example =
    read_ctx_snapshot world config store 7 idle snap sorted bytes (omega arith) refl refl refl

read_ctx-paged_example :
    (read_ctx world (paged world config (pos 2)) idle).1 ≡ (read_ctx world config idle).1
unfolding config new_settings
read_ctx-paged_example =
    read_ctx-paged world config (pos 2) store 7 idle snap sorted bytes (omega arith) refl

read_ctx-Ends_example : Ends (pos 1) 3 1 (read_ctx world config idle)
unfolding config new_settings
read_ctx-Ends_example =
    read_ctx-Ends world config store 7 idle snap sorted bytes (omega arith) refl refl refl
